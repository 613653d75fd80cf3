-- ===== src/Analyse/Atomic.antt =====
-- What the atomic design analyser reports.
use pugtemplate.Common.{
  Text, lit, ◌+◌, Bool, true, false, ◌||◌, not, List, [], ◌∷◌, ◌++◌, length, length-append, any,
  if◌then◌else◌, none, some, ◌≡◌, refl, sym, ◌∙◌, arith,
}
use pugtemplate.Analyse.Defs.{
  Entry, Listing, Entries, AtomicDesignAnalyser, find_all, in_slice_prefix, check_includes,
  check_extends, check_pug, check_entry, check_listing, check_entries, is_pug, allowed_paths,
  count_check, check_pugs_in_dir,
}

-- The contents of the pug files of a directory and all below it, in order.
unfoldable mutual
  pub pug_files : Entry → List Text
  pug_files (Entry.file name none) = []
  pug_files (Entry.file name (some b)) = if is_pug name then b ∷ [] else []
  pug_files (Entry.directory name listing) = listing_files listing

  pub listing_files : Listing → List Text
  listing_files Listing.unreadable = []
  listing_files (Listing.entries es) = entries_files es

  pub entries_files : Entries → List Text
  entries_files Entries.nil = []
  entries_files (Entries.cons e es) = pug_files e ++ entries_files es

-- Every pug file can be read, and no directory is named like one.
unfoldable mutual
  pub IsReadable : Entry → Type 0
  IsReadable (Entry.file name none) = is_pug name ≡ false
  IsReadable (Entry.file name (some b)) = Unit
  IsReadable (Entry.directory name listing) = (is_pug name ≡ false) × IsReadableListing listing

  pub IsReadableListing : Listing → Type 0
  IsReadableListing Listing.unreadable = Unit
  IsReadableListing (Listing.entries es) = AreReadable es

  pub AreReadable : Entries → Type 0
  AreReadable Entries.nil = Unit
  AreReadable (Entries.cons e es) = IsReadable e × AreReadable es

-- A file breaks the rules: it includes or extends something outside the allowed paths, or extends
-- anything where that is forbidden.
abbrev pub is_foreign : List Text → Text → Bool
is_foreign allowed m = not (in_slice_prefix m allowed)

abbrev pub breaks_rules : Bool → List Text → Text → Bool
breaks_rules check allowed content =
    any (is_foreign allowed) (find_all (lit "include ") content)
    || any (λ m. not check || is_foreign allowed m) (find_all (lit "extends ") content)

-- The analyser after a report on some files.
abbrev pub report : Bool → List Text → List Text → AtomicDesignAnalyser → AtomicDesignAnalyser
report check allowed files a = record a {
  has_error = a.has_error || any (breaks_rules check allowed) files;
  check_count = a.check_count + length files;
}

abbrev flagged : Bool → AtomicDesignAnalyser → AtomicDesignAnalyser
flagged b a = record a { has_error = a.has_error || b }

check_includes-flagged :
    (allowed ms : List Text) (a : AtomicDesignAnalyser)
    → check_includes allowed ms a ≡ flagged (any (is_foreign allowed) ms) a
unfolding check_includes
check_includes-flagged allowed [] a = ground arith
check_includes-flagged allowed (m ∷ ms) a = check_includes-flagged allowed ms _ ∙ ground arith

check_extends-flagged :
    (check : Bool) (allowed ms : List Text) (a : AtomicDesignAnalyser)
    → check_extends check allowed ms a ≡ flagged (any (λ m. not check || is_foreign allowed m) ms) a
unfolding check_extends
check_extends-flagged check allowed [] a = ground arith
check_extends-flagged check allowed (m ∷ ms) a =
    check_extends-flagged check allowed ms _ ∙ ground arith

check_pug-flagged :
    (check : Bool) (allowed : List Text) (content : Text) (a : AtomicDesignAnalyser)
    → check_pug check allowed content a ≡ flagged (breaks_rules check allowed content) a
unfolding check_pug
check_pug-flagged check allowed content a = ground (
  arith,
  check_includes-flagged allowed (find_all (lit "include ") content) a,
  check_extends-flagged check allowed (find_all (lit "extends ") content)
      (check_includes allowed (find_all (lit "include ") content) a),
)

any-append : (p : Text → Bool) (xs ys : List Text) → any p (xs ++ ys) ≡ (any p xs || any p ys)
any-append p [] ys = refl
any-append p (x ∷ xs) ys = ground (arith, any-append p xs ys)

report-append :
    (check : Bool) (allowed xs ys : List Text) (a : AtomicDesignAnalyser)
    → report check allowed (xs ++ ys) a ≡ report check allowed ys (report check allowed xs a)
report-append check allowed xs ys a =
    ground (arith, any-append (breaks_rules check allowed) xs ys, length-append xs ys)

module _ (check : Bool) (allowed : List Text) where
  mutual
    unfolding check_entry pug_files IsReadable

    entry-report :
        (e : Entry) (a : AtomicDesignAnalyser)
        → IsReadable e
        → check_entry check allowed e a ≡ (report check allowed (pug_files e) a, true)
    entry-report (Entry.file name none) a h = ground arith
    entry-report (Entry.file name (some b)) a h =
        ground (arith, check_pug-flagged check allowed b (count_check a))
    entry-report (Entry.directory name listing) a h = rw (h.0, listing-report listing a h.1)

    listing-report :
        (l : Listing) (a : AtomicDesignAnalyser)
        → IsReadableListing l
        → check_listing check allowed l a ≡ report check allowed (listing_files l) a
    listing-report Listing.unreadable a h = ground arith
    listing-report (Listing.entries es) a h = entries-report es a h

    entries-report :
        (es : Entries) (a : AtomicDesignAnalyser)
        → AreReadable es
        → check_entries check allowed es a ≡ report check allowed (entries_files es) a
    entries-report Entries.nil a h = ground arith
    entries-report (Entries.cons e es) a h = rw (entry-report e a h.0) (
        entries-report es _ h.1
        ∙ sym (report-append check allowed (pug_files e) (entries_files es) a))

-- Where every pug file can be read, the check of a directory counts the pug files in it and below
-- it, and sets the error flag exactly if it was set before or one of them breaks the rules.
pub check_pugs_in_dir-report :
    (dir : Listing) (check : Bool) (allowed : List Text) (a : AtomicDesignAnalyser)
    → IsReadableListing dir
    → check_pugs_in_dir dir check allowed a
      ≡ report check (allowed_paths a.allowed_pug_libs allowed) (listing_files dir) a
unfolding check_pugs_in_dir
check_pugs_in_dir-report dir check allowed a h =
    listing-report check (allowed_paths a.allowed_pug_libs allowed) dir a h
