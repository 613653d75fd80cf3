-- ===== src/Analyse/Escaping.antt =====
-- What the analyser of JavaScript imports reports.
use pugtemplate.Common.{
  Text, ℕ, ◌+◌, ltb, true, false, List, [], ◌∷◌, ◌++◌, length, length-append, append_assoc,
  append-nil, split, if◌then◌else◌, none, some, ◌≡◌, refl, sym, ap, ◌∙◌, arith, Bool-cases, inl,
  inr,
}
use pugtemplate.Analyse.Defs.{Entry, Listing, Entries}
use pugtemplate.Analyse.Imports.{
  Warning, JsDependencyAnalyser, relative_deep, count_back, imports_in, check_imports, is_js,
  count_js, check_js_entry, check_js_dep, check_js_entries, check_js,
}

-- A file with the directory it stands in.
pub record Source : Type 0 where
  pub dir : List Text
  pub name : Text
  pub content : Text

-- The JavaScript files below a directory, in order.
unfoldable mutual
  pub js_files : List Text → Entry → List Source
  js_files dir (Entry.file name none) = []
  js_files dir (Entry.file name (some b)) =
      if is_js name then record { dir = dir; name = name; content = b } ∷ [] else []
  js_files dir (Entry.directory name listing) = js_files_below (dir ++ (name ∷ [])) listing

  pub js_files_below : List Text → Listing → List Source
  js_files_below dir Listing.unreadable = []
  js_files_below dir (Listing.entries es) = js_files_in dir es

  pub js_files_in : List Text → Entries → List Source
  js_files_in dir Entries.nil = []
  js_files_in dir (Entries.cons e es) = js_files dir e ++ js_files_in dir es

-- Every JavaScript file can be read, and no directory is named like one.
unfoldable mutual
  pub IsReadableJs : Entry → Type 0
  IsReadableJs (Entry.file name none) = is_js name ≡ false
  IsReadableJs (Entry.file name (some b)) = Unit
  IsReadableJs (Entry.directory name listing) = (is_js name ≡ false) × IsReadableJsListing listing

  pub IsReadableJsListing : Listing → Type 0
  IsReadableJsListing Listing.unreadable = Unit
  IsReadableJsListing (Listing.entries es) = AreReadableJs es

  pub AreReadableJs : Entries → Type 0
  AreReadableJs Entries.nil = Unit
  AreReadableJs (Entries.cons e es) = IsReadableJs e × AreReadableJs es

-- The imports of a file that have more steps up than its directory has parts.
abbrev pub leaving : List Text → Text → List Text → List Warning
leaving dir name [] = []
leaving dir name (m ∷ ms) =
    if ltb (relative_deep dir) (count_back m)
    then record { dir = dir; name = name; import_path = m } ∷ leaving dir name ms
    else leaving dir name ms

abbrev pub warnings_of : List Source → List Warning
warnings_of [] = []
warnings_of (s ∷ ss) = leaving s.dir s.name (imports_in (split 10 s.content)) ++ warnings_of ss

-- The report after some more files.
abbrev pub after : List Source → JsDependencyAnalyser → JsDependencyAnalyser
after ss a = record {
  check_count = a.check_count + length ss;
  warnings = a.warnings ++ warnings_of ss;
}

warnings_of-append :
    (xs ys : List Source) → warnings_of (xs ++ ys) ≡ warnings_of xs ++ warnings_of ys
warnings_of-append [] ys = refl
warnings_of-append (x ∷ xs) ys =
    ap (λ ws. leaving x.dir x.name (imports_in (split 10 x.content)) ++ ws)
      (warnings_of-append xs ys)
    ∙ sym (append_assoc _ (warnings_of xs) (warnings_of ys))

abbrev report : ℕ → List Warning → JsDependencyAnalyser
report n ws = record { check_count = n; warnings = ws }

same_report : {m n : ℕ} {v w : List Warning} → m ≡ n → v ≡ w → report m v ≡ report n w
same_report {m} {n} {v} {w} e f =
    ap (λ (k : ℕ). report k v) e ∙ ap (λ (u : List Warning). report n u) f

after-append :
    (xs ys : List Source) (a : JsDependencyAnalyser) → after ys (after xs a) ≡ after (xs ++ ys) a
after-append xs ys a = same_report (omega (arith, length-append xs ys)) (
    append_assoc a.warnings (warnings_of xs) (warnings_of ys)
    ∙ ap (λ ws. a.warnings ++ ws) (sym (warnings_of-append xs ys)))

after_none : (a : JsDependencyAnalyser) → a ≡ after [] a
after_none a = same_report (omega arith) (sym (append-nil a.warnings))

check_imports-leaving :
    (dir : List Text) (name : Text) (ms : List Text) (a : JsDependencyAnalyser)
    → check_imports dir name ms a ≡ record a { warnings = a.warnings ++ leaving dir name ms }
unfolding check_imports
check_imports-leaving dir name [] a = same_report refl (sym (append-nil a.warnings))
check_imports-leaving dir name (m ∷ ms) a =
    elim (Bool-cases (ltb (relative_deep dir) (count_back m))) [
      | inl h ↦ rw h (
          check_imports-leaving dir name ms _
          ∙ same_report refl (append_assoc a.warnings _ (leaving dir name ms)))
      | inr h ↦ rw h (check_imports-leaving dir name ms a)
    ]

-- One file.
js_file :
    (dir : List Text) (name b : Text) (a : JsDependencyAnalyser)
    → check_imports dir name (imports_in (split 10 b)) (count_js a)
      ≡ after (record { dir = dir; name = name; content = b } ∷ []) a
js_file dir name b a =
    check_imports-leaving dir name (imports_in (split 10 b)) (count_js a)
    ∙ same_report refl (ap (λ ws. a.warnings ++ ws) (sym (append-nil _)))

mutual
  unfolding check_js_entry js_files IsReadableJs

  check_js_entry-after :
      (dir : List Text) (e : Entry) (a : JsDependencyAnalyser)
      → IsReadableJs e
      → check_js_entry dir e a ≡ (after (js_files dir e) a, true)
  check_js_entry-after dir (Entry.file name none) a h =
      rw h (ap (λ (b : JsDependencyAnalyser). (b, true)) (after_none a))
  check_js_entry-after dir (Entry.file name (some b)) a h = elim (Bool-cases (is_js name)) [
    | inl e ↦ rw e (ap (λ (c : JsDependencyAnalyser). (c, true)) (js_file dir name b a))
    | inr e ↦ rw e (ap (λ (c : JsDependencyAnalyser). (c, true)) (after_none a))
  ]
  check_js_entry-after dir (Entry.directory name listing) a h = rw h.0 (
      ap (λ (b : JsDependencyAnalyser). (b, true))
        (check_js_dep-after (dir ++ (name ∷ [])) listing a h.1))

  check_js_dep-after :
      (dir : List Text) (l : Listing) (a : JsDependencyAnalyser)
      → IsReadableJsListing l
      → check_js_dep dir l a ≡ after (js_files_below dir l) a
  check_js_dep-after dir Listing.unreadable a h = after_none a
  check_js_dep-after dir (Listing.entries es) a h = check_js_entries-after dir es a h

  check_js_entries-after :
      (dir : List Text) (es : Entries) (a : JsDependencyAnalyser)
      → AreReadableJs es
      → check_js_entries dir es a ≡ after (js_files_in dir es) a
  check_js_entries-after dir Entries.nil a h = after_none a
  check_js_entries-after dir (Entries.cons e es) a h = rw (check_js_entry-after dir e a h.0) (
      check_js_entries-after dir es (after (js_files dir e) a) h.1
      ∙ after-append (js_files dir e) (js_files_in dir es) a)

-- If every JavaScript file can be read and no directory is named like one, all JavaScript files are
-- counted, and a warning is printed for each of their imports that has more steps up than the
-- relative path of its directory has parts (which is one for the base directory too), and for no
-- other.
pub check_js-after :
    (base : Listing)
    → IsReadableJsListing base
    → check_js base ≡ record {
      check_count = length (js_files_below [] base);
      warnings = warnings_of (js_files_below [] base);
    }
unfolding check_js
check_js-after base h = check_js_dep-after [] base _ h ∙ same_report (omega arith) refl
