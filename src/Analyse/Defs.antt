-- ===== src/Analyse/Defs.antt =====
-- The two analysers. A directory is given with what ioutil.ReadDir and ioutil.ReadFile return;
-- the messages printed are left out. Paths are joined as filepath.Join does with two clean parts.
use pugtemplate.Common.{
  Text, lit, has_prefix, has_suffix, split, ℕ, ◌+◌, Bool, true, false, not, List, [], ◌∷◌, ◌++◌,
  length, if◌then◌else◌, any, Option, none, some, drop,
}

-- A file with its content, or none where it cannot be read; a directory with its entries, or
-- none. Reading a directory as a file fails.
mutual
  pub data Entry : Type 0 where
    file : Text → Option Text → Entry
    directory : Text → Listing → Entry

  pub data Listing : Type 0 where
    unreadable : Listing
    entries : Entries → Listing

  pub data Entries : Type 0 where
    nil : Entries
    cons : Entry → Entries → Entries

pub record AtomicDesignAnalyser : Type 0 where
  pub has_error : Bool
  pub allowed_pug_libs : List Text
  pub check_count : ℕ

-- NewAtomicDesignAnalyser.
abbrev pub new_atomic_design_analyser : AtomicDesignAnalyser
new_atomic_design_analyser = record {
  has_error = false;
  allowed_pug_libs = [] ∷ lit "/" ∷ lit "/shared" ∷ [];
  check_count = 0;
}

-- What follows the first occurrence of a mark in a line.
unfoldable pub after_mark : Text → Text → Option Text
after_mark mark [] = none
after_mark mark (c ∷ s) =
    if has_prefix mark (c ∷ s) then some (drop (length mark) (c ∷ s)) else after_mark mark s

unfoldable pub captures : Text → List Text → List Text
unfolding after_mark
captures mark [] = []
captures mark (l ∷ ls) = elim (after_mark mark l) [
  | none ↦ captures mark ls
  | some c ↦ c ∷ captures mark ls
]

-- The matches of the expressions `include (.*)` and `extends (.*)`: one in a line at most.
unfoldable pub find_all : Text → Text → List Text
unfolding captures
find_all mark content = captures mark (split 10 content)

unfoldable pub in_slice_prefix : Text → List Text → Bool
in_slice_prefix s prefixes = any (λ p. has_prefix p s) prefixes

-- filepath.Join of two clean parts, the second relative.
unfoldable pub join_path : Text → Text → Text
join_path lib path =
    if has_suffix (lit "/") lib
    then lib ++ path
    else if has_prefix lib []
    then path
    else lib ++ (lit "/" ++ path)

abbrev paths_in : Text → List Text → List Text
paths_in lib [] = []
paths_in lib (p ∷ ps) = join_path lib p ∷ paths_in lib ps

-- The allowed paths in all libraries.
abbrev pub allowed_paths : List Text → List Text → List Text
allowed_paths [] allowed = []
allowed_paths (lib ∷ libs) allowed = paths_in lib allowed ++ allowed_paths libs allowed

-- The loop over the includes, and the one over the extends.
unfoldable pub check_includes : List Text → List Text → AtomicDesignAnalyser → AtomicDesignAnalyser
check_includes allowed [] a = a
check_includes allowed (m ∷ ms) a =
    check_includes allowed ms
      (if not (in_slice_prefix m allowed) then record a { has_error = true } else a)

unfoldable pub check_extends :
    Bool → List Text → List Text → AtomicDesignAnalyser → AtomicDesignAnalyser
check_extends check allowed [] a = a
check_extends check allowed (m ∷ ms) a = check_extends check allowed ms (
    if not check
    then record a { has_error = true }
    else if not (in_slice_prefix m allowed)
    then record a { has_error = true }
    else a)

unfoldable pub check_pug : Bool → List Text → Text → AtomicDesignAnalyser → AtomicDesignAnalyser
unfolding check_includes check_extends
check_pug check allowed content a =
    check_extends check allowed (find_all (lit "extends ") content)
      (check_includes allowed (find_all (lit "include ") content) a)

abbrev pub is_pug : Text → Bool
is_pug name = has_suffix (lit ".pug") name

abbrev pub count_check : AtomicDesignAnalyser → AtomicDesignAnalyser
count_check a = record a { check_count = a.check_count + 1 }

-- The rest of a loop, if it goes on.
abbrev go_on :
    (AtomicDesignAnalyser → AtomicDesignAnalyser)
    → AtomicDesignAnalyser × Bool
    → AtomicDesignAnalyser
go_on rest (a, true) = rest a
go_on rest (a, false) = a

-- What the loop over a directory does with one entry, and whether it goes on: a file that cannot
-- be read ends it.
unfoldable mutual
  pub check_entry : Bool → List Text → Entry → AtomicDesignAnalyser → AtomicDesignAnalyser × Bool
  check_entry check allowed (Entry.file name content) a =
      if is_pug name
      then elim content [
        | none ↦ (count_check a, false)
        | some b ↦ (check_pug check allowed b (count_check a), true)
      ]
      else (a, true)
  check_entry check allowed (Entry.directory name listing) a =
      let below = check_listing check allowed listing a in
      if is_pug name then (count_check below, false) else (below, true)

  pub check_listing : Bool → List Text → Listing → AtomicDesignAnalyser → AtomicDesignAnalyser
  check_listing check allowed Listing.unreadable a = a
  check_listing check allowed (Listing.entries es) a = check_entries check allowed es a

  pub check_entries : Bool → List Text → Entries → AtomicDesignAnalyser → AtomicDesignAnalyser
  check_entries check allowed Entries.nil a = a
  check_entries check allowed (Entries.cons e es) a =
      go_on (λ b. check_entries check allowed es b) (check_entry check allowed e a)

-- `checkPugsInDir`, on the listing of its directory.
unfoldable pub check_pugs_in_dir :
    Listing → Bool → List Text → AtomicDesignAnalyser → AtomicDesignAnalyser
unfolding check_entry
check_pugs_in_dir dir check_extends allowed a =
    check_listing check_extends (allowed_paths a.allowed_pug_libs allowed) dir a

-- The directories below the base directory, in the order in which they are checked.
pub record BaseDir : Type 0 where
  pub atom : Listing
  pub molecule : Listing
  pub organism : Listing
  pub template : Listing
  pub page : Listing

unfoldable pub check_pug_imports : BaseDir → AtomicDesignAnalyser → AtomicDesignAnalyser
unfolding check_pugs_in_dir
check_pug_imports d a =
    let up_to_molecule = lit "atom" ∷ lit "molecule" ∷ [] in
    let up_to_organism = lit "atom" ∷ lit "molecule" ∷ lit "organism" ∷ [] in
    let up_to_template = lit "atom" ∷ lit "molecule" ∷ lit "organism" ∷ lit "template" ∷ [] in
    let a₁ = check_pugs_in_dir d.atom false (lit "atom" ∷ []) a in
    let a₂ = check_pugs_in_dir d.molecule false up_to_molecule a₁ in
    let a₃ = check_pugs_in_dir d.organism false up_to_organism a₂ in
    let a₄ = check_pugs_in_dir d.template true up_to_template a₃ in
    check_pugs_in_dir d.page true up_to_template a₄
