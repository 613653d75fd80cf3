-- ===== src/Analyse/Imports.antt =====
-- JsDependencyAnalyser: imports that leave the base directory.
use pugtemplate.Common.{
  Text, lit, has_prefix, has_suffix, split, ℕ, suc, ◌+◌, ltb, Bool, true, false, List, [], ◌∷◌,
  ◌++◌, length, drop, if◌then◌else◌, Option, none, some,
}
use pugtemplate.Analyse.Defs.{Entry, Listing, Entries, after_mark}

-- A warning: the directory of the file, below the base directory, its name and the import path.
pub record Warning : Type 0 where
  pub dir : List Text
  pub name : Text
  pub import_path : Text

-- The warnings are those printed.
pub record JsDependencyAnalyser : Type 0 where
  pub check_count : ℕ
  pub warnings : List Warning

abbrev pub new_js_dependency_analyser : JsDependencyAnalyser
new_js_dependency_analyser = record { check_count = 0; warnings = [] }

-- What follows the last occurrence of a mark.
unfoldable pub after_last : Text → Text → Option Text
unfolding has_prefix
after_last mark [] = none
after_last mark (c ∷ s) =
    let here = if has_prefix mark (c ∷ s) then some (drop (length mark) (c ∷ s)) else none in
    elim (after_last mark s) [ none ↦ here | some t ↦ some t ]

-- The second group of `import (.*) from (.*)`, matched in a line: the first group takes as much as
-- it can.
abbrev import_of : Option Text → Option Text
import_of none = none
import_of (some t) = after_last (lit " from ") t

unfoldable pub imports_in : List Text → List Text
unfolding after_mark after_last lit
imports_in [] = []
imports_in (l ∷ ls) = elim (import_of (after_mark (lit "import ") l)) [
  | none ↦ imports_in ls
  | some p ↦ p ∷ imports_in ls
]

-- strings.Count of "../", whose occurrences do not overlap.
unfoldable pub count_back : Text → ℕ
unfolding has_prefix lit
count_back [] = 0
count_back (c ∷ s) = if has_prefix (lit "../") (c ∷ s) then suc (count_back s) else count_back s

-- The parts of the relative path of a directory; that of the base directory is ".".
abbrev pub relative_deep : List Text → ℕ
relative_deep [] = 1
relative_deep (d ∷ ds) = length (d ∷ ds)

unfoldable pub check_imports :
    List Text → Text → List Text → JsDependencyAnalyser → JsDependencyAnalyser
unfolding count_back
check_imports dir name [] a = a
check_imports dir name (m ∷ ms) a = check_imports dir name ms (
    if ltb (relative_deep dir) (count_back m)
    then record a {
      warnings = a.warnings ++ (record { dir = dir; name = name; import_path = m } ∷ []);
    }
    else a)

abbrev pub is_js : Text → Bool
is_js name = has_suffix (lit ".js") name

abbrev pub count_js : JsDependencyAnalyser → JsDependencyAnalyser
count_js a = record a { check_count = a.check_count + 1 }

-- The rest of a loop, if it goes on.
abbrev go_on :
    (JsDependencyAnalyser → JsDependencyAnalyser)
    → JsDependencyAnalyser × Bool
    → JsDependencyAnalyser
go_on rest (a, true) = rest a
go_on rest (a, false) = a

-- What the loop over a directory does with one entry, and whether it goes on.
unfoldable mutual
  unfolding imports_in check_imports

  pub check_js_entry : List Text → Entry → JsDependencyAnalyser → JsDependencyAnalyser × Bool
  check_js_entry dir (Entry.file name content) a =
      if is_js name
      then elim content [
        | none ↦ (count_js a, false)
        | some b ↦ (check_imports dir name (imports_in (split 10 b)) (count_js a), true)
      ]
      else (a, true)
  check_js_entry dir (Entry.directory name listing) a =
      let below = check_js_dep (dir ++ (name ∷ [])) listing a in
      if is_js name then (count_js below, false) else (below, true)

  -- `checkJsDep`.
  pub check_js_dep : List Text → Listing → JsDependencyAnalyser → JsDependencyAnalyser
  check_js_dep dir Listing.unreadable a = a
  check_js_dep dir (Listing.entries es) a = check_js_entries dir es a

  pub check_js_entries : List Text → Entries → JsDependencyAnalyser → JsDependencyAnalyser
  check_js_entries dir Entries.nil a = a
  check_js_entries dir (Entries.cons e es) a =
      go_on (λ b. check_js_entries dir es b) (check_js_entry dir e a)

-- `Check`.
unfoldable pub check_js : Listing → JsDependencyAnalyser
unfolding check_js_dep
check_js base = check_js_dep [] base new_js_dependency_analyser
