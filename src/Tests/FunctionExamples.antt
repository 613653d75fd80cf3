-- ===== src/Tests/FunctionExamples.antt =====
-- The theorems on strings, template functions, import checks and the startup at concrete inputs.
use pugtemplate.Common.{
  ℤ, Text, lit, has_suffix, ap, ℕ, true, false, length, join, List, [], ◌∷◌, none, some, any,
  text_eq, negsuc, ◌==◌, if◌then◌else◌, ◌≡◌, ◌⊎◌, refl,
}
use pugtemplate.Common.Result.{ok}
use pugtemplate.Analyse.Defs.{Entry, Listing, Entries}
use pugtemplate.Analyse.Imports.{check_js}
use pugtemplate.Analyse.Escaping.{
  IsReadableJsListing, IsReadableJs, js_files_below, warnings_of, check_js-after,
}
use pugtemplate.Engine.Startup.{
  Event, Errgroup, Stage, Startup, inject_startup, running, happens, at_stage, is_finished, Steps,
  here, step, finish, wait_failed, receive, close_done, process_ends, add_process,
}
use pugtemplate.Engine.Ready.{Waits, run, first_error, is_finished-received, startup-CanFinish}
use pugtemplate.Functions.Lists.{IsSorted, object_keys-IsSorted}
use pugtemplate.Functions.Small.{object_keys}
use pugtemplate.Functions.Urls.Defs.{Query, query_values, Argument, Arguments, change_query, Router}
use pugtemplate.Functions.Urls.Query.{changed, change_query-changed}
use pugtemplate.Objects.Keys.{VisitsAll, IsOrdered}
use pugtemplate.Objects.Map.{Map, Runtime, convert, has_member}
use pugtemplate.Objects.Strings.{slice, beyond, split_text, replace}
use pugtemplate.Objects.Cutting.{CutsOut, CountsAs, EndsAs, slice-CutsOut}
use pugtemplate.Objects.Splitting.{replace-split_text}

abbrev word : Text
word = lit "banana"

slice-CutsOut_example :
    ((beyond word (negsuc 2) ≡ true) × (slice word (negsuc 2) (some (negsuc 0)) ≡ ok []))
    ⊎ ((beyond word (negsuc 2) ≡ false)
        × ((x y : ℤ) × CountsAs word (negsuc 2) x
            × EndsAs word (some (negsuc 0)) y
            × CutsOut word x y (slice word (negsuc 2) (some (negsuc 0)))))
slice-CutsOut_example = slice-CutsOut word (negsuc 2) (some (negsuc 0))

replace-split_text_example :
    (replace word (lit "an") (lit "o") ≡ join (lit "o") (split_text word (lit "an")))
    × (join (lit "an") (split_text word (lit "an")) ≡ word)
unfolding lit
replace-split_text_example = replace-split_text word (lit "an") (lit "o") (λ e. cc)

-- A file in the base directory, and one below it, with the same import.
abbrev importing : Text
importing = lit "import a from ../../a"

abbrev scripts : Listing
scripts = Listing.entries (
    Entries.cons (Entry.file (lit "x.js") (some importing)) (
      Entries.cons
        (Entry.directory (lit "d")
          (Listing.entries (Entries.cons (Entry.file (lit "y.js") (some importing)) Entries.nil)))
        Entries.nil))

scripts-IsReadable : IsReadableJsListing scripts
unfolding IsReadableJs lit has_suffix text_eq
scripts-IsReadable = (tt, ((refl, (tt, tt)), tt))

check_js-after_example : check_js scripts ≡ record {
  check_count = length (js_files_below [] scripts);
  warnings = warnings_of (js_files_below [] scripts);
}
check_js-after_example = check_js-after scripts scripts-IsReadable

abbrev page : Text
page = lit "page"

abbrev arguments : Arguments
arguments = (page, Argument.one (lit "2")) ∷ (lit "sort", Argument.many (lit "a" ∷ [])) ∷ []

abbrev request : Query
request = (page, lit "1" ∷ []) ∷ (lit "q", word ∷ []) ∷ []

change_query-changed_example :
    query_values page (change_query arguments request)
    ≡ changed page arguments (query_values page request)
change_query-changed_example = change_query-changed page arguments request

-- Every route has its own name as its address.
abbrev router : Router
router = record {
  Url = Text;
  relative = λ w p. some w;
  url = λ w p. some w;
  query = λ u. [];
  show = λ u q. u;
  page = λ q. [];
  iterate = λ q. q;
}

abbrev visiting : Runtime
visiting = record { upper_first = λ s. s; title = λ s. s; iterate = λ ks. ks }

visiting-VisitsAll : VisitsAll visiting
visiting-VisitsAll = record { visits = λ ks k. refl }

-- A map without an order.
abbrev sizes : Map ℕ
sizes = record { items = some ((page, 2) ∷ (lit "a", 1) ∷ []); o = none; order = [] }

sizes-IsOrdered : IsOrdered sizes
unfolding convert
sizes-IsOrdered h = absurd (cc)

object_keys-IsSorted_example :
    IsSorted (object_keys visiting sizes).1
    × ((k : Text) → any (text_eq k) (object_keys visiting sizes).1 ≡ has_member k sizes)
object_keys-IsSorted_example =
    object_keys-IsSorted visiting sizes visiting-VisitsAll sizes-IsOrdered

-- A group that keeps all that happened to it; errors are numbers.
abbrev group : Errgroup ℕ
group = record {
  Group = List (Event ℕ);
  new = [];
  on = λ e es. e ∷ es;
  wait = λ es. if running es == 0 then some (first_error es) else none;
}

run_group : (es : List (Event ℕ)) → run group es ≡ es
run_group [] = refl
run_group (e ∷ es) = ap (λ (s : List (Event ℕ)). e ∷ s) (run_group es)

group-Waits : Waits group
group-Waits es = ap group.wait (run_group es)

-- One process is added and fails, and its error is received.
failed : (s : Startup group) × Steps group (inject_startup group) s × (is_finished group s ≡ true)
failed =
    let s₁ = happens group Event.started (inject_startup group) in
    let s₂ = at_stage group Stage.waiting s₁ in
    let s₃ = happens group (Event.ended (some 7)) s₂ in
    let s₄ = at_stage group (Stage.sending 7) s₃ in
    let s₅ = record s₄ { stage = Stage.closing; received = some 7 } in
    (
      at_stage group Stage.closing_errors s₅,
      step
          (step
            (step
              (step (step (step here (add_process _ refl)) (finish s₁ refl))
                (process_ends s₂ (some 7) 0 refl))
              (wait_failed s₃ 7 refl refl))
            (receive s₄ 7 refl))
          (close_done s₅ refl),
      refl,
    )

is_finished-received_example :
    (running failed.0.events ≡ 0) × (first_error failed.0.events ≡ failed.0.received)
is_finished-received_example = is_finished-received group group-Waits failed.0 failed.1 failed.2

startup-CanFinish_example :
    (t : Startup group) × Steps group (inject_startup group) t × (is_finished group t ≡ true)
startup-CanFinish_example = startup-CanFinish group group-Waits (inject_startup group) here
