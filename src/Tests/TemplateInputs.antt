-- ===== src/Tests/TemplateInputs.antt =====
-- Values, functions and templates for the tests of the execution of templates (pugjs/tpl_exec.go).
use pugtemplate.Common.{
  Text, lit, text_eq, itoa, ℕ, Bool, true, false, List, [], ◌∷◌, Option, none, some, get_elem?,
  length, if◌then◌else◌,
}
use pugtemplate.Template.State.{Outcome}
use pugtemplate.Template.Syntax.{Arg, Args, Commands, Pipeline, Node, Nodes}
use pugtemplate.Template.Reflection.{
  Reflection, Function, Parameter, Called, Member, Receiver, Ranged, Printed,
}

pub data Item : Type 0 where
  invalid : Item
  null : Item
  word : Text → Item
  number : ℕ → Item
  flag : Bool → Item
  words : List Text → Item

abbrev any_item : Parameter Item (Unit {0}) Item
any_item = record { accept = λ w v. some v; constant = λ c. some c; nil_value = some Item.null }

abbrev one_item : (List Item → Item) → Function Item (Unit {0}) Item
one_item f = record {
  fixed = 1;
  variadic = false;
  good_results = true;
  parameters = λ i. any_item;
  run = λ w vs. Called.returned w (f vs);
}

abbrev first_item : List Item → Item
first_item [] = Item.null
first_item (v ∷ vs) = v

-- `list` gives two words, whatever its argument; `fail` fails.
abbrev function_table : Text → Option (Function Item (Unit {0}) Item)
function_table n =
    if text_eq n (lit "__freeze")
    then some (one_item λ vs. Item.null)
    else if text_eq n (lit "same")
    then some (one_item first_item)
    else if text_eq n (lit "list")
    then some (one_item λ vs. Item.words (lit "p" ∷ lit "q" ∷ []))
    else if text_eq n (lit "fail")
    then some (record (one_item first_item) { run = λ w vs. Called.failed w Item.null })
    else none

abbrev word_at : List Text → ℕ → Item
word_at ts i = elim (get_elem? ts i) [ none ↦ Item.null | some t ↦ Item.word t ]

abbrev pub item_ranged : Item → Ranged Item (Unit {0})
item_ranged (Item.words ts) = Ranged.slice (length ts) (λ i w. word_at ts i)
item_ranged (Item.flag b) = Ranged.bool (Item.flag b)
item_ranged Item.invalid = Ranged.invalid
item_ranged Item.null = Ranged.invalid
item_ranged _ = Ranged.other

abbrev item_true : Item → Bool
item_true Item.invalid = false
item_true Item.null = false
item_true (Item.flag b) = b
item_true _ = true

abbrev item_text : Item → Text
item_text (Item.word t) = t
item_text (Item.number n) = itoa n
item_text _ = []

abbrev item_printed : Item → Printed
item_printed Item.invalid = Printed.missing
item_printed v = Printed.text (item_text v)

abbrev item_valid : Item → Bool
item_valid Item.invalid = false
item_valid _ = true

abbrev item_bool : Item → Option Bool
item_bool (Item.flag b) = some b
item_bool _ = none

abbrev pub items : Reflection Item (Unit {0}) Item
items = record {
  zero = Item.invalid;
  is_valid = item_valid;
  nil = Item.null;
  int = Item.number;
  string = Item.word;
  is_true = λ w v. some (item_true v);
  convert = λ w v. v;
  receiver = λ w v. Receiver.object λ n u. (Member.value Item.null, u);
  ranged = λ v w. (item_ranged v, w);
  bool_of = item_bool;
  exception = λ p. Item.word (lit "caught");
  ideal = λ c. some c;
  text_of = λ w v. item_text v;
  print = λ w v. item_printed v;
  print_missing = λ p w v. lit "?";
  functions = function_table;
  title = λ n. n;
  spare = λ n. n;
}

-- `$x := c`, the value of `$x`, a call of a function with a constant, and lists of nodes.
abbrev pub set_to : Text → Item → Node Item
set_to x c =
    Node.action
      (Pipeline.pipeline (Commands.command (Arg.constant c) Args.end Commands.done) (x ∷ []))

abbrev pub show_var : Text → Node Item
show_var x =
    Node.action (Pipeline.pipeline (Commands.command (Arg.variable x []) Args.end Commands.done) [])

abbrev pub calling : Text → Item → List Text → Pipeline Item
calling f c xs =
    Pipeline.pipeline
      (Commands.command (Arg.identifier f) (Args.arg (Arg.constant c) Args.end) Commands.done) xs

abbrev pub in_order : List (Node Item) → Nodes Item
in_order [] = Nodes.end
in_order (n ∷ ns) = Nodes.node n (in_order ns)

-- `inner` prints a variable and sets it; `twice` calls it two times.
abbrev pub inner_nodes : Nodes Item
inner_nodes = in_order (show_var (lit "$x") ∷ set_to (lit "$x") (Item.word (lit "b")) ∷ [])

abbrev pub twice_nodes : Nodes Item
twice_nodes = in_order (Node.template (lit "inner") none ∷ Node.template (lit "inner") none ∷ [])

abbrev pub library : Text → Option (Nodes Item)
library n =
    if text_eq n (lit "inner")
    then some inner_nodes
    else if text_eq n (lit "twice")
    then some twice_nodes
    else none

abbrev pub written : {A : Type 0} → Outcome Item (Unit {0}) A → Option Text
written (Outcome.returned st a) = some st.output
written (Outcome.panicked st p) = none
written Outcome.out_of_fuel = none
