-- ===== src/Tests/TemplateExamples.antt =====
-- The theorems on the execution of templates at concrete inputs.
use pugtemplate.Common.{
  Text, lit, text_eq, ℕ, [], ◌∷◌, none, some, Bool, true, false, All, subst, length, ◌<◌,
  if◌then◌else◌, ◌≡◌, refl, arith,
}
use pugtemplate.Template.Syntax.{Node, Nodes}
use pugtemplate.Template.Names.{NodesOk}
use pugtemplate.Template.State.{Store}
use pugtemplate.Template.Binding.{enter-freeze}
use pugtemplate.Template.Escaping.{html_escape_string, byte_by_byte, html_escape_string_lem}
use pugtemplate.Js.Escape.{IsInert}
use pugtemplate.Template.Variables.{
  set_var_value, var_value, freeze, enter, vars_of, state_at, blocks_of, find_block, find_index,
}
use pugtemplate.Template.Walk.{run_template}
use pugtemplate.Template.Execute.{Data, execute, start_store, first_store}
use pugtemplate.Template.Control.{max_exec_depth}
use pugtemplate.Template.Frame.{After}
use pugtemplate.Template.Output.{Continues, run_template-Continues}
use pugtemplate.Template.Depth.{BindsNone}
use pugtemplate.Template.Ends.{Ended, RootBindsNone, execute-Ended}
use pugtemplate.Template.Valid.{IsValid, set_var_value-IsValid, freeze-IsValid}
use pugtemplate.Template.Consistent.{first-IsValid}
use pugtemplate.Template.Visible.{var_value-set_var_value, template_isolated, block-writes_through}
use pugtemplate.Tests.TemplateInputs.{
  Item, items, show_var, calling, in_order, library, inner_nodes, twice_nodes,
}

abbrev data_x : Data Item
data_x = record {
  value = Item.null;
  entries = (lit "x", Item.word (lit "a")) ∷ [];
  global = Item.null;
}

-- A range whose body calls a template that calls another one.
abbrev nested_nodes : Nodes Item
nested_nodes = in_order (
    Node.range (calling (lit "list") Item.null (lit "$v" ∷ []))
      (in_order (show_var (lit "$v") ∷ Node.template (lit "twice") none ∷ [])) Nodes.end
    ∷ [])

abbrev binding_nodes : Nodes Item
binding_nodes = in_order (
    Node.action (calling (lit "__freeze") (Item.word (lit "inner")) [])
    ∷ Node.template (lit "twice") none
    ∷ show_var (lit "$x")
    ∷ [])

list-BindsNone : BindsNone (lit "list")
unfolding lit
list-BindsNone e = ground (arith, e)

nested-BindsNone : NodesOk BindsNone nested_nodes
unfolding NodesOk
nested-BindsNone = (((list-BindsNone, (tt, tt), tt), ((tt, tt, tt), (tt, tt)), tt), tt)

library-BindsNone : (n : Text) (ns : Nodes Item) → library n ≡ some ns → NodesOk BindsNone ns
unfolding NodesOk
library-BindsNone n ns e = subst RootBindsNone e (root (text_eq n (lit "inner")) _)
  where
    root :
        (b c : Bool)
        → RootBindsNone (if b then some inner_nodes else if c then some twice_nodes else none)
    root true c = ((tt, tt, tt), ((tt, tt, tt), tt))
    root false true = (tt, (tt, tt))
    root false false = tt

execute-Ended_example :
    Ended (execute items (λ n. n) library (ℕ.suc max_exec_depth) (some nested_nodes) data_x tt)
execute-Ended_example =
    execute-Ended items (λ n. n) library (some nested_nodes) data_x tt nested-BindsNone
      library-BindsNone

abbrev started : Store Item (Unit {0})
started = start_store items (λ n. n) data_x tt

run_template-Continues_example :
    After Unit Continues started (run_template items library 5 0 Item.null binding_nodes started)
run_template-Continues_example =
    run_template-Continues items library 5 0 Item.null binding_nodes started

-- The first state with one variable beside the dot, and with a block bound to it.
abbrev one_var : Store Item (Unit {0})
one_var =
    set_var_value (λ n. n) 0 (lit "$x") (Item.word (lit "a")) (first_store items Item.null [] tt)

abbrev one_block : Store Item (Unit {0})
one_block = freeze (λ n. n) 0 (lit "inner") one_var

one_var-IsValid : IsValid one_var
unfolding first_store
one_var-IsValid =
    set_var_value-IsValid (λ n. n) 0 (lit "$x") (Item.word (lit "a")) _ (omega arith)
      (first-IsValid items Item.null [] tt)

one_var-has_state : 0 < length one_var.states
unfolding set_var_value first_store text_eq
one_var-has_state = omega arith

var_value-set_var_value_example :
    (var_value Item.invalid 0 (lit "$x") (set_var_value (λ n. n) 0 (lit "$x") Item.null one_var)
      ≡ Item.null)
    × (var_value Item.invalid 0 (lit "$") (set_var_value (λ n. n) 0 (lit "$x") Item.null one_var)
        ≡ var_value Item.invalid 0 (lit "$") one_var)
unfolding set_var_value first_store lit text_eq
var_value-set_var_value_example =
    var_value-set_var_value (λ n. n) 0 one_var one_var-IsValid one_var-has_state (lit "$x")
      (lit "$") Item.null Item.invalid refl

template_isolated_example :
    (vars_of 1 (enter 0 (lit "inner") one_var) ≡ (state_at 0 one_var).globals)
    × (vars_of 0 (set_var_value (λ n. n) 1 (lit "$x") Item.null (enter 0 (lit "inner") one_var))
        ≡ vars_of 0 one_var)
unfolding set_var_value first_store lit text_eq find_block
template_isolated_example =
    template_isolated (λ n. n) 0 one_var one_var-IsValid one_var-has_state (lit "inner") (lit "$x")
      Item.null 0 refl one_var-has_state

block-writes_through_example :
    (vars_of 1 (enter 0 (lit "inner") one_block) ≡ vars_of 0 one_block)
    × (var_value Item.invalid 0
          (lit "$x")
          (set_var_value (λ n. n) 1 (lit "$x") Item.null (enter 0 (lit "inner") one_block))
        ≡ Item.null)
unfolding set_var_value first_store lit text_eq find_block freeze find_index
block-writes_through_example =
    block-writes_through (λ n. n) 0 one_block
      (freeze-IsValid (λ n. n) 0 (lit "inner") one_var one_var-has_state one_var-IsValid)
      (omega arith) (lit "inner") (lit "$x") 0 0 1 Item.null Item.invalid refl refl

enter-freeze_example :
    (vars_of 1 (enter 0 (lit "inner") (freeze (λ n. n) 0 (lit "inner") one_var))
      ≡ vars_of 0 one_var)
    × (blocks_of 0 (enter 0 (lit "inner") (freeze (λ n. n) 0 (lit "inner") one_var))
        ≡ blocks_of 0 one_var)
unfolding set_var_value first_store text_eq
enter-freeze_example =
    enter-freeze (λ n. n) 0 (lit "inner") one_var one_var-IsValid one_var-has_state

html_escape_string_lem_example :
    (html_escape_string (lit "a<b") ≡ byte_by_byte (lit "a<b"))
    × All IsInert (html_escape_string (lit "a<b"))
html_escape_string_lem_example = html_escape_string_lem (lit "a<b")
