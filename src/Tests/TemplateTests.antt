-- ===== src/Tests/TemplateTests.antt =====
-- Runs of small templates (pugjs/tpl_exec.go).
use pugtemplate.Common.{Text, lit, text_eq, itoa, [], ◌∷◌, Option, none, some, ◌≡◌, refl}
use pugtemplate.Template.Escaping.{html_code, html_escape_string}
use pugtemplate.Template.Syntax.{Node, Nodes}
use pugtemplate.Template.Execute.{Data, execute}
use pugtemplate.Tests.TemplateInputs.{
  Item, items, set_to, show_var, calling, in_order, library, written,
}

abbrev no_data : Data Item
no_data = record { value = Item.null; entries = []; global = Item.null }

abbrev output_of : Nodes Item → Option Text
output_of ns = written (execute items (λ n. n) library 10 (some ns) no_data tt)

-- A range sets its variables; they stay after it.
range_output :
    output_of (
      in_order (
        Node.range
          (calling (lit "list") Item.null (lit "$i" ∷ lit "$v" ∷ []))
          (in_order (show_var (lit "$i") ∷ show_var (lit "$v") ∷ []))
          Nodes.end
        ∷ show_var (lit "$v")
        ∷ []))
    ≡ some (lit "0p1qq")
unfolding execute text_eq itoa
range_output = refl

-- A called template does not see the variables of its caller.
unbound_output :
    output_of (
      in_order (
        set_to (lit "$x") (Item.word (lit "a"))
        ∷ Node.template (lit "inner") none
        ∷ show_var (lit "$x")
        ∷ []))
    ≡ some (lit "ERR?a")
unfolding execute text_eq
unbound_output = refl

-- A bound block sees and sets them.
bound_output :
    output_of (
      in_order (
        set_to (lit "$x") (Item.word (lit "a"))
        ∷ Node.action (calling (lit "__freeze") (Item.word (lit "inner")) [])
        ∷ Node.template (lit "inner") none
        ∷ show_var (lit "$x")
        ∷ []))
    ≡ some (lit "ab")
unfolding execute text_eq
bound_output = refl

-- Called a second time from one state, a block is bound no longer.
twice_output :
    output_of (
      in_order (
        set_to (lit "$x") (Item.word (lit "a"))
        ∷ Node.action (calling (lit "__freeze") (Item.word (lit "inner")) [])
        ∷ Node.template (lit "twice") none
        ∷ show_var (lit "$x")
        ∷ []))
    ≡ some (lit "aERR?b")
unfolding execute text_eq
twice_output = refl

-- An error in a try is caught, what was written before stays.
try_output :
    output_of (
      in_order (
        Node.try
          (in_order (Node.text (lit "t") ∷ Node.action (calling (lit "fail") Item.null []) ∷ []))
          (lit "e")
          (in_order (show_var (lit "$e") ∷ []))
        ∷ []))
    ≡ some (lit "tcaught")
unfolding execute text_eq
try_output = refl

escaped_text : html_escape_string (lit "a<b & c") ≡ lit "a&lt;b &amp; c"
unfolding html_escape_string html_code lit
escaped_text = refl
