-- ===== src/Tests/Inputs.antt =====
-- The inputs that the tests and examples share.
use pugtemplate.Common.{
  Text, String, lit, text_eq, has_prefix, contains, join, split_byte, replace_all, trim_left,
  trim_space, itoa, false, [], ◌∷◌, Option, some, none, if◌then◌else◌,
}
use pugtemplate.Js.Ast.{Operator, Expression, Expressions, Statement, Statements}
use pugtemplate.Js.Escape.{quote, html_escape}
use pugtemplate.Js.Interpolate.{splice, interpolate}
use pugtemplate.Js.Pieces.{
  Env, Parser, wrap_html, wrap_plain, wrap_statement, render_identifier, render_string, render_dot,
  member_name, str_call, render_conditional, render_binary, render_call, assign_member, assign_name,
  render_variable, render_bracket, render_unary, ops, line_end,
}
use pugtemplate.Js.Render.{js_expr, render_expression, render_statement, render_list}

abbrev pub name : String → Expression
name s = Expression.identifier (lit s)

abbrev pub number : String → Expression
number s = Expression.number_literal (lit s)

abbrev pub single : Expression → Statements
single e = Statements.cons (Statement.return_statement e) Statements.nil

-- A parser of a few sources.
abbrev pub parse_function : Text → Option Statements
parse_function s =
    if text_eq s (lit "return a")
    then some (single (name "a"))
    else if text_eq s (lit "return b")
    then some (single (name "b"))
    else if text_eq s (lit "return 1")
    then some (single (number "1"))
    else if text_eq s (lit "return [b]")
    then some (single (Expression.array_literal (Expressions.cons (name "b") Expressions.nil)))
    else if text_eq s (lit "return []")
    then some (single (Expression.array_literal Expressions.nil))
    else if text_eq s (lit "return 1+2")
    then some (single (Expression.binary_expression Operator.plus (number "1") (number "2")))
    else if text_eq s (lit "return \"x${a}\"")
    then some (single (Expression.string_literal (lit "x${a}")))
    else none

abbrev pub parse_file : Text → Option Statements
parse_file s =
    if text_eq s (lit "var foo = 1")
    then some (
        Statements.cons
          (Statement.variable_statement (
            Expressions.cons (Expression.variable_expression (lit "foo") (number "1"))
              Expressions.nil))
          Statements.nil)
    else none

abbrev pub parser : Parser
parser = record { parse_file = parse_file; parse_function = parse_function }

abbrev pub env : Env
env = record { funcs = lit "foo" ∷ []; rawmode = false; debug = false }

-- All that a run of the translation computes with: to be named on the line of a test.
unfoldable pub text_code : Unit {0}
unfolding lit text_eq has_prefix contains join split_byte replace_all trim_left trim_space itoa
text_code = tt

unfoldable pub js_code : Unit {0}
unfolding text_code quote html_escape splice interpolate wrap_html wrap_plain wrap_statement
    render_identifier render_string render_dot member_name str_call render_conditional render_binary
    render_call assign_member assign_name render_variable render_bracket render_unary ops line_end
    js_expr render_expression render_statement render_list
js_code = tt
