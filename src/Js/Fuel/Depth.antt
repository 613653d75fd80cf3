-- ===== src/Js/Fuel/Depth.antt =====
-- The depth of interpolations: under what a parser guarantees of string literals, the translation
-- of every source text ends within one more level than the text has bytes.
use pugtemplate.Common.{
  Text, lit, ℕ, zero, suc, ◌≤◌, ◌<◌, Bool, true, false, ◌++◌, length, Option, some, none, ◌≡◌, refl,
  arith,
}
use pugtemplate.Common.Result.{Result, Ends, or_panic, ◌>>=◌, >>=-Ends}
use pugtemplate.Js.Ast.{Expressions, Statement, Statements}
use pugtemplate.Js.Fuel.Literals.{AllBelow, StatementBelow, StatementsBelow, Below}
use pugtemplate.Js.Fuel.Expressions.{expression-Ends}
use pugtemplate.Js.Pieces.{Env, Parser}
use pugtemplate.Js.Render.{
  render_expression, render_list, render_statement, render_statements, join_statements,
  several_statements, js_expr,
}

module _ (env : Env) (js : Text → Result Text) (bound : ℕ)
    (sub : (t : Text) → length t < bound → Ends (js t)) where
  list-Ends :
      (es : Expressions) (wrap dot : Bool)
      → AllBelow (suc bound) es
      → Ends (render_list env js es wrap dot)
  unfolding render_list Below
  list-Ends Expressions.nil wrap dot h = tt
  list-Ends (Expressions.cons e es) wrap dot h =
      >>=-Ends (render_expression env js e wrap dot) _
        (expression-Ends env js bound sub e wrap dot h.0)
        λ x. >>=-Ends (render_list env js es wrap dot) _ (list-Ends es wrap dot h.1) λ y. tt

  mutual
    unfolding render_statement StatementBelow

    statement-Ends :
        (s : Statement) (wrap dot : Bool)
        → StatementBelow (suc bound) s
        → Ends (render_statement env js s wrap dot)
    statement-Ends Statement.missing wrap dot h = tt
    statement-Ends (Statement.expression_statement e) wrap dot h =
        expression-Ends env js bound sub e wrap dot h
    statement-Ends (Statement.variable_statement es) wrap dot h = list-Ends es wrap dot h
    statement-Ends (Statement.return_statement e) wrap dot h =
        expression-Ends env js bound sub e wrap dot h
    statement-Ends (Statement.if_statement t c a) wrap dot h =
        >>=-Ends (render_expression env js t false true) _
          (expression-Ends env js bound sub t false true h.0)
          λ x.
            >>=-Ends (render_statement env js c true true) _ (statement-Ends c true true h.1) λ y.
              >>=-Ends (render_statement env js a true true) _ (statement-Ends a true true h.2)
                λ z. tt
    statement-Ends (Statement.throw_statement e) wrap dot h =
        expression-Ends env js bound sub e wrap true h
    statement-Ends (Statement.block_statement ss) wrap dot h = statements-Ends ss wrap h
    statement-Ends (Statement.for_in_statement i s b) wrap dot h =
        >>=-Ends (render_expression env js i false true) _
          (expression-Ends env js bound sub i false true h.0)
          λ x.
            >>=-Ends (render_expression env js s false true) _
              (expression-Ends env js bound sub s false true h.1)
              λ y.
                >>=-Ends (render_statement env js b true true) _ (statement-Ends b true true h.2)
                  λ z. tt
    statement-Ends (Statement.try_statement b p c) wrap dot h =
        >>=-Ends (render_statement env js b wrap true) _ (statement-Ends b wrap true h.0) λ x.
          >>=-Ends (render_statement env js c wrap true) _ (statement-Ends c wrap true h.1) λ y. tt
    statement-Ends (Statement.try_finally b) wrap dot h =
        >>=-Ends (render_statement env js b wrap true) _ (statement-Ends b wrap true h) λ x. tt
    statement-Ends Statement.other wrap dot h = tt

    statements-Ends :
        (ss : Statements) (wrap : Bool)
        → StatementsBelow (suc bound) ss
        → Ends (render_statements env js ss wrap)
    statements-Ends Statements.nil wrap h = tt
    statements-Ends (Statements.cons s ss) wrap h =
        >>=-Ends (render_statement env js s wrap true) _ (statement-Ends s wrap true h.0)
          λ x. >>=-Ends (render_statements env js ss wrap) _ (statements-Ends ss wrap h.1) λ y. tt

  join-Ends :
      (ss : Statements) (wrap several : Bool)
      → StatementsBelow (suc bound) ss
      → Ends (join_statements env js wrap several ss)
  unfolding join_statements StatementBelow
  join-Ends Statements.nil wrap several h = tt
  join-Ends (Statements.cons s ss) wrap several h =
      >>=-Ends (render_statement env js s wrap true) _ (statement-Ends s wrap true h.0) λ x.
        >>=-Ends (join_statements env js wrap several ss) _ (join-Ends ss wrap several h.1) λ y. tt

-- What the translation relies on: the value of a string literal is shorter than the source text
-- in which it stands, since its quotes are not part of it.
pub record HasShortLiterals (parser : Parser) : Type 0 where
  pub in_file :
      (s : Text) (n : ℕ) (ss : Statements)
      → length s ≤ suc n
      → parser.parse_file s ≡ some ss
      → StatementsBelow n ss
  pub in_function :
      (s : Text) (n : ℕ) (ss : Statements)
      → length s ≤ suc n
      → parser.parse_function (lit "return " ++ s) ≡ some ss
      → StatementsBelow n ss

parsed-Ends :
    (env : Env) (parser : Parser) (depth : ℕ) (wrap : Bool) (o : Option Statements)
    → ((t : Text) → length t < depth → Ends (js_expr env parser depth t false false))
    → ((ss : Statements) → o ≡ some ss → StatementsBelow (suc depth) ss)
    → Ends (
        or_panic o >>= λ stmts.
        join_statements env
          (λ inner. js_expr env parser depth inner false false)
          wrap
          (several_statements stmts)
          stmts)
parsed-Ends env parser depth wrap none sub below = tt
parsed-Ends env parser depth wrap (some ss) sub below =
    join-Ends env _ depth sub ss wrap (several_statements ss) (below ss refl)

-- Under a parser whose string literals are shorter than the source that they stand in, the
-- translation of a source text ends at every depth greater than the length of the text, with a
-- result or a panic: the fuel of the model is never what stops it.
pub js_expr-Ends :
    (env : Env) (parser : Parser)
    → HasShortLiterals parser
    → (depth : ℕ) (expr : Text) (wrap rawcode : Bool) → length expr < depth
    → Ends (js_expr env parser depth expr wrap rawcode)
unfolding js_expr
js_expr-Ends env parser short zero expr wrap rawcode h = absurd (omega arith)
js_expr-Ends env parser short (suc depth) expr wrap true h =
    parsed-Ends env parser depth wrap (parser.parse_file expr)
      (λ t lt. js_expr-Ends env parser short depth t false false lt)
      λ ss e. short.in_file expr (suc depth) ss (omega arith) e
js_expr-Ends env parser short (suc depth) expr wrap false h =
    parsed-Ends env parser depth wrap (parser.parse_function (lit "return " ++ expr))
      (λ t lt. js_expr-Ends env parser short depth t false false lt)
      λ ss e. short.in_function expr (suc depth) ss (omega arith) e
