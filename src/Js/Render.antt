-- ===== src/Js/Render.antt =====
-- `renderExpression`, `renderStatement` and `JsExpr` of pugjs/transform_js_.go.
use pugtemplate.Common.{Text, lit, ℕ, zero, suc, Bool, true, false, ◌&&◌, [], ◌++◌, if◌then◌else◌}
use pugtemplate.Common.Result.{Result, ok, panicked, out_of_fuel, or_panic, ◌>>=◌, ◌>>◌}
use pugtemplate.Js.Ast.{Expression, Expressions, Properties, Statement, Statements, end, property}
use pugtemplate.Js.Pieces.{
  Env, Parser, wrap_plain, wrap_statement, or_null, render_identifier, render_string, render_dot,
  render_conditional, render_binary, render_call, assign_member, assign_name, trim_dollar,
  render_variable, render_bracket, render_unary, line_end, array_text, map_text, if_text, for_text,
  try_text,
}

module _ (env : Env) (js : Text → Result Text) where
  -- An identifier in the member position of a dot expression is rendered with `wrap` off.
  unfoldable mutual
    pub render_expression : Expression → Bool → Bool → Result Text
    render_expression Expression.missing wrap dot = ok []
    render_expression (Expression.identifier name) wrap dot =
        ok (render_identifier env name wrap dot)
    render_expression (Expression.string_literal value) wrap dot = render_string js value wrap
    render_expression (Expression.number_literal value) wrap dot = ok value
    render_expression (Expression.array_literal es) wrap dot = do
      items ← render_items es
      ok (wrap_plain wrap (array_text items))
    render_expression (Expression.boolean_literal literal) wrap dot = ok literal
    render_expression (Expression.object_literal ps) wrap dot = do
      items ← render_properties ps
      ok (wrap_plain wrap (map_text items))
    render_expression Expression.null_literal wrap dot = ok (if wrap then lit "{{null}}" else [])
    render_expression (Expression.dot_expression left name) wrap dot = do
      l ← render_expression left false true
      render_dot env l (render_identifier env name false true) wrap
    render_expression (Expression.conditional_expression test consequent alternate) wrap dot = do
      c ← render_expression consequent false true
      a ← render_expression alternate false true
      t ← render_expression test false true
      ok (render_conditional env t c a wrap)
    render_expression (Expression.binary_expression op left right) wrap dot = do
      l ← render_expression left false true
      r ← render_expression right false true
      ok (render_binary env op l r wrap)
    render_expression (Expression.call_expression callee args) wrap dot = do
      c ← render_expression callee false false
      a ← render_arguments args
      ok (render_call env c a wrap)
    render_expression
          (Expression.assign_expression op (Expression.bracket_expression left member) right) wrap
          dot =
        do
          l ← render_expression left false false
          m ← render_expression member false true
          r ← render_expression right false false
          ok (wrap_statement wrap (assign_member l m r))
    render_expression (Expression.assign_expression op left right) wrap dot = do
      n ← render_expression left false false
      r ← render_expression right false true
      ok (wrap_statement wrap (assign_name op (trim_dollar n) (or_null r)))
    render_expression (Expression.variable_expression name initializer) wrap dot = do
      init ← render_expression initializer false true
      ok (render_variable name init wrap)
    render_expression (Expression.sequence_expression es) wrap dot = do
      items ← render_items es
      ok (array_text items)
    render_expression (Expression.bracket_expression left member) wrap dot = do
      l ← render_expression left false true
      m ← render_expression member false true
      ok (render_bracket env l m wrap)
    render_expression (Expression.unary_expression op operand) wrap dot = do
      o ← render_expression operand false true
      ok (render_unary op o wrap)
    render_expression (Expression.new_expression callee args) wrap dot = do
      items ← render_items args
      ok (wrap_plain wrap (array_text items))
    render_expression Expression.other wrap dot = panicked

    -- The elements of an array, with null for a hole.
    pub render_items : Expressions → Result Text
    render_items Expressions.nil = ok []
    render_items (Expressions.cons e es) = do
      x ← render_expression e false true
      xs ← render_items es
      ok (lit " " ++ (or_null x ++ xs))

    -- The arguments of a call.
    pub render_arguments : Expressions → Result Text
    render_arguments Expressions.nil = ok []
    render_arguments (Expressions.cons e es) = do
      x ← render_expression e false true
      xs ← render_arguments es
      ok (lit " " ++ (x ++ xs))

    pub render_properties : Properties → Result Text
    render_properties end = ok []
    render_properties (property key e ps) = do
      x ← render_expression e false true
      xs ← render_properties ps
      ok (lit " \"" ++ (key ++ (lit "\" " ++ (x ++ xs))))

  -- The declarations of a `var` statement.
  unfoldable pub render_list : Expressions → Bool → Bool → Result Text
  render_list Expressions.nil wrap dot = ok []
  render_list (Expressions.cons e es) wrap dot = do
    x ← render_expression e wrap dot
    xs ← render_list es wrap dot
    ok (x ++ xs)

  -- The statements of a block, one after the other.
  unfoldable mutual
    pub render_statement : Statement → Bool → Bool → Result Text
    render_statement Statement.missing wrap dot = ok []
    render_statement (Statement.expression_statement e) wrap dot = render_expression e wrap dot
    render_statement (Statement.variable_statement es) wrap dot = render_list es wrap dot
    render_statement (Statement.return_statement e) wrap dot = render_expression e wrap dot
    render_statement (Statement.if_statement test consequent alternate) wrap dot = do
      t ← render_expression test false true
      c ← render_statement consequent true true
      a ← render_statement alternate true true
      ok (if_text t c a)
    render_statement (Statement.throw_statement e) wrap dot = render_expression e wrap true
    render_statement (Statement.block_statement ss) wrap dot = render_statements ss wrap
    render_statement (Statement.for_in_statement into source body) wrap dot = do
      i ← render_expression into false true
      s ← render_expression source false true
      b ← render_statement body true true
      ok (for_text i s b)
    render_statement (Statement.try_statement body parameter catch) wrap dot = do
      b ← render_statement body wrap true
      c ← render_statement catch wrap true
      ok (try_text b parameter c)
    render_statement (Statement.try_finally body) wrap dot = do
      render_statement body wrap true
      panicked
    render_statement Statement.other wrap dot = panicked

    pub render_statements : Statements → Bool → Result Text
    render_statements Statements.nil wrap = ok []
    render_statements (Statements.cons s ss) wrap = do
      x ← render_statement s wrap true
      xs ← render_statements ss wrap
      ok (x ++ xs)

-- The statements of a source text: in debug mode each ends in a line of its own.
unfoldable pub join_statements : Env → (Text → Result Text) → Bool → Bool → Statements → Result Text
unfolding render_statement
join_statements env js wrap several Statements.nil = ok []
join_statements env js wrap several (Statements.cons s ss) = do
  x ← render_statement env js s wrap true
  xs ← join_statements env js wrap several ss
  ok (x ++ ((if env.debug && wrap && several then line_end else []) ++ xs))

abbrev pub several_statements : Statements → Bool
several_statements (Statements.cons s (Statements.cons t ss)) = true
several_statements _ = false

-- `JsExpr`; the number bounds how deep interpolations nest.
unfoldable pub js_expr : Env → Parser → ℕ → Text → Bool → Bool → Result Text
unfolding join_statements
js_expr env parser zero expr wrap rawcode = out_of_fuel
js_expr env parser (suc depth) expr wrap rawcode = do
  stmts ←
      or_panic
        (if rawcode then parser.parse_file expr else parser.parse_function (lit "return " ++ expr))
  join_statements env (λ inner. js_expr env parser depth inner false false) wrap
      (several_statements stmts) stmts
