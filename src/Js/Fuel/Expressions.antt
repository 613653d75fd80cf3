-- ===== src/Js/Fuel/Expressions.antt =====
-- An expression with short literals is translated within the bound of its interpolations.
use pugtemplate.Common.{
  Text, lit, contains, ℕ, suc, ◌≤◌, ◌<◌, Bool, true, false, [], ◌∷◌, length, Bool-cases, inl, inr,
}
use pugtemplate.Common.Result.{Result, ok, Ends, ◌>>=◌, >>=-Ends}
use pugtemplate.Js.Ast.{Operator, Expression, Expressions, Properties, end, property}
use pugtemplate.Js.Fuel.Literals.{Below, AllBelow, FieldsBelow}
use pugtemplate.Js.Fuel.Loop.{interpolate-Ends}
use pugtemplate.Js.Interpolate.{interpolate}
use pugtemplate.Js.Pieces.{
  Env, render_string, render_dot, member_name, wrap_statement, assign_name, trim_dollar, or_null,
}
use pugtemplate.Js.Render.{render_expression, render_items, render_arguments, render_properties}

module _ (env : Env) (js : Text → Result Text) (bound : ℕ)
    (sub : (t : Text) → length t < bound → Ends (js t)) where
  string-Ends : (v : Text) (wrap : Bool) → length v ≤ suc bound → Ends (render_string js v wrap)
  unfolding render_string
  string-Ends v wrap h = elim (Bool-cases (contains (lit "${") v)) [
    | inl e ↦ rw e (>>=-Ends (interpolate js v) _ (interpolate-Ends js bound sub v h) λ s. tt)
    | inr e ↦ rw e tt
  ]

  name-Ends : (t : Text) → Ends (member_name t)
  unfolding member_name
  name-Ends [] = tt
  name-Ends (c ∷ s) = tt

  dot-Ends : (l i : Text) (wrap : Bool) → Ends (render_dot env l i wrap)
  unfolding render_dot
  dot-Ends l i wrap = >>=-Ends (member_name i) _ (name-Ends i) λ n. tt

  abbrev finished : Operator → Bool → Text → Text → Result Text
  finished op wrap n r = ok (wrap_statement wrap (assign_name op (trim_dollar n) (or_null r)))

  abbrev assigned : Operator → Bool → Expression → Text → Result Text
  assigned op wrap r n = render_expression env js r false true >>= finished op wrap n

  mutual
    unfolding render_expression Below

    pub expression-Ends :
        (e : Expression) (wrap dot : Bool)
        → Below (suc bound) e
        → Ends (render_expression env js e wrap dot)
    expression-Ends Expression.missing wrap dot h = tt
    expression-Ends (Expression.identifier name) wrap dot h = tt
    expression-Ends (Expression.string_literal v) wrap dot h = string-Ends v wrap h
    expression-Ends (Expression.number_literal v) wrap dot h = tt
    expression-Ends (Expression.array_literal es) wrap dot h =
        >>=-Ends (render_items env js es) _ (items-Ends es h) λ x. tt
    expression-Ends (Expression.boolean_literal v) wrap dot h = tt
    expression-Ends (Expression.object_literal ps) wrap dot h =
        >>=-Ends (render_properties env js ps) _ (properties-Ends ps h) λ x. tt
    expression-Ends Expression.null_literal wrap dot h = tt
    expression-Ends (Expression.dot_expression l name) wrap dot h =
        >>=-Ends (render_expression env js l false true) _ (expression-Ends l false true h)
          λ x. dot-Ends x _ wrap
    expression-Ends (Expression.conditional_expression t c a) wrap dot h =
        >>=-Ends (render_expression env js c false true) _ (expression-Ends c false true h.1) λ x.
          >>=-Ends (render_expression env js a false true) _ (expression-Ends a false true h.2) λ y.
            >>=-Ends (render_expression env js t false true) _ (expression-Ends t false true h.0)
              λ z. tt
    expression-Ends (Expression.binary_expression op l r) wrap dot h =
        >>=-Ends (render_expression env js l false true) _ (expression-Ends l false true h.0) λ x.
          >>=-Ends (render_expression env js r false true) _ (expression-Ends r false true h.1)
            λ y. tt
    expression-Ends (Expression.call_expression c as') wrap dot h =
        >>=-Ends (render_expression env js c false false) _ (expression-Ends c false false h.0)
          λ x. >>=-Ends (render_arguments env js as') _ (arguments-Ends as' h.1) λ y. tt
    expression-Ends (Expression.assign_expression op (Expression.bracket_expression l m) r) wrap dot
          h =
        >>=-Ends (render_expression env js l false false) _ (expression-Ends l false false h.0.0)
          λ x.
            >>=-Ends (render_expression env js m false true) _ (expression-Ends m false true h.0.1)
              λ y.
                >>=-Ends (render_expression env js r false false) _
                  (expression-Ends r false false h.1) λ z. tt
    expression-Ends (Expression.assign_expression op l r) wrap dot h =
        >>=-Ends (render_expression env js l false false) (assigned op wrap r)
          (expression-Ends l false false h.0)
          λ x.
            >>=-Ends (render_expression env js r false true) (finished op wrap x)
              (expression-Ends r false true h.1) λ y. tt
    expression-Ends (Expression.variable_expression name i) wrap dot h =
        >>=-Ends (render_expression env js i false true) _ (expression-Ends i false true h) λ x. tt
    expression-Ends (Expression.sequence_expression es) wrap dot h =
        >>=-Ends (render_items env js es) _ (items-Ends es h) λ x. tt
    expression-Ends (Expression.bracket_expression l m) wrap dot h =
        >>=-Ends (render_expression env js l false true) _ (expression-Ends l false true h.0) λ x.
          >>=-Ends (render_expression env js m false true) _ (expression-Ends m false true h.1)
            λ y. tt
    expression-Ends (Expression.unary_expression op e) wrap dot h =
        >>=-Ends (render_expression env js e false true) _ (expression-Ends e false true h) λ x. tt
    expression-Ends (Expression.new_expression c as') wrap dot h =
        >>=-Ends (render_items env js as') _ (items-Ends as' h) λ x. tt
    expression-Ends Expression.other wrap dot h = tt

    items-Ends : (es : Expressions) → AllBelow (suc bound) es → Ends (render_items env js es)
    items-Ends Expressions.nil h = tt
    items-Ends (Expressions.cons e es) h =
        >>=-Ends (render_expression env js e false true) _ (expression-Ends e false true h.0)
          λ x. >>=-Ends (render_items env js es) _ (items-Ends es h.1) λ y. tt

    arguments-Ends :
        (es : Expressions) → AllBelow (suc bound) es → Ends (render_arguments env js es)
    arguments-Ends Expressions.nil h = tt
    arguments-Ends (Expressions.cons e es) h =
        >>=-Ends (render_expression env js e false true) _ (expression-Ends e false true h.0)
          λ x. >>=-Ends (render_arguments env js es) _ (arguments-Ends es h.1) λ y. tt

    properties-Ends :
        (ps : Properties) → FieldsBelow (suc bound) ps → Ends (render_properties env js ps)
    properties-Ends end h = tt
    properties-Ends (property k e ps) h =
        >>=-Ends (render_expression env js e false true) _ (expression-Ends e false true h.0)
          λ x. >>=-Ends (render_properties env js ps) _ (properties-Ends ps h.1) λ y. tt
