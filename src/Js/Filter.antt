-- ===== src/Js/Filter.antt =====
-- Which translations of an expression pass their value through the filter that escapes for HTML.
use pugtemplate.Common.{Text, lit, Bool, true, false, ◌++◌, ◌≡◌, refl, ap}
use pugtemplate.Common.Result.{Result, ok, panicked, out_of_fuel, ◌>>=◌}
use pugtemplate.Js.Ast.{Expression}
use pugtemplate.Js.Pieces.{
  Env, wrap_html, render_identifier, render_dot, member_name, render_conditional, render_binary,
  render_call, render_bracket,
}
use pugtemplate.Js.Render.{render_expression, render_arguments}

-- The classes of expressions that are written through the filter. The others, of which interpolated
-- strings and unary operations are known only when the template runs too, are written without it.
abbrev pub is_piped : Expression → Bool
is_piped (Expression.identifier name) = true
is_piped (Expression.dot_expression l name) = true
is_piped (Expression.conditional_expression t c a) = true
is_piped (Expression.binary_expression op l r) = true
is_piped (Expression.call_expression c as') = true
is_piped (Expression.bracket_expression l m) = true
is_piped _ = false

abbrev pub filtered : Text → Text
filtered r = lit "{{" ++ ((r ++ lit " | __pug__html") ++ lit "}}")

module _ (env : Env) (js : Text → Result Text) (safe : env.rawmode ≡ false) where
  wrap_html-filtered : (r : Text) → wrap_html env true r ≡ filtered (wrap_html env false r)
  unfolding wrap_html
  wrap_html-filtered r = rw safe

  abbrev pipe : Result Text → Result Text
  pipe m = m >>= λ r. ok (filtered r)

  -- A chain whose last value is filtered is the chain, filtered.
  pipe₂ :
      (m n : Result Text) (f : Bool → Text → Text → Text)
      → ((x y : Text) → f true x y ≡ filtered (f false x y))
      → (m >>= λ x. n >>= λ y. ok (f true x y)) ≡ pipe (m >>= λ x. n >>= λ y. ok (f false x y))
  pipe₂ (ok x) (ok y) f h = ap ok (h x y)
  pipe₂ (ok x) panicked f h = refl
  pipe₂ (ok x) out_of_fuel f h = refl
  pipe₂ panicked n f h = refl
  pipe₂ out_of_fuel n f h = refl

  pipe₃ :
      (l m n : Result Text) (f : Bool → Text → Text → Text → Text)
      → ((x y z : Text) → f true x y z ≡ filtered (f false x y z))
      → (l >>= λ x. m >>= λ y. n >>= λ z. ok (f true x y z))
        ≡ pipe (l >>= λ x. m >>= λ y. n >>= λ z. ok (f false x y z))
  pipe₃ (ok x) m n f h = pipe₂ m n (λ b. f b x) (h x)
  pipe₃ panicked m n f h = refl
  pipe₃ out_of_fuel m n f h = refl

  dot-filtered :
      (m i : Result Text) (left : Text → Text → Text)
      → (m >>= λ l. i >>= λ n. ok (wrap_html env true (left l n)))
        ≡ pipe (m >>= λ l. i >>= λ n. ok (wrap_html env false (left l n)))
  dot-filtered m i left =
      pipe₂ m i (λ b l n. wrap_html env b (left l n)) λ l n. wrap_html-filtered (left l n)

  -- Outside raw mode the action written for an expression of these classes is its plain
  -- translation, piped into the HTML filter; it is translated exactly when the plain expression is.
  pub render_expression-filtered :
      (e : Expression) (dot : Bool)
      → is_piped e ≡ true
      → render_expression env js e true dot
        ≡ (render_expression env js e false dot >>= λ r. ok (filtered r))
  unfolding render_expression render_identifier render_dot render_conditional render_binary
      render_call render_bracket
  render_expression-filtered (Expression.identifier name) dot h = ap ok (wrap_html-filtered _)
  render_expression-filtered (Expression.dot_expression l name) dot h =
      dot-filtered (render_expression env js l false true)
        (member_name (render_identifier env name false true)) λ x n. x ++ (lit "." ++ n)
  render_expression-filtered (Expression.conditional_expression t c a) dot h =
      pipe₃ (render_expression env js c false true) (render_expression env js a false true)
        (render_expression env js t false true) (λ b x y z. render_conditional env z x y b)
        λ x y z. wrap_html-filtered _
  render_expression-filtered (Expression.binary_expression op l r) dot h =
      pipe₂ (render_expression env js l false true) (render_expression env js r false true)
        (λ b x y. render_binary env op x y b) λ x y. wrap_html-filtered _
  render_expression-filtered (Expression.call_expression c as') dot h =
      pipe₂ (render_expression env js c false false) (render_arguments env js as')
        (λ b x y. render_call env x y b) λ x y. wrap_html-filtered _
  render_expression-filtered (Expression.bracket_expression l m) dot h =
      pipe₂ (render_expression env js l false true) (render_expression env js m false true)
        (λ b x y. render_bracket env x y b) λ x y. wrap_html-filtered _
  render_expression-filtered Expression.missing dot h = cc
  render_expression-filtered (Expression.string_literal v) dot h = cc
  render_expression-filtered (Expression.number_literal v) dot h = cc
  render_expression-filtered (Expression.array_literal es) dot h = cc
  render_expression-filtered (Expression.boolean_literal v) dot h = cc
  render_expression-filtered (Expression.object_literal ps) dot h = cc
  render_expression-filtered Expression.null_literal dot h = cc
  render_expression-filtered (Expression.assign_expression op l r) dot h = cc
  render_expression-filtered (Expression.variable_expression n i) dot h = cc
  render_expression-filtered (Expression.sequence_expression es) dot h = cc
  render_expression-filtered (Expression.unary_expression op e) dot h = cc
  render_expression-filtered (Expression.new_expression c as') dot h = cc
  render_expression-filtered Expression.other dot h = cc
