-- ===== src/Tests/JsTests.antt =====
-- pugjs/transform_js_test.go.
use pugtemplate.Common.{lit, ◌≡◌, refl, true, false}
use pugtemplate.Common.Result.{ok}
use pugtemplate.Js.Ast.{Operator, Expression}
use pugtemplate.Js.Pieces.{assign_name}
use pugtemplate.Js.Render.{js_expr, render_expression}
use pugtemplate.Tests.Inputs.{parser, env, js_code}

identifier : js_expr env parser 1 (lit "a") true false ≡ ok (lit "{{$a | __pug__html}}")
unfolding js_code
identifier = refl

binary : js_expr env parser 1 (lit "1+2") true false ≡ ok (lit "{{(__op__add 1 2) | __pug__html}}")
unfolding js_code
binary = refl

declaration : js_expr env parser 1 (lit "var foo = 1") true true ≡ ok (lit "{{ $foo := 1 -}}")
unfolding js_code
declaration = refl

interpolated :
    render_expression env
      (λ s. js_expr env parser 1 s false false)
      (Expression.string_literal (lit "foo${a} $${1+2}"))
      true
      false
    ≡ ok (lit "{{(__str \"foo\" $a \" $\" (__op__add 1 2) )}}")
unfolding js_code
interpolated = refl

assign_object : assign_name Operator.assign (lit "a.b.c") (lit "1") ≡ lit "($a.b.__assign \"c\" 1)"
unfolding js_code
assign_object = refl
