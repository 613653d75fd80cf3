-- ===== src/Tests/CompileExamples.antt =====
-- The theorems on the compilation of templates at concrete inputs.
use pugtemplate.Common.{Text, lit, text_eq, trim_space, true, ◌≡◌, refl, []}
use pugtemplate.Common.Result.{Result, ok, panicked, out_of_fuel}
use pugtemplate.Pug.Build.{build_block, escape_text, make_node, children_of, kind_of}
use pugtemplate.Pug.Compile.{Compiled, compile, template_text, render_all}
use pugtemplate.Pug.Invariant.Complete.{IsComplete, compile-IsComplete}
use pugtemplate.Pug.Invariant.Mixins.{IsConsistent}
use pugtemplate.Pug.Pieces.{render_definition, finish_definition, mixin_definition, argument_part}
use pugtemplate.Pug.Render.{render}
use pugtemplate.Pug.State.{
  RenderState, Outcome, new_render_state, has_key, find, put, ◌>>=◌, pure, write, get, modify, lift,
  sub_buffer, ignore_error,
}
use pugtemplate.Pug.Token.{Token, OptToken, Tokens, no_fields}
use pugtemplate.Tests.Inputs.{parser}

-- A mixin with a text.
abbrev card : Token
card =
    Token.token (record no_fields { type = lit "Mixin"; name = lit "card"; args = lit "()" })
      (OptToken.present (
        Token.token (record no_fields { type = lit "Block" }) OptToken.absent
          (Tokens.cons
            (Token.token (record no_fields { type = lit "Text"; val = lit "x" }) OptToken.absent
              Tokens.nil Tokens.nil OptToken.absent OptToken.absent)
            Tokens.nil)
          Tokens.nil OptToken.absent OptToken.absent))
      Tokens.nil Tokens.nil OptToken.absent OptToken.absent

abbrev page : Token
page =
    Token.token (record no_fields { type = lit "Block" }) OptToken.absent
      (Tokens.cons card Tokens.nil) Tokens.nil OptToken.absent OptToken.absent

abbrev start : RenderState
start = new_render_state [] true

start-IsConsistent : IsConsistent start
unfolding has_key
start-IsConsistent = record { ordered = λ n. refl; nonempty = λ n h. cc; counted = refl }

abbrev text_of : Result Compiled → Text
text_of (ok (Compiled.compiled w)) = w
text_of (ok Compiled.parse_error) = []
text_of (ok Compiled.mixin_not_found) = []
text_of panicked = []
text_of out_of_fuel = []

abbrev compiled_page : Text
compiled_page = text_of (compile (λ w. true) parser start page)

compile-page : compile (λ w. true) parser start page ≡ ok (Compiled.compiled compiled_page)
unfolding compile ◌>>=◌ lift build_block children_of kind_of text_eq lit make_node ignore_error
    render render_definition get find sub_buffer write pure modify put trim_space escape_text
    mixin_definition argument_part render_all template_text finish_definition has_key
compile-page = refl

compile-IsComplete_example :
    (s : RenderState) × (template_text parser page start ≡ Outcome.returned s compiled_page tt)
    × IsComplete parser (λ w. true) s compiled_page
compile-IsComplete_example =
    compile-IsComplete parser (λ w. true) start page compiled_page start-IsConsistent compile-page
