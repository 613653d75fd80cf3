-- ===== src/Pug/Compile.antt =====
-- TokenToTemplate of pugjs/pug_parser.go.
use pugtemplate.Common.{Text, lit, Bool, List, [], ◌∷◌, ◌++◌, if◌then◌else◌, not, ◌&&◌, any}
use pugtemplate.Common.Result
use pugtemplate.Js.Pieces.{Parser}
use pugtemplate.Pug.Build.{build_block}
use pugtemplate.Pug.Node.{Nodes}
use pugtemplate.Pug.Render.{render}
use pugtemplate.Pug.State.{
  RenderState, find, has_key, Outcome, M, ◌>>=◌, ◌>>◌, pure, write, get, lift, ignore_error,
}
use pugtemplate.Pug.Token.{Token, OptToken}

-- The mixins' blocks, each on a line of its own.
abbrev pub write_blocks : List Text → Text
write_blocks [] = []
write_blocks (b ∷ bs) = lit "\n" ++ (b ++ write_blocks bs)

abbrev pub write_mixins : List Text → List (Text × Text) → Text
write_mixins [] m = []
write_mixins (n ∷ ns) m = lit "\n" ++ (find n m ++ write_mixins ns m)

-- The nodes of the document, one after the other: an error of one is dropped.
unfoldable pub render_all : Parser → Nodes → M (Unit {0})
render_all parser Nodes.nil = pure tt
render_all parser (Nodes.cons n ns) = do ignore_error (render parser n); render_all parser ns

-- The text of the Go template.
unfoldable pub template_text : Parser → Token → M (Unit {0})
unfolding render_all
template_text parser t = do
  ns ← lift (build_block (OptToken.present t))
  render_all parser ns
  s ← get
  write (write_blocks s.mixinblocks)
  write (write_mixins s.mixinorder s.mixin)

-- A mixin that is called and has no definition.
abbrev pub has_missing : RenderState → Bool
has_missing s = any (λ call. not (has_key call s.mixin)) s.mixincalls

pub data Compiled : Type 0 where
  compiled : Text → Compiled
  parse_error mixin_not_found : Compiled

-- What TokenToTemplate makes of the text. `accepts` is the parser of the template language: whether
-- it takes the text. Which of several missing mixins the error names is left open by the source.
abbrev pub check_template : (Text → Bool) → Outcome (Unit {0}) → Result.Result Compiled
check_template accepts (Outcome.returned s w u) = Result.Result.ok (
    if not (accepts w)
    then Compiled.parse_error
    else if s.debug && has_missing s
    then Compiled.mixin_not_found
    else Compiled.compiled w)
-- no error leaves `render_all`
check_template accepts (Outcome.failed s w e) = Result.Result.ok Compiled.parse_error
check_template accepts Outcome.panicked = Result.Result.panicked
check_template accepts Outcome.out_of_fuel = Result.Result.out_of_fuel

unfoldable pub compile : (Text → Bool) → Parser → RenderState → Token → Result.Result Compiled
unfolding template_text
compile accepts parser s t = check_template accepts (template_text parser t s)
