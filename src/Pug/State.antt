-- ===== src/Pug/State.antt =====
-- The render state of pugjs/engine.go, and the effect of a Render method: it changes the state,
-- appends to a buffer, and may return an error, after which the caller returns it too.
use pugtemplate.Common.{Text, text_eq, ℕ, Bool, true, false, List, [], ◌∷◌, ◌++◌, if◌then◌else◌}
use pugtemplate.Common.Result
use pugtemplate.Common.Result.{Result}

-- `mixin` is a map, `mixincalls` a set. The fields that no Render method reads are left out.
pub record RenderState : Type 0 where
  pub mixin : List (Text × Text)
  pub mixincalls : List Text
  pub mixinorder : List Text
  pub mixincounter : ℕ
  pub mixinblocks : List Text
  pub funcs : List Text
  pub rawmode : Bool
  pub doctype : Text
  pub debug : Bool

-- newRenderState, with the functions that the caller sets next.
abbrev pub new_render_state : List Text → Bool → RenderState
new_render_state funcs debug = record {
  mixin = [];
  mixincalls = [];
  mixinorder = [];
  mixincounter = 0;
  mixinblocks = [];
  funcs = funcs;
  rawmode = false;
  doctype = [];
  debug = debug;
}

-- Reading a map of texts: a missing key reads as the empty text.
unfoldable pub find : Text → List (Text × Text) → Text
find k [] = []
find k ((j, v) ∷ m) = if text_eq j k then v else find k m

unfoldable pub put : Text → Text → List (Text × Text) → List (Text × Text)
put k v [] = (k, v) ∷ []
put k v ((j, w) ∷ m) = if text_eq j k then (k, v) ∷ m else (j, w) ∷ put k v m

unfoldable pub has_key : Text → List (Text × Text) → Bool
has_key k [] = false
has_key k ((j, v) ∷ m) = if text_eq j k then true else has_key k m

pub data RenderError : Type 0 where
  zero_cases no_consequent : RenderError

-- The state, the text appended, and the value or the error.
pub data Outcome (A : Type 0) : Type 0 where
  returned : RenderState → Text → A → Outcome A
  failed : RenderState → Text → RenderError → Outcome A
  panicked out_of_fuel : Outcome A

abbrev pub M : Type 0 → Type 0
M A = RenderState → Outcome A

-- What was written before stays in front.
abbrev pub prepend : {A : Type 0} → Text → Outcome A → Outcome A
prepend w (Outcome.returned s w' a) = Outcome.returned s (w ++ w') a
prepend w (Outcome.failed s w' e) = Outcome.failed s (w ++ w') e
prepend w Outcome.panicked = Outcome.panicked
prepend w Outcome.out_of_fuel = Outcome.out_of_fuel

abbrev pub continue : {A B : Type 0} → Outcome A → (A → M B) → Outcome B
continue (Outcome.returned s w a) f = prepend w (f a s)
continue (Outcome.failed s w e) f = Outcome.failed s w e
continue Outcome.panicked f = Outcome.panicked
continue Outcome.out_of_fuel f = Outcome.out_of_fuel

infixl 5 ◌>>=◌ ◌>>◌
unfoldable pub ◌>>=◌ : {A B : Type 0} → M A → (A → M B) → M B
◌>>=◌ m f s = continue (m s) f

abbrev pub ◌>>◌ : {A B : Type 0} → M A → M B → M B
m >> k = m >>= λ _. k

unfoldable pub pure : {A : Type 0} → A → M A
pure a s = Outcome.returned s [] a

-- `wr.WriteString`
unfoldable pub write : Text → M (Unit {0})
write w s = Outcome.returned s w tt

unfoldable pub fail : RenderError → M (Unit {0})
fail e s = Outcome.failed s [] e

unfoldable pub panic : M (Unit {0})
panic s = Outcome.panicked

unfoldable pub get : M RenderState
get s = Outcome.returned s [] s

unfoldable pub modify : (RenderState → RenderState) → M (Unit {0})
modify f s = Outcome.returned (f s) [] tt

unfoldable pub lift : {A : Type 0} → Result A → M A
lift (Result.Result.ok a) s = Outcome.returned s [] a
lift Result.Result.panicked s = Outcome.panicked
lift Result.Result.out_of_fuel s = Outcome.out_of_fuel

abbrev pub into_buffer : Outcome (Unit {0}) → Outcome Text
into_buffer (Outcome.returned s w a) = Outcome.returned s [] w
into_buffer (Outcome.failed s w e) = Outcome.failed s [] e
into_buffer Outcome.panicked = Outcome.panicked
into_buffer Outcome.out_of_fuel = Outcome.out_of_fuel

-- A render into a new buffer, whose text is the value.
unfoldable pub sub_buffer : M (Unit {0}) → M Text
sub_buffer m s = into_buffer (m s)

abbrev pub forget_error : Outcome (Unit {0}) → Outcome (Unit {0})
forget_error (Outcome.failed s w e) = Outcome.returned s w tt
forget_error (Outcome.returned s w a) = Outcome.returned s w a
forget_error Outcome.panicked = Outcome.panicked
forget_error Outcome.out_of_fuel = Outcome.out_of_fuel

-- A call whose error nobody looks at.
unfoldable pub ignore_error : M (Unit {0}) → M (Unit {0})
ignore_error m s = forget_error (m s)
