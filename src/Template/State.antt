-- ===== src/Template/State.antt =====
-- The state of an execution (pugjs/tpl_exec.go), and what it takes from the packages reflect and
-- fmt and from the objects. A state is reached through pointers, from the blocks that are bound to
-- it, so states stand in a list, as do the arrays of their slices. The current node, the context
-- and tracing are left out.
use pugtemplate.Common.{Text, ℕ, List}
use pugtemplate.Template.Slices.{Slice, Array}

-- `V` are the values of the package reflect.
pub record Variable (V : Type 0) : Type 0 where
  pub name : Text
  pub value : V

-- `boundBlock`, with the place of the state that its scope points to.
pub record BoundBlock : Type 0 where
  pub name : Text
  pub scope : ℕ

-- `state`. The globals are not changed after the start.
pub record State (V : Type 0) : Type 0 where
  pub vars : Slice
  pub depth : ℕ
  pub globals : List (Variable V)
  pub bound_blocks : Slice

-- `W` is what the objects hold, `output` what the writer has got.
pub record Store (V W : Type 0) : Type 0 where
  pub world : W
  pub states : List (State V)
  pub variables : List (Array (Variable V))
  pub blocks : List (Array BoundBlock)
  pub output : Text

-- A panic: of errorf, with the format of its text, of the Go runtime, or of a called function.
pub data Panic (V : Type 0) : Type 0 where
  exec_error : Text → Panic V
  runtime_error : Panic V
  raised : V → Panic V

pub data Outcome (V W A : Type 0) : Type 0 where
  returned : Store V W → A → Outcome V W A
  panicked : Store V W → Panic V → Outcome V W A
  out_of_fuel : Outcome V W A

abbrev pub M : Type 0 → Type 0 → Type 0 → Type 0
M V W A = Store V W → Outcome V W A

module _ {V W : Type 0} where
  abbrev pub continue : {A B : Type 0} → Outcome V W A → (A → M V W B) → Outcome V W B
  continue (Outcome.returned st a) k = k a st
  continue (Outcome.panicked st p) k = Outcome.panicked st p
  continue Outcome.out_of_fuel k = Outcome.out_of_fuel

  infixl 5 ◌>>=◌ ◌>>◌
  unfoldable pub ◌>>=◌ : {A B : Type 0} → M V W A → (A → M V W B) → M V W B
  ◌>>=◌ m k st = continue (m st) k

  abbrev pub ◌>>◌ : {A B : Type 0} → M V W A → M V W B → M V W B
  m >> k = m >>= λ _. k

  unfoldable pub pure : {A : Type 0} → A → M V W A
  pure a st = Outcome.returned st a

  unfoldable pub panic : {A : Type 0} → Panic V → M V W A
  panic p st = Outcome.panicked st p

  -- Reading the store, and changing it.
  unfoldable pub gets : {A : Type 0} → (Store V W → A) → M V W A
  gets f st = Outcome.returned st (f st)

  unfoldable pub modify : (Store V W → Store V W) → M V W (Unit {0})
  modify f st = Outcome.returned (f st) tt

  -- `errorf`.
  abbrev pub errorf : {A : Type 0} → Text → M V W A
  errorf format = panic (Panic.exec_error format)

  -- The call of a function with the objects.
  unfoldable pub with_world : {A : Type 0} → (W → A × W) → M V W A
  with_world f st = let (a, w) = f st.world in Outcome.returned (record st { world = w }) a
