-- ===== src/Template/Reflection.antt =====
-- What the execution of templates (pugjs/tpl_exec.go) asks of Go: of the packages reflect and fmt,
-- of the objects, and of the functions it calls. It is a parameter.
use pugtemplate.Common.{Text, ℕ, Bool, List, Option}
use pugtemplate.Template.Syntax.{Pipeline}
use pugtemplate.Template.State.{Panic}

-- `V` are the values of reflect, `W` is what the objects hold, `C` are the constants.
-- How a call ends: with a value, an error or a panic.
pub data Called (V W : Type 0) : Type 0 where
  returned : W → V → Called V W
  failed : W → V → Called V W
  panicked : W → V → Called V W

-- A parameter's type: which value it accepts, as which (`validateType`), which constant, and which
-- value stands for nil in it, if it can be nil.
pub record Parameter (V W C : Type 0) : Type 0 where
  pub accept : W → V → Option V
  pub constant : C → Option V
  pub nil_value : Option V

-- A function's type and what it does. From `fixed` on, the parameters are the variadic one.
pub record Function (V W C : Type 0) : Type 0 where
  pub fixed : ℕ
  pub variadic : Bool
  pub good_results : Bool
  pub parameters : ℕ → Parameter V W C
  pub run : W → List V → Called V W

-- What `Member` of an object gives.
pub data Member (V W C : Type 0) : Type 0 where
  value : V → Member V W C
  func : Function V W C → Member V W C

-- A Go value: its methods, and its fields, each with whether it is exported, or its keys.
pub data GoFields (V : Type 0) : Type 0 where
  structure : (Text → Option (Bool × V)) → GoFields V
  dictionary : Bool → (Text → Option V) → GoFields V
  other : GoFields V

pub record Native (V W C : Type 0) : Type 0 where
  pub is_nil : Bool
  pub method : Text → Option (Function V W C)
  pub fields : GoFields V

-- The value before the dot.
pub data Receiver (V W C : Type 0) : Type 0 where
  invalid : Receiver V W C
  object : (Text → W → Member V W C × W) → Receiver V W C
  native : Native V W C → Receiver V W C

-- What a range goes over. The elements of a slice are read when their turn comes, and so are the
-- members of a map; the keys are sorted. A channel gives what it receives until it is closed. A
-- boolean comes as the value that pointers and interfaces lead to.
pub data Ranged (V W : Type 0) : Type 0 where
  invalid : Ranged V W
  slice : ℕ → (ℕ → W → V) → Ranged V W
  ordered : Text → List Text → (Text → W → Bool × W) → (Text → W → V × W) → Ranged V W
  keys : List V → (V → W → V) → Ranged V W
  channel : List V → Ranged V W
  bool : V → Ranged V W
  other : Ranged V W

-- What printableValue returns: nothing, Go's text "<no value>", or what fmt prints.
pub data Printed : Type 0 where
  refused missing : Printed
  text : Text → Printed

pub record Reflection (V W C : Type 0) : Type 0 where
  -- reflect's invalid value, Nil, and the values of ints and of strings.
  pub zero : V
  pub is_valid : V → Bool
  pub nil : V
  pub int : ℕ → V
  pub string : Text → V
  -- `isTrue`, with none where a value has no truth, and `convert`.
  pub is_true : W → V → Option Bool
  pub convert : W → V → V
  pub receiver : W → V → Receiver V W C
  pub ranged : V → W → Ranged V W × W
  -- `Bool` of reflect, with none for other kinds; the value of what recover returns.
  pub bool_of : V → Option Bool
  pub exception : Panic V → V
  -- `idealConstant`, with none where it overflows; what fmt prints of a value with %s, and of a
  -- printable one, and what is printed where there is none.
  pub ideal : C → Option V
  pub text_of : W → V → Text
  pub print : W → V → Printed
  pub print_missing : Pipeline C → W → V → Text
  -- `findFunction`.
  pub functions : Text → Option (Function V W C)
  -- strings.Title, and the room that append gives to a new array beside what it needs.
  pub title : Text → Text
  pub spare : ℕ → ℕ
