-- ===== src/Runtime/Value.antt =====
-- The values that templates compute with (pugjs/types.go): what Go holds in an interface, and the
-- objects of pugjs. Floating point numbers belong to Go: their type and its operations are a
-- parameter. The integers of all sizes stand together, as reflect's Kind is tested.
use pugtemplate.Common.{
  Text, lit, join, itoa, ℤ, pos, negsuc, suc, ◌++◌, Bool, true, false, List, [], ◌∷◌,
}

-- `int64(f)`, `float64(i)`, the operators, what big.Float prints of a number (it panics on NaN,
-- which is left out), fmt's %f, and strconv.ParseFloat, with what it returns beside an error.
pub record Floats : Type 1 where
  pub F : Type 0
  pub of_int : ℤ → F
  pub to_int : F → ℤ
  pub add : F → F → F
  pub sub : F → F → F
  pub mul : F → F → F
  pub quo : F → F → F
  pub lt : F → F → Bool
  pub eq : F → F → Bool
  pub show : F → Text
  pub show_f : F → Text
  pub parse : Text → F

-- fmt's %d.
abbrev pub show_int : ℤ → Text
show_int (pos n) = itoa n
show_int (negsuc n) = lit "-" ++ itoa (suc n)

module _ (fl : Floats) where
  open fl use {F, of_int, show}

  -- A map is given by what it prints and whether it is true, a function by what it prints.
  mutual
    pub data Object : Type 0 where
      nil : Object
      boolean : Bool → Object
      number : F → Object
      string : Text → Object
      array : Objects → Object
      map : Text → Bool → Object
      func : Text → Object

    pub data Objects : Type 0 where
      end : Objects
      item : Object → Objects → Objects

  -- An interface value; `absent` is the nil interface.
  pub data Value : Type 0 where
    absent : Value
    int : ℤ → Value
    float : F → Value
    text : Text → Value
    bool : Bool → Value
    object : Object → Value

  abbrev pub bool_string : Bool → Text
  bool_string true = lit "true"
  bool_string false = lit "false"

  -- `String`.
  unfoldable mutual
    unfolding lit join

    pub string_of : Object → Text
    string_of Object.nil = []
    string_of (Object.boolean b) = bool_string b
    string_of (Object.number f) = show f
    string_of (Object.string s) = s
    string_of (Object.array os) = join (lit " ") (strings_of os)
    string_of (Object.map s t) = s
    string_of (Object.func s) = s

    pub strings_of : Objects → List Text
    strings_of Objects.end = []
    strings_of (Objects.item o os) = string_of o ∷ strings_of os

  -- `convert`.
  unfoldable pub convert : Value → Object
  convert Value.absent = Object.nil
  convert (Value.int i) = Object.number (of_int i)
  convert (Value.float f) = Object.number f
  convert (Value.text s) = Object.string s
  convert (Value.bool b) = Object.boolean b
  convert (Value.object o) = o

  -- What reflect's Kind tells the operators apart by.
  pub data Kind : Type 0 where
    int : ℤ → Kind
    float : F → Kind
    string : Text → Kind
    bool : Bool → Kind
    other : Kind

  unfoldable pub object_kind : Object → Kind
  object_kind Object.nil = Kind.other
  object_kind (Object.boolean b) = Kind.bool b
  object_kind (Object.number f) = Kind.float f
  object_kind (Object.string s) = Kind.string s
  object_kind (Object.array os) = Kind.other
  object_kind (Object.map s t) = Kind.other
  object_kind (Object.func s) = Kind.other

  unfoldable pub kind : Value → Kind
  unfolding object_kind
  kind Value.absent = Kind.other
  kind (Value.int i) = Kind.int i
  kind (Value.float f) = Kind.float f
  kind (Value.text s) = Kind.string s
  kind (Value.bool b) = Kind.bool b
  kind (Value.object o) = object_kind o
