-- ===== src/Runtime/Compare.antt =====
-- The comparisons of pugjs/runtime.go.
use pugtemplate.Common.{
  Text, text_eq, ltb, ◌==◌, Bool, true, false, ◌&&◌, ◌||◌, not, [], ◌∷◌, pos, ltb_ℤ, eqb_ℤ,
  if◌then◌else◌,
}
use pugtemplate.Runtime.Value.{Floats, Object, Value, Kind, kind, string_of, show_int}

-- Go's `<` on strings: byte by byte.
unfoldable pub text_lt : Text → Text → Bool
text_lt s [] = false
text_lt [] (d ∷ t) = true
text_lt (c ∷ s) (d ∷ t) = if c == d then text_lt s t else ltb c d

module _ (fl : Floats) where
  open fl use {F, of_int, lt, eq, show_f}

  abbrev pub is_nil : Value fl → Bool
  is_nil (Value.object Object.nil) = true
  is_nil _ = false

  -- Nil counts as the integer 0.
  abbrev pub or_zero : Value fl → Value fl
  or_zero (Value.object Object.nil) = Value.int (pos 0)
  or_zero (Value.object o) = Value.object o
  or_zero v = v

  -- Operands of other kinds are equal as objects that print the same.
  abbrev pub objects_eql : Value fl → Value fl → Bool
  objects_eql (Value.object x) (Value.object y) = text_eq (string_of fl x) (string_of fl y)
  objects_eql _ _ = false

  abbrev pub kinds_eql : Kind fl → Kind fl → Bool → Bool
  kinds_eql (Kind.int i) (Kind.int j) rest = eqb_ℤ i j
  kinds_eql (Kind.int i) (Kind.float y) rest = eq (of_int i) y
  kinds_eql (Kind.int i) (Kind.string t) rest = text_eq (show_int i) t
  kinds_eql (Kind.float x) (Kind.int j) rest = eq x (of_int j)
  kinds_eql (Kind.float x) (Kind.float y) rest = eq x y
  kinds_eql (Kind.float x) (Kind.string t) rest = text_eq (show_f x) t
  kinds_eql (Kind.string s) (Kind.int j) rest = text_eq s (show_int j)
  kinds_eql (Kind.string s) (Kind.float y) rest = text_eq s (show_f y)
  kinds_eql (Kind.string s) (Kind.string t) rest = text_eq s t
  kinds_eql (Kind.bool b) (Kind.int j) rest = b && not (eqb_ℤ j (pos 0))
  kinds_eql (Kind.bool true) (Kind.bool c) rest = c
  kinds_eql (Kind.bool false) (Kind.bool c) rest = not c
  kinds_eql _ _ rest = rest

  unfoldable pub runtime_eql : Value fl → Value fl → Bool
  unfolding kind
  runtime_eql x y =
      if is_nil x && is_nil y
      then true
      else kinds_eql (kind fl (or_zero x)) (kind fl (or_zero y))
          (objects_eql (or_zero x) (or_zero y))

  abbrev pub kinds_lss : Kind fl → Kind fl → Bool
  kinds_lss (Kind.int i) (Kind.int j) = ltb_ℤ i j
  kinds_lss (Kind.int i) (Kind.float y) = lt (of_int i) y
  kinds_lss (Kind.int i) (Kind.string t) = text_lt (show_int i) t
  kinds_lss (Kind.float x) (Kind.int j) = lt x (of_int j)
  kinds_lss (Kind.float x) (Kind.float y) = lt x y
  kinds_lss (Kind.float x) (Kind.string t) = text_lt (show_f x) t
  kinds_lss (Kind.string s) (Kind.int j) = text_lt s (show_int j)
  kinds_lss (Kind.string s) (Kind.float y) = text_lt s (show_f y)
  kinds_lss (Kind.string s) (Kind.string t) = text_lt s t
  kinds_lss _ _ = false

  unfoldable pub runtime_lss : Value fl → Value fl → Bool
  unfolding kind text_lt
  runtime_lss x y =
      if is_nil x && is_nil y then false else kinds_lss (kind fl (or_zero x)) (kind fl (or_zero y))

  -- The other comparisons of the table of functions.
  unfoldable pub op_gt : Value fl → Value fl → Bool
  unfolding runtime_lss runtime_eql
  op_gt x y = not (runtime_lss x y) && not (runtime_eql x y)

  unfoldable pub op_gte : Value fl → Value fl → Bool
  unfolding runtime_lss
  op_gte x y = not (runtime_lss x y)

  unfoldable pub op_lte : Value fl → Value fl → Bool
  unfolding runtime_lss runtime_eql
  op_lte x y = runtime_lss x y || runtime_eql x y

  unfoldable pub op_neq : Value fl → Value fl → Bool
  unfolding runtime_eql
  op_neq x y = not (runtime_eql x y)
