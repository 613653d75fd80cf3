-- ===== src/Runtime/Arithmetic.antt =====
-- The arithmetic operators of pugjs/runtime.go.
use pugtemplate.Common.{
  lit, ◌++◌, ℤ, pos, ◌+ℤ◌, ◌-ℤ◌, ◌*ℤ◌, wrap64, rem_ℤ, abs_ℤ, ◌==◌, List, [], ◌∷◌, if◌then◌else◌,
}
use pugtemplate.Common.Result.{Result, ok, panicked}
use pugtemplate.Runtime.Value.{Floats, Object, Value, Kind, kind, convert, string_of}

module _ (fl : Floats) where
  open fl use {F, of_int, to_int, add, sub, mul, quo, parse}

  -- What the operators return for operands that they do not take.
  abbrev pub not_a_number : Value fl
  not_a_number = Value.text (lit "<nil>")

  abbrev pub add_number : F → Object fl → Object fl
  add_number x (Object.number y) = Object.number (add x y)
  add_number x (Object.string s) = Object.number (add x (parse s))
  add_number x _ = Object.nil

  abbrev pub add_objects : Object fl → Object fl → Object fl
  add_objects (Object.string s) y = Object.string (s ++ string_of fl y)
  add_objects (Object.number f) y = add_number f y
  add_objects x y = Object.string (string_of fl x ++ string_of fl y)

  unfoldable pub runtime_add : Value fl → Value fl → Object fl
  unfolding convert string_of
  runtime_add l r = add_objects (convert fl l) (convert fl r)

  abbrev pub inc_kind : Kind fl → ℤ
  inc_kind (Kind.int i) = wrap64 (i +ℤ pos 1)
  inc_kind (Kind.float f) = to_int (add f (of_int (pos 1)))
  inc_kind _ = pos 0

  unfoldable pub runtime_inc : Value fl → ℤ
  unfolding kind ◌+ℤ◌ wrap64
  runtime_inc x = inc_kind (kind fl x)

  abbrev pub dec_kind : Kind fl → ℤ
  dec_kind (Kind.int i) = wrap64 (i -ℤ pos 1)
  dec_kind (Kind.float f) = to_int (sub f (of_int (pos 1)))
  dec_kind _ = pos 0

  unfoldable pub runtime_dec : Value fl → ℤ
  unfolding kind ◌-ℤ◌ wrap64
  runtime_dec x = dec_kind (kind fl x)

  -- The operands of `-` and `*`: two integers, or at least one float.
  abbrev pub on_numbers : (ℤ → ℤ → ℤ) → (F → F → F) → Kind fl → Kind fl → Value fl
  on_numbers f g (Kind.int i) (Kind.int j) = Value.int (wrap64 (f i j))
  on_numbers f g (Kind.int i) (Kind.float y) = Value.float (g (of_int i) y)
  on_numbers f g (Kind.float x) (Kind.int j) = Value.float (g x (of_int j))
  on_numbers f g (Kind.float x) (Kind.float y) = Value.float (g x y)
  on_numbers f g _ _ = not_a_number

  -- With one operand its negation; no operand is an index out of range.
  unfoldable pub runtime_sub : List (Value fl) → Result (Value fl)
  unfolding kind ◌-ℤ◌ wrap64
  runtime_sub [] = panicked
  runtime_sub (x ∷ []) = ok (on_numbers ◌-ℤ◌ sub (Kind.int (pos 0)) (kind fl x))
  runtime_sub (x ∷ y ∷ rest) = ok (on_numbers ◌-ℤ◌ sub (kind fl x) (kind fl y))

  unfoldable pub runtime_mul : Value fl → Value fl → Value fl
  unfolding kind ◌*ℤ◌ wrap64
  runtime_mul x y = on_numbers ◌*ℤ◌ mul (kind fl x) (kind fl y)

  -- A quotient is always a float.
  abbrev pub quotient : Kind fl → Kind fl → Value fl
  quotient (Kind.int i) (Kind.int j) = Value.float (quo (of_int i) (of_int j))
  quotient (Kind.int i) (Kind.float y) = Value.float (quo (of_int i) y)
  quotient (Kind.float x) (Kind.int j) = Value.float (quo x (of_int j))
  quotient (Kind.float x) (Kind.float y) = Value.float (quo x y)
  quotient _ _ = not_a_number

  unfoldable pub runtime_quo : Value fl → Value fl → Value fl
  unfolding kind
  runtime_quo x y = quotient (kind fl x) (kind fl y)

  -- Go's remainder, which panics on a divisor of zero.
  unfoldable pub checked_rem : ℤ → ℤ → Result (Value fl)
  unfolding rem_ℤ
  checked_rem i j = if abs_ℤ j == 0 then panicked else ok (Value.int (rem_ℤ i j))

  -- The remainder of an integer by a float is not taken.
  abbrev pub remainder : Kind fl → Kind fl → Result (Value fl)
  remainder (Kind.int i) (Kind.int j) = checked_rem i j
  remainder (Kind.float x) (Kind.int j) = checked_rem (to_int x) j
  remainder (Kind.float x) (Kind.float y) = checked_rem (to_int x) (to_int y)
  remainder _ _ = ok not_a_number

  unfoldable pub runtime_rem : Value fl → Value fl → Result (Value fl)
  unfolding kind checked_rem
  runtime_rem x y = remainder (kind fl x) (kind fl y)
