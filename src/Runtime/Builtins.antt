-- ===== src/Runtime/Builtins.antt =====
-- Other functions of pugjs/runtime.go: `__Range`, `__str`, `__op__map`, `__tryindex` on arrays, and
-- `__if` with the truth of a value, from pugjs/tpl_exec.go.
use pugtemplate.Common.{
  Text, lit, trim_space, length, ltb, Bool, true, false, not, List, [], ◌∷◌, ◌++◌, ℕ, zero, suc,
  Option, none, some, ℤ, pos, negsuc, pos_part, ltb_ℤ, eqb_ℤ, ◌+ℤ◌, ◌-ℤ◌, if◌then◌else◌,
}
use pugtemplate.Common.Result.{Result, ok, panicked, out_of_fuel, ◌>>=◌}
use pugtemplate.Objects.Map.{Items, Map, put_item}
use pugtemplate.Runtime.Value.{Floats, Object, Objects, Value, convert, string_of}

-- The loop of `__Range` from `i` up to `m`, on fuel.
unfoldable pub range_loop : ℕ → ℤ → ℤ → Result (List ℤ)
unfolding ◌+ℤ◌
range_loop zero i m = out_of_fuel
range_loop (suc f) i m =
    let rest = range_loop f (i +ℤ pos 1) m >>= λ (r : List ℤ). ok (i ∷ r) in
    if ltb_ℤ i m then rest else ok []

-- One iteration for each number, and the last test.
abbrev pub range_fuel : ℤ → ℤ → ℕ
range_fuel o m = suc (pos_part (m -ℤ o))

unfoldable pub range_ints : ℤ → ℤ → Result (List ℤ)
unfolding range_loop
range_ints o m = range_loop (range_fuel o m) o m

module _ (fl : Floats) where
  open fl use {F, of_int, to_int, eq}

  abbrev pub numbers : List ℤ → Objects fl
  numbers [] = Objects.end
  numbers (i ∷ is) = Objects.item (Object.number (of_int i)) (numbers is)

  abbrev range_array : Result (List ℤ) → Result (Object fl)
  range_array r = r >>= λ (is : List ℤ). ok (Object.array (numbers is))

  -- `__Range`, which panics without an argument.
  unfoldable pub op_range : List F → Result (Object fl)
  unfolding range_ints
  op_range [] = panicked
  op_range (m ∷ []) = range_array (range_ints (pos 0) (to_int m))
  op_range (o ∷ m ∷ rest) = range_array (range_ints (to_int o) (to_int m))

  -- `__str`.
  unfoldable pub concat_strings : List (Value fl) → Text
  unfolding convert string_of
  concat_strings [] = []
  concat_strings (v ∷ vs) = string_of fl (convert fl v) ++ concat_strings vs

  unfoldable pub op_str : List (Value fl) → Text
  unfolding concat_strings trim_space lit
  op_str l =
      let res = concat_strings l in if ltb 1 (length res) then lit " " ++ trim_space res else []

  -- One entry of `__op__map`, whose key joins the order even if it is there.
  abbrev pub some_items : Option (Items (Object fl)) → Items (Object fl)
  some_items none = []
  some_items (some is) = is

  abbrev pub add_entry : Text → Object fl → Map (Object fl) → Map (Object fl)
  add_entry key v m = record m {
    items = some (put_item key v (some_items m.items));
    order = m.order ++ (key ∷ []);
  }

  -- The loop of `__op__map`: a key without a value is an index out of range.
  unfoldable pub map_loop : List (Value fl) → Map (Object fl) → Result (Map (Object fl))
  unfolding convert string_of put_item
  map_loop [] m = ok m
  map_loop (k ∷ []) m = panicked
  map_loop (k ∷ v ∷ rest) m =
      let key = string_of fl (convert fl k) in map_loop rest (add_entry key (convert fl v) m)

  unfoldable pub op_map : List (Value fl) → Result (Map (Object fl))
  unfolding map_loop
  op_map a = map_loop a (record { items = some []; o = none; order = [] })

  abbrev item_at : Objects fl → ℕ → Object fl
  item_at Objects.end n = Object.nil
  item_at (Objects.item o os) zero = o
  item_at (Objects.item o os) (suc n) = item_at os n

  -- `__tryindex` of an array and an int: a negative index panics.
  unfoldable pub try_index : Objects fl → ℤ → Result (Object fl)
  try_index os (pos n) = ok (item_at os n)
  try_index os (negsuc n) = panicked

  abbrev has_items : Objects fl → Bool
  has_items Objects.end = false
  has_items (Objects.item o os) = true

  abbrev has_bytes : Text → Bool
  has_bytes [] = false
  has_bytes (c ∷ s) = true

  -- `IsTrue`, which all these values have: the method True of an object that has it, else the test
  -- of its kind.
  abbrev pub object_is_true : Object fl → Bool
  object_is_true Object.nil = false
  object_is_true (Object.boolean b) = b
  object_is_true (Object.number f) = not (eq f (of_int (pos 0)))
  object_is_true (Object.string s) = has_bytes s
  object_is_true (Object.array os) = has_items os
  object_is_true (Object.map s t) = t
  object_is_true (Object.func s) = true

  unfoldable pub is_true : Value fl → Bool
  is_true Value.absent = false
  is_true (Value.int i) = not (eqb_ℤ i (pos 0))
  is_true (Value.float f) = not (eq f (of_int (pos 0)))
  is_true (Value.text s) = has_bytes s
  is_true (Value.bool b) = b
  is_true (Value.object o) = object_is_true o

  -- `__if`.
  unfoldable pub op_if : Value fl → Value fl → Value fl → Value fl
  unfolding is_true
  op_if test left right = if is_true test then left else right
