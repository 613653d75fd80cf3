-- ===== src/Objects/Array.antt =====
-- `Array` of pugjs/types.go. Its items are a Go slice, a part of a backing array that other slices
-- may share, so the operations run on a store of backing arrays. An index is the integer that a
-- Number is converted to; a negative one panics as one beyond the end does.
use pugtemplate.Common.{
  Text, join, map, length, Bool, ℤ, pos, negsuc, ℕ, zero, suc, ◌+◌, ◌-◌, ◌&&◌, List, [], ◌∷◌, ◌==◌,
  ltb, leb, if◌then◌else◌, Option, none, some,
}
use pugtemplate.Common.Result.{Result, ok, panicked}

-- The cells of all backing arrays, and the first number that no backing array has.
pub record Store (A : Type 0) : Type 0 where
  pub cells : ℕ → ℕ → A
  pub next : ℕ

pub record Slice : Type 0 where
  pub backing : ℕ
  pub offset : ℕ
  pub len : ℕ
  pub cap : ℕ

module _ {A : Type 0} where
  abbrev pub read : (ℕ → A) → ℕ → ℕ → List A
  read cells i zero = []
  read cells i (suc n) = cells i ∷ read cells (i + 1) n

  -- `Items`.
  abbrev pub items : Store A → Slice → List A
  items s a = read (s.cells a.backing) a.offset a.len

  abbrev pub write_cell : ℕ → ℕ → A → (ℕ → ℕ → A) → ℕ → ℕ → A
  write_cell b i x cells c j = if (c == b) && (j == i) then x else cells c j

  -- The backing array that append makes: the old items, then the new one.
  abbrev pub grown : ℕ → Slice → A → (ℕ → ℕ → A) → ℕ → ℕ → A
  grown b a x cells c j =
      if c == b then (if j == a.len then x else cells a.backing (a.offset + j)) else cells c j

  -- `Push`: append writes behind the items while there is capacity, and copies them else; `grow`
  -- is the capacity that the runtime chooses then.
  unfoldable pub push : (ℕ → ℕ) → A → Store A → Slice → Store A × Slice
  push grow x s a =
      if ltb a.len a.cap
      then (
        record s { cells = write_cell a.backing (a.offset + a.len) x s.cells },
        record a { len = a.len + 1 },
      )
      else (
        record { cells = grown s.next a x s.cells; next = s.next + 1 },
        record { backing = s.next; offset = 0; len = a.len + 1; cap = grow a.len },
      )

  -- `Pop`, which panics on an empty array.
  unfoldable pub pop : Store A → Slice → Result (A × Slice)
  pop s a =
      if a.len == 0
      then panicked
      else ok (s.cells a.backing (a.offset + (a.len - 1)), record a { len = a.len - 1 })

  -- `Shift`; none is the nil of an empty array.
  unfoldable pub shift : Store A → Slice → Option A × Slice
  shift s a =
      if ltb 0 a.len
      then (
        some (s.cells a.backing a.offset),
        record a { offset = a.offset + 1; len = a.len - 1; cap = a.cap - 1 },
      )
      else (none, a)

  abbrev cell_or : A → List A → ℕ → A
  cell_or x [] i = x
  cell_or x (y ∷ ys) zero = y
  cell_or x (y ∷ ys) (suc i) = cell_or x ys i

  -- The backing array of `Unshift`: the elements, then the old items.
  abbrev pub put_before : ℕ → List A → Slice → (ℕ → ℕ → A) → ℕ → ℕ → A
  put_before b elements a cells c j =
      if c == b
      then cell_or (cells a.backing (a.offset + (j - length elements))) elements j
      else cells c j

  -- `Unshift`, with the length that it returns: append copies the items behind the elements.
  unfoldable pub unshift : (ℕ → ℕ) → List A → Store A → Slice → Store A × Slice × ℕ
  unshift grow elements s a =
      let n = length elements + a.len in
      (
        record { cells = put_before s.next elements a s.cells; next = s.next + 1 },
        record { backing = s.next; offset = 0; len = n; cap = grow n },
        n,
      )

  -- `Join`, by what the items print.
  unfoldable pub join_items : (A → Text) → Text → Store A → Slice → Text
  unfolding join
  join_items show sep s a = join sep (map show (items s a))

  abbrev first_same : (A → Bool) → ℕ → List A → ℤ
  first_same p i [] = negsuc 0
  first_same p i (x ∷ xs) = let rest = first_same p (i + 1) xs in if p x then pos i else rest

  -- `IndexOf`, by reflect.DeepEqual; -1 for none.
  unfoldable pub index_of_item : (A → A → Bool) → A → Store A → Slice → ℤ
  index_of_item deep_equal what s a = first_same (λ w. deep_equal w what) 0 (items s a)

-- The items before an index, with all of the capacity, and those from it on.
abbrev pub kept : ℕ → Slice → Slice
kept n a = record a { len = n }

abbrev pub cut_off : ℕ → Slice → Slice
cut_off n a = record a { offset = a.offset + n; len = a.len - n; cap = a.cap - n }

-- `Slice`: the items from an index on, in the same backing array.
unfoldable pub slice_from : ℕ → Slice → Result Slice
slice_from n a = if leb n a.len then ok (cut_off n a) else panicked

-- `Splice`: the array that is left, and the one cut off.
unfoldable pub splice : ℕ → Slice → Result (Slice × Slice)
splice n a = if leb n a.len then ok (kept n a, cut_off n a) else panicked
