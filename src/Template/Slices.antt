-- ===== src/Template/Slices.antt =====
-- Go's slices that start at the first cell of their array. Two slices may lie over one array, so
-- arrays stand in a list of their own, and a slice names its array by the place there.
use pugtemplate.Common.{
  ℕ, zero, suc, ◌+◌, ◌-◌, ◌≤◌, ◌<◌, List, [], ◌∷◌, ◌++◌, Option, none, some, length, get_elem?,
  take, drop, ltb, if◌then◌else◌,
}

pub record Slice : Type 0 where
  pub array : ℕ
  pub len : ℕ

-- The cells of an array that were written so far, and how many it has room for.
pub record Array (A : Type 0) : Type 0 where
  pub cells : List A
  pub cap : ℕ

module _ {A : Type 0} where
  -- `a[i] = x`, where the cell behind the last written one may be written too.
  abbrev pub put_cell : ℕ → A → List A → List A
  put_cell zero x [] = x ∷ []
  put_cell zero x (y ∷ ys) = x ∷ ys
  put_cell (suc i) x [] = []
  put_cell (suc i) x (y ∷ ys) = y ∷ put_cell i x ys

  abbrev pub cells_of : Option (Array A) → List A
  cells_of none = []
  cells_of (some a) = a.cells

  abbrev pub cap_of : Option (Array A) → ℕ
  cap_of none = 0
  cap_of (some a) = a.cap

  -- The list that a slice shows.
  unfoldable pub view : List (Array A) → Slice → List A
  view arrays s = take s.len (cells_of (get_elem? arrays s.array))

  abbrev pub change_array : ℕ → (List A → List A) → List (Array A) → List (Array A)
  change_array i f [] = []
  change_array zero f (a ∷ arrays) = record a { cells = f a.cells } ∷ arrays
  change_array (suc i) f (a ∷ arrays) = a ∷ change_array i f arrays

  -- `s[i] = x`.
  unfoldable pub set_cell : ℕ → A → Slice → List (Array A) → List (Array A)
  set_cell i x s arrays = change_array s.array (put_cell i x) arrays

  -- `make` with a copy: an array of its own, without room for more.
  unfoldable pub make_copy : List A → List (Array A) → Slice × List (Array A)
  make_copy xs arrays = (
    record { array = length arrays; len = length xs },
    arrays ++ (record { cells = xs; cap = length xs } ∷ []),
  )

  -- `append(s, x)`: in place where the array has room, else in a new array, to which Go gives as
  -- much room as `spare` says beside what it needs.
  unfoldable pub append : (ℕ → ℕ) → A → Slice → List (Array A) → Slice × List (Array A)
  unfolding view
  append spare x s arrays =
      if ltb s.len (cap_of (get_elem? arrays s.array))
      then (record s { len = suc s.len }, change_array s.array (put_cell s.len x) arrays)
      else (
        record { array = length arrays; len = suc s.len },
        arrays
            ++ (record { cells = view arrays s ++ (x ∷ []); cap = suc s.len + spare s.len } ∷ []),
      )

  -- `append(s[:i], s[i+1:]...)`, in place: the last cell keeps its value behind the slice.
  abbrev pub without : ℕ → ℕ → List A → List A
  without i len cells = take i cells ++ (drop (suc i) (take len cells) ++ drop (len - 1) cells)

  unfoldable pub remove : ℕ → Slice → List (Array A) → Slice × List (Array A)
  remove i s arrays = (record s { len = s.len - 1 }, change_array s.array (without i s.len) arrays)

  -- A slice within its array, and an array within its room.
  abbrev pub Fits : List (Array A) → Slice → Type 0
  Fits arrays s =
      (s.array < length arrays)
      × (s.len ≤ length (cells_of (get_elem? arrays s.array)))
      × (length (cells_of (get_elem? arrays s.array)) ≤ cap_of (get_elem? arrays s.array))
