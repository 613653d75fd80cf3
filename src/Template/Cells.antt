-- ===== src/Template/Cells.antt =====
-- What holds of every cell of the arrays holds after an append or a removal (Go's slices in
-- pugjs/tpl_exec.go).
use pugtemplate.Common.{
  ℕ, zero, suc, ◌-◌, List, [], ◌∷◌, ◌++◌, get_elem?, take, drop, All, All-append, ltb, Bool-cases,
  inl, inr,
}
use pugtemplate.Template.Slices.{
  Slice, Array, put_cell, cells_of, cap_of, view, change_array, append, remove, without,
}

module _ {A : Type 0} (P : A → Type 0) where
  pub All-take : (n : ℕ) (xs : List A) → All P xs → All P (take n xs)
  All-take zero xs h = tt
  All-take (suc n) [] h = tt
  All-take (suc n) (x ∷ xs) h = (h.0, All-take n xs h.1)

  All-drop : (n : ℕ) (xs : List A) → All P xs → All P (drop n xs)
  All-drop zero xs h = h
  All-drop (suc n) [] h = tt
  All-drop (suc n) (x ∷ xs) h = All-drop n xs h.1

  All-put_cell : (i : ℕ) (x : A) (xs : List A) → P x → All P xs → All P (put_cell i x xs)
  All-put_cell zero x [] p h = (p, tt)
  All-put_cell zero x (y ∷ ys) p h = (p, h.1)
  All-put_cell (suc i) x [] p h = tt
  All-put_cell (suc i) x (y ∷ ys) p h = (h.0, All-put_cell i x ys p h.1)

  All-without : (i n : ℕ) (xs : List A) → All P xs → All P (without i n xs)
  All-without i n xs h = All-append P (take i xs) _ (All-take i xs h) (
      All-append P (drop (suc i) (take n xs)) _ (All-drop (suc i) (take n xs) (All-take n xs h))
        (All-drop (n - 1) xs h))

  -- The cells of all arrays.
  abbrev pub Everywhere : List (Array A) → Type 0
  Everywhere arrays = (j : ℕ) → All P (cells_of (get_elem? arrays j))

  Everywhere-change :
      (i : ℕ) (f : List A → List A) (arrays : List (Array A))
      → ((xs : List A) → All P xs → All P (f xs))
      → Everywhere arrays
      → Everywhere (change_array i f arrays)
  Everywhere-change i f [] h k j = k j
  Everywhere-change zero f (a ∷ arrays) h k zero = h a.cells (k 0)
  Everywhere-change zero f (a ∷ arrays) h k (suc j) = k (suc j)
  Everywhere-change (suc i) f (a ∷ arrays) h k zero = k 0
  Everywhere-change (suc i) f (a ∷ arrays) h k (suc j) =
      Everywhere-change i f arrays h (λ m. k (suc m)) j

  Everywhere-last :
      (arrays : List (Array A)) (a : Array A)
      → Everywhere arrays
      → All P a.cells
      → Everywhere (arrays ++ (a ∷ []))
  Everywhere-last [] a h k zero = k
  Everywhere-last [] a h k (suc j) = tt
  Everywhere-last (b ∷ arrays) a h k zero = h 0
  Everywhere-last (b ∷ arrays) a h k (suc j) = Everywhere-last arrays a (λ m. h (suc m)) k j

  pub append-Everywhere :
      (spare : ℕ → ℕ) (x : A) (s : Slice) (arrays : List (Array A))
      → P x
      → Everywhere arrays
      → Everywhere (append spare x s arrays).1
  unfolding append view
  append-Everywhere spare x s arrays p h =
      elim (Bool-cases (ltb s.len (cap_of (get_elem? arrays s.array)))) [
        | inl e ↦ rw e (Everywhere-change s.array _ arrays (λ xs. All-put_cell s.len x xs p) h)
        | inr e ↦ rw e (
            Everywhere-last arrays _ h
              (All-append P (view arrays s) _ (All-take s.len _ (h s.array)) (p, tt)))
      ]

  pub remove-Everywhere :
      (i : ℕ) (s : Slice) (arrays : List (Array A))
      → Everywhere arrays
      → Everywhere (remove i s arrays).1
  unfolding remove
  remove-Everywhere i s arrays h = Everywhere-change s.array _ arrays (All-without i s.len) h
