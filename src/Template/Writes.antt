-- ===== src/Template/Writes.antt =====
-- What an append or a write to a slice does to the lists that this slice and others show.
use pugtemplate.Common.{
  ℕ, suc, ◌<◌, List, [], ◌∷◌, ◌++◌, length, get_elem?, take, ltb, ◌≡◌, ◌≢◌, refl, ap, ◌∙◌, arith,
  Bool-cases, inl, inr, length-append, length-take,
}
use pugtemplate.Template.Slices.{
  Slice, Array, put_cell, cells_of, cap_of, view, set_cell, make_copy, append, Fits,
}
use pugtemplate.Template.Views.{
  cells-change_array, others-change_array, get_elem?-before, get_elem?-at, take-put_cell_inside,
  take-put_cell_end,
}

module _ {A : Type 0} where
  take-all : (xs : List A) → take (length xs) xs ≡ xs
  take-all [] = refl
  take-all (x ∷ xs) = ap (◌∷◌ x) (take-all xs)

  take-whole : (n : ℕ) (xs : List A) → n ≡ length xs → take n xs ≡ xs
  take-whole n xs e = ap (λ k. take k xs) e ∙ take-all xs

  pub view-length :
      (arrays : List (Array A)) (s : Slice) → Fits arrays s → length (view arrays s) ≡ s.len
  unfolding view
  view-length arrays s h =
      omega (arith, length-take s.len (cells_of (get_elem? arrays s.array)), h.1)

  pub view-set_cell :
      (i : ℕ) (x : A) (s : Slice) (arrays : List (Array A))
      → Fits arrays s
      → i < s.len
      → view (set_cell i x s arrays) s ≡ put_cell i x (view arrays s)
  unfolding view set_cell
  view-set_cell i x s arrays h l =
      ap (take s.len) (cells-change_array s.array (put_cell i x) arrays h.0).0
      ∙ take-put_cell_inside s.len i x (cells_of (get_elem? arrays s.array)) l h.1

  -- Slices over other arrays stay.
  pub view-set_other :
      (i : ℕ) (x : A) (s t : Slice) (arrays : List (Array A))
      → t.array ≢ s.array
      → view (set_cell i x s arrays) t ≡ view arrays t
  unfolding view set_cell
  view-set_other i x s t arrays h =
      ap (λ o. take t.len (cells_of o))
        (others-change_array s.array t.array (put_cell i x) arrays h)

  pub view-append :
      (spare : ℕ → ℕ) (x : A) (s : Slice) (arrays : List (Array A))
      → Fits arrays s
      → view (append spare x s arrays).1 (append spare x s arrays).0 ≡ view arrays s ++ (x ∷ [])
  unfolding view append
  view-append spare x s arrays h =
      elim (Bool-cases (ltb s.len (cap_of (get_elem? arrays s.array)))) [
        | inl e ↦ rw e (
            ap (take (suc s.len)) (cells-change_array s.array (put_cell s.len x) arrays h.0).0
            ∙ take-put_cell_end s.len x (cells_of (get_elem? arrays s.array)) h.1)
        | inr e ↦ rw e (ap (λ o. take (suc s.len) (cells_of o)) (get_elem?-at arrays _) ∙ whole)
      ]
    where
      whole : take (suc s.len) (view arrays s ++ (x ∷ [])) ≡ view arrays s ++ (x ∷ [])
      whole =
          take-whole (suc s.len) (view arrays s ++ (x ∷ []))
            (omega (arith, length-append (view arrays s) (x ∷ []), view-length arrays s h))

  pub view-append_other :
      (spare : ℕ → ℕ) (x : A) (s t : Slice) (arrays : List (Array A))
      → t.array < length arrays
      → t.array ≢ s.array
      → view (append spare x s arrays).1 t ≡ view arrays t
  unfolding view append
  view-append_other spare x s t arrays l h =
      elim (Bool-cases (ltb s.len (cap_of (get_elem? arrays s.array)))) [
        | inl e ↦ rw e (
            ap (λ o. take t.len (cells_of o))
              (others-change_array s.array t.array (put_cell s.len x) arrays h))
        | inr e ↦ rw e (ap (λ o. take t.len (cells_of o)) (get_elem?-before arrays _ t.array l))
      ]

  -- A copy shows the list that was copied, in an array behind the others.
  pub view-make_copy :
      (xs : List A) (arrays : List (Array A))
      → view (make_copy xs arrays).1 (make_copy xs arrays).0 ≡ xs
  unfolding view make_copy
  view-make_copy xs arrays =
      ap (λ o. take (length xs) (cells_of o)) (get_elem?-at arrays _) ∙ take-all xs

  pub view-make_copy_other :
      (xs : List A) (arrays : List (Array A)) (t : Slice)
      → t.array < length arrays
      → view (make_copy xs arrays).1 t ≡ view arrays t
  unfolding view make_copy
  view-make_copy_other xs arrays t l =
      ap (λ o. take t.len (cells_of o)) (get_elem?-before arrays _ t.array l)
