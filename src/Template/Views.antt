-- ===== src/Template/Views.antt =====
-- What the operations on slices do to the lists that slices show.
use pugtemplate.Common.{
  ℕ, zero, suc, ◌≤◌, ◌<◌, List, [], ◌∷◌, ◌++◌, some, length, get_elem?, take, ◌≡◌, ◌≢◌, refl, ap,
  arith,
}
use pugtemplate.Template.Slices.{Array, put_cell, cells_of, cap_of, change_array}

module _ {A : Type 0} where
  pub length-change_array :
      (i : ℕ) (f : List A → List A) (arrays : List (Array A))
      → length (change_array i f arrays) ≡ length arrays
  length-change_array i f [] = refl
  length-change_array zero f (a ∷ arrays) = refl
  length-change_array (suc i) f (a ∷ arrays) = ap suc (length-change_array i f arrays)

  -- The cells of the changed array, its room, and the other arrays.
  pub cells-change_array :
      (i : ℕ) (f : List A → List A) (arrays : List (Array A))
      → i < length arrays
      → (cells_of (get_elem? (change_array i f arrays) i) ≡ f (cells_of (get_elem? arrays i)))
        × (cap_of (get_elem? (change_array i f arrays) i) ≡ cap_of (get_elem? arrays i))
  cells-change_array i f [] h = ground (arith, h)
  cells-change_array zero f (a ∷ arrays) h = (refl, refl)
  cells-change_array (suc i) f (a ∷ arrays) h = cells-change_array i f arrays (omega (arith, h))

  pub others-change_array :
      (i j : ℕ) (f : List A → List A) (arrays : List (Array A))
      → j ≢ i
      → get_elem? (change_array i f arrays) j ≡ get_elem? arrays j
  others-change_array i j f [] h = refl
  others-change_array zero zero f (a ∷ arrays) h = absurd (h refl)
  others-change_array zero (suc j) f (a ∷ arrays) h = refl
  others-change_array (suc i) zero f (a ∷ arrays) h = refl
  others-change_array (suc i) (suc j) f (a ∷ arrays) h =
      others-change_array i j f arrays λ e. h (ap suc e)

  pub get_elem?-before :
      (xs ys : List A) (j : ℕ) → j < length xs → get_elem? (xs ++ ys) j ≡ get_elem? xs j
  get_elem?-before [] ys j h = ground (arith, h)
  get_elem?-before (x ∷ xs) ys zero h = refl
  get_elem?-before (x ∷ xs) ys (suc j) h = get_elem?-before xs ys j (omega (arith, h))

  pub get_elem?-at : (xs : List A) (x : A) → get_elem? (xs ++ (x ∷ [])) (length xs) ≡ some x
  get_elem?-at [] x = refl
  get_elem?-at (y ∷ xs) x = get_elem?-at xs x

  pub length-put_cell_inside :
      (i : ℕ) (x : A) (xs : List A) → i < length xs → length (put_cell i x xs) ≡ length xs
  length-put_cell_inside i x [] h = ground (arith, h)
  length-put_cell_inside zero x (y ∷ xs) h = refl
  length-put_cell_inside (suc i) x (y ∷ xs) h =
      ap suc (length-put_cell_inside i x xs (omega (arith, h)))

  pub take-put_cell_inside :
      (n i : ℕ) (x : A) (xs : List A)
      → i < n
      → n ≤ length xs
      → take n (put_cell i x xs) ≡ put_cell i x (take n xs)
  take-put_cell_inside zero i x xs h k = ground (arith, h)
  take-put_cell_inside (suc n) i x [] h k = ground (arith, k)
  take-put_cell_inside (suc n) zero x (y ∷ xs) h k = refl
  take-put_cell_inside (suc n) (suc i) x (y ∷ xs) h k =
      ap (◌∷◌ y) (take-put_cell_inside n i x xs (omega (arith, h)) (omega (arith, k)))

  pub take-put_cell_end :
      (n : ℕ) (x : A) (xs : List A)
      → n ≤ length xs
      → take (suc n) (put_cell n x xs) ≡ take n xs ++ (x ∷ [])
  take-put_cell_end zero x [] k = refl
  take-put_cell_end zero x (y ∷ xs) k = refl
  take-put_cell_end (suc n) x [] k = ground (arith, k)
  take-put_cell_end (suc n) x (y ∷ xs) k = ap (◌∷◌ y) (take-put_cell_end n x xs (omega (arith, k)))

  pub length-put_cell :
      (n : ℕ) (x : A) (xs : List A)
      → n ≤ length xs
      → (suc n ≤ length (put_cell n x xs))
        × (length xs ≤ length (put_cell n x xs))
        × ((c : ℕ) → length xs ≤ c → n < c → length (put_cell n x xs) ≤ c)
  length-put_cell zero x [] k = (omega arith, omega arith, λ c h l. omega (arith, l))
  length-put_cell zero x (y ∷ xs) k = (omega arith, omega arith, λ c h l. h)
  length-put_cell (suc n) x [] k = ground (arith, k)
  length-put_cell (suc n) x (y ∷ xs) k =
      let (l, m, r) = length-put_cell n x xs (omega (arith, k)) in
      (omega (arith, l), omega (arith, m), λ c h o. above c (λ d. r d) h o)
    where
      above :
          (c : ℕ)
          → ((d : ℕ) → length xs ≤ d → n < d → length (put_cell n x xs) ≤ d)
          → suc (length xs) ≤ c
          → suc n < c
          → suc (length (put_cell n x xs)) ≤ c
      above zero r h o = ground (arith, h)
      above (suc c) r h o = omega (arith, r c (omega (arith, h)) (omega (arith, o)))
