-- ===== src/Template/Fitting.antt =====
-- Appends, copies and removals keep every slice within its array (Go's slices in pugjs/tpl_exec.go).
use pugtemplate.Common.{
  ℕ, suc, ◌-◌, ◌≤◌, ◌<◌, ◌==◌, ==_iff, List, [], ◌∷◌, ◌++◌, length, get_elem?, take, drop, ltb,
  ltb_iff, ◌≡◌, ◌≢◌, sym, subst, arith, Bool-cases, inl, inr, length-append, length-take,
  length-drop, true, ◌⊎◌,
}
use pugtemplate.Template.Slices.{
  Slice, Array, put_cell, cells_of, cap_of, view, change_array, set_cell, append, remove, without,
  Fits,
}
use pugtemplate.Template.Views.{
  length-change_array, cells-change_array, others-change_array, get_elem?-before, get_elem?-at,
  length-put_cell, length-put_cell_inside,
}
use pugtemplate.Template.Writes.{view-length}

pub same_or_not : (i j : ℕ) → (i ≡ j) ⊎ (i ≢ j)
same_or_not i j = elim (Bool-cases (i == j)) [
  | inl e ↦ inl ((==_iff i j).0 e)
  | inr e ↦ inr λ k. ground (arith, e, k)
]

module _ {A : Type 0} where
  -- A change of an array that loses no cells and stays within the room.
  pub record IsRoomy (f : List A → List A) (xs : List A) (cap : ℕ) : Type 0 where
    pub longer : length xs ≤ length (f xs)
    pub within : length (f xs) ≤ cap

  pub change-Fits :
      (i : ℕ) (f : List A → List A) (arrays : List (Array A)) (t : Slice)
      → i < length arrays
      → IsRoomy f (cells_of (get_elem? arrays i)) (cap_of (get_elem? arrays i))
      → Fits arrays t
      → Fits (change_array i f arrays) t
  change-Fits i f arrays t l h (inside, len, cap) = elim (same_or_not t.array i) [
    | inl e ↦
        let (cells, room) = cells-change_array i f arrays l in
        (
          omega (arith, inside, length-change_array i f arrays),
          subst (λ k. t.len ≤ length (cells_of (get_elem? (change_array i f arrays) k))) (sym e)
              (rw cells (longer_len e)),
          subst
              (λ k.
                length (cells_of (get_elem? (change_array i f arrays) k))
                ≤ cap_of (get_elem? (change_array i f arrays) k))
              (sym e) (rw (cells, room) h.within),
        )
    | inr ne ↦
        let other = others-change_array i t.array f arrays ne in
        (omega (arith, inside, length-change_array i f arrays), rw other len, rw other cap)
  ]
    where
      longer_len : t.array ≡ i → t.len ≤ length (f (cells_of (get_elem? arrays i)))
      longer_len e =
          omega (arith, h.longer, subst (λ k. t.len ≤ length (cells_of (get_elem? arrays k))) e len)

  pub before-Fits :
      (arrays : List (Array A)) (a : Array A) (t : Slice)
      → Fits arrays t
      → Fits (arrays ++ (a ∷ [])) t
  before-Fits arrays a t (inside, len, cap) =
      let same = get_elem?-before arrays (a ∷ []) t.array inside in
      (omega (arith, inside, length-append arrays (a ∷ [])), rw same len, rw same cap)

  pub last-Fits :
      (arrays : List (Array A)) (a : Array A) (n : ℕ)
      → n ≤ length a.cells
      → length a.cells ≤ a.cap
      → Fits (arrays ++ (a ∷ [])) (record { array = length arrays; len = n })
  last-Fits arrays a n h k =
      let at = get_elem?-at arrays a in
      (omega (arith, length-append arrays (a ∷ [])), rw at h, rw at k)

  -- The slice that an append returns, and the slices that were there.
  pub append-Fits :
      (spare : ℕ → ℕ) (x : A) (s : Slice) (arrays : List (Array A))
      → Fits arrays s
      → Fits (append spare x s arrays).1 (append spare x s arrays).0
        × ((t : Slice) → Fits arrays t → Fits (append spare x s arrays).1 t)
  unfolding append
  append-Fits spare x s arrays h =
      elim (Bool-cases (ltb s.len (cap_of (get_elem? arrays s.array)))) [
        | inl e ↦ rw e (grown e, λ t. change-Fits s.array (put_cell s.len x) arrays t h.0 (roomy e))
        | inr e ↦ rw e (
          last-Fits arrays _ (suc s.len) (omega (arith, counted)) (omega (arith, counted)),
          before-Fits arrays _,
        )
      ]
    where
      counted : length (view arrays s ++ (x ∷ [])) ≡ suc s.len
      counted = omega (arith, length-append (view arrays s) (x ∷ []), view-length arrays s h)

      roomy :
          ltb s.len (cap_of (get_elem? arrays s.array)) ≡ true
          → IsRoomy
              (put_cell s.len x)
              (cells_of (get_elem? arrays s.array))
              (cap_of (get_elem? arrays s.array))
      roomy e =
          let (one, all, room) =
            length-put_cell s.len x (cells_of (get_elem? arrays s.array)) h.1 in
          record { longer = all; within = room _ h.2 ((ltb_iff s.len _).0 e) }

      grown :
          ltb s.len (cap_of (get_elem? arrays s.array)) ≡ true
          → Fits (change_array s.array (put_cell s.len x) arrays) (record s { len = suc s.len })
      grown e =
          let (cells, room) = cells-change_array s.array (put_cell s.len x) arrays h.0 in
          let (one, all, most) =
            length-put_cell s.len x (cells_of (get_elem? arrays s.array)) h.1 in
          (
            omega (arith, h.0, length-change_array s.array (put_cell s.len x) arrays),
            rw cells one,
            rw (cells, room) (most _ h.2 ((ltb_iff s.len _).0 e)),
          )

  length-without :
      (i n : ℕ) (xs : List A) → i < n → n ≤ length xs → length (without i n xs) ≡ length xs
  length-without i n xs h k = omega (
    arith,
    h,
    k,
    length-append (take i xs) (drop (suc i) (take n xs) ++ drop (n - 1) xs),
    length-append (drop (suc i) (take n xs)) (drop (n - 1) xs),
    length-take i xs,
    length-drop (suc i) (take n xs),
    length-take n xs,
    length-drop (n - 1) xs,
  )

  pub remove-Fits :
      (i : ℕ) (s : Slice) (arrays : List (Array A))
      → i < s.len
      → Fits arrays s
      → Fits (remove i s arrays).1 (remove i s arrays).0
        × ((t : Slice) → Fits arrays t → Fits (remove i s arrays).1 t)
  unfolding remove
  remove-Fits i s arrays l h = (shorter (all s h), all)
    where
      roomy :
          IsRoomy
            (without i s.len)
            (cells_of (get_elem? arrays s.array))
            (cap_of (get_elem? arrays s.array))
      roomy = record {
        longer = omega (arith, length-without i s.len (cells_of (get_elem? arrays s.array)) l h.1);
        within =
            omega (arith, h.2, length-without i s.len (cells_of (get_elem? arrays s.array)) l h.1);
      }

      all : (t : Slice) → Fits arrays t → Fits (change_array s.array (without i s.len) arrays) t
      all t = change-Fits s.array (without i s.len) arrays t h.0 roomy

      shorter :
          Fits (change_array s.array (without i s.len) arrays) s
          → Fits (change_array s.array (without i s.len) arrays) (record s { len = s.len - 1 })
      shorter (inside, len, cap) = (inside, omega (arith, len), cap)

  pub set_cell-Fits :
      (i : ℕ) (x : A) (s t : Slice) (arrays : List (Array A))
      → i < s.len
      → Fits arrays s
      → Fits arrays t
      → Fits (set_cell i x s arrays) t
  unfolding set_cell
  set_cell-Fits i x s t arrays l h =
      change-Fits s.array (put_cell i x) arrays t h.0
        (record { longer = omega (arith, same); within = omega (arith, same, h.2) })
    where
      same :
          length (put_cell i x (cells_of (get_elem? arrays s.array)))
          ≡ length (cells_of (get_elem? arrays s.array))
      same = length-put_cell_inside i x _ (omega (arith, l, h.1))
