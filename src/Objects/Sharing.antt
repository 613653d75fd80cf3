-- ===== src/Objects/Sharing.antt =====
-- Arrays as lists, and what two arrays over one backing array do to each other.
use pugtemplate.Common.{
  ℕ, zero, suc, ◌+◌, ◌-◌, ◌≤◌, ◌<◌, true, false, [], ◌∷◌, ◌++◌, ◌==◌, ltb, leb, ◌≡◌, refl, arith,
  Bool-cases, inl, inr, ap, ◌∙◌,
}
use pugtemplate.Common.Result.{ok}
use pugtemplate.Objects.Array.{
  Store, Slice, read, items, write_cell, grown, push, pop, splice, kept, cut_off,
}

less_one : (n : ℕ) → n + 1 - 1 ≡ n
less_one n = omega arith

nonzero : (n : ℕ) → ((n + 1) == 0) ≡ false
nonzero n = ground arith

module _ {A : Type 0} where
  read-cong :
      (f g : ℕ → A) (i j n : ℕ)
      → ((k : ℕ) → k < n → f (i + k) ≡ g (j + k))
      → read f i n ≡ read g j n
  read-cong f g i j zero h = refl
  read-cong f g i j (suc n) h =
      let here : f i ≡ g j = ap f (omega arith) ∙ h 0 (omega arith) ∙ ap g (omega arith) in
      rw
        (
          here,
          read-cong f g (i + 1) (j + 1) n
              λ k l. ap f (omega arith) ∙ h (k + 1) (omega arith) ∙ ap g (omega arith),
        )
        refl

  read_end : (f : ℕ → A) (i n : ℕ) → read f i (suc n) ≡ read f i n ++ (f (i + n) ∷ [])
  read_end f i zero = ap (λ k. f k ∷ []) (omega arith)
  read_end f i (suc n) =
      ap (◌∷◌ (f i)) (read_end f (i + 1) n ∙ ap (λ k. read f (i + 1) n ++ (f k ∷ [])) (omega arith))

  write_cell-hit : (b i : ℕ) (x : A) (cells : ℕ → ℕ → A) → write_cell b i x cells b i ≡ x
  write_cell-hit b i x cells = ground arith

  write_cell-miss :
      (b i : ℕ) (x : A) (cells : ℕ → ℕ → A) (c j : ℕ)
      → (j == i) ≡ false
      → write_cell b i x cells c j ≡ cells c j
  write_cell-miss b i x cells c j h = ground (arith, h)

  grown-old :
      (b : ℕ) (a : Slice) (x : A) (cells : ℕ → ℕ → A) (j : ℕ)
      → (j == a.len) ≡ false
      → grown b a x cells b j ≡ cells a.backing (a.offset + j)
  grown-old b a x cells j h = ground (arith, h)

  grown-new : (b : ℕ) (a : Slice) (x : A) (cells : ℕ → ℕ → A) → grown b a x cells b a.len ≡ x
  grown-new b a x cells = ground arith

  -- Cells with the same items and one more behind them.
  read-extended :
      (f g : ℕ → A) (x : A) (i j n : ℕ)
      → ((k : ℕ) → k < n → g (j + k) ≡ f (i + k))
      → g (j + n) ≡ x
      → read g j (n + 1) ≡ read f i n ++ (x ∷ [])
  read-extended f g x i j n h e =
      let one_more : n + 1 ≡ suc n = omega arith in
      ap (read g j) one_more ∙ read_end g j n ∙ rw (read-cong g f j i n h, e) refl

  -- Push puts the item behind those that the array had, whether there is capacity or not.
  pub push-items :
      (grow : ℕ → ℕ) (x : A) (s : Store A) (a : Slice)
      → items (push grow x s a).0 (push grow x s a).1 ≡ items s a ++ (x ∷ [])
  unfolding push
  push-items grow x s a = elim (Bool-cases (ltb a.len a.cap)) [
    | inl f ↦ rw f (
        read-extended (s.cells a.backing) _ x a.offset a.offset a.len
          (λ k l.
            write_cell-miss a.backing (a.offset + a.len) x s.cells a.backing (a.offset + k)
              (ground arith))
          (write_cell-hit a.backing (a.offset + a.len) x s.cells))
    | inr f ↦ rw f (
        read-extended (s.cells a.backing) _ x a.offset 0 a.len
          (λ k l.
            grown-old s.next a x s.cells (0 + k) (ground arith)
            ∙ ap (λ m. s.cells a.backing (a.offset + m)) (omega arith))
          (ap (grown s.next a x s.cells s.next) (omega arith) ∙ grown-new s.next a x s.cells))
  ]

  overwritten :
      (b i n : ℕ) (x : A) (cells : ℕ → ℕ → A)
      → read (write_cell b i x cells b) i (suc n) ≡ x ∷ read (cells b) (i + 1) n
  overwritten b i n x cells =
      rw
        (
          write_cell-hit b i x cells,
          read-cong (write_cell b i x cells b) (cells b) (i + 1) (i + 1) n
              λ k l. write_cell-miss b i x cells b (i + 1 + k) (ground arith),
        )
        refl

  -- Splice within the array and then Push on what is left of it: the pushed item replaces the first
  -- of the items that were cut off.
  pub splice-push :
      (grow : ℕ → ℕ) (n : ℕ) (x : A) (s : Store A) (a : Slice)
      → n < a.len
      → a.len ≤ a.cap
      → (splice n a ≡ ok (kept n a, cut_off n a))
        × (items (push grow x s (kept n a)).0 (cut_off n a) ≡ x ∷ items s (cut_off (n + 1) a))
  unfolding push splice
  splice-push grow n x s a l c =
      let within : leb n a.len ≡ true = ground arith in
      let one_more : a.len - n ≡ suc (a.len - (n + 1)) = omega (arith, l) in
      let room : ltb n a.cap ≡ true = ground arith in
      (
        rw within refl,
        rw room (
            ap (read (write_cell a.backing (a.offset + n) x s.cells a.backing) (a.offset + n))
              one_more
            ∙ overwritten a.backing (a.offset + n) (a.len - (n + 1)) x s.cells
            ∙ ap (λ i. x ∷ read (s.cells a.backing) i (a.len - (n + 1))) (omega arith)),
      )

  popped :
      (s : Store A) (a : Slice) (n : ℕ)
      → a.len ≡ n + 1
      → pop s a ≡ ok (s.cells a.backing (a.offset + n), record a { len = n })
  unfolding pop
  popped s a n h = rw (h, less_one n, nonzero n) refl

  -- Pop after Push gives the item that was pushed, and leaves the items as they were.
  pub push-pop :
      (grow : ℕ → ℕ) (x : A) (s : Store A) (a : Slice)
      → (a' : Slice) × (pop (push grow x s a).0 (push grow x s a).1 ≡ ok (x, a'))
        × (items (push grow x s a).0 a' ≡ items s a)
  unfolding push
  push-pop grow x s a = elim (Bool-cases (ltb a.len a.cap)) [
    | inl f ↦ rw f (
      record a { len = a.len },
      popped (record s { cells = write_cell a.backing (a.offset + a.len) x s.cells })
            (record a { len = a.len + 1 }) a.len refl
          ∙ ap (λ v. ok (v, a)) (write_cell-hit a.backing (a.offset + a.len) x s.cells),
      read-cong (write_cell a.backing (a.offset + a.len) x s.cells a.backing) (s.cells a.backing)
          a.offset a.offset a.len
          λ k l.
            write_cell-miss a.backing (a.offset + a.len) x s.cells a.backing (a.offset + k)
              (ground arith),
    )
    | inr f ↦ rw f (
      record { backing = s.next; offset = 0; len = a.len; cap = grow a.len },
      popped (record { cells = grown s.next a x s.cells; next = s.next + 1 })
            (record { backing = s.next; offset = 0; len = a.len + 1; cap = grow a.len }) a.len refl
          ∙ ap (λ v. ok (v, record { backing = s.next; offset = 0; len = a.len; cap = grow a.len }))
              (ap (grown s.next a x s.cells s.next) (omega arith) ∙ grown-new s.next a x s.cells),
      read-cong (grown s.next a x s.cells s.next) (s.cells a.backing) 0 a.offset a.len λ k l.
          grown-old s.next a x s.cells (0 + k) (ground arith)
          ∙ ap (λ m. s.cells a.backing (a.offset + m)) (omega arith),
    )
  ]
