-- ===== src/Runtime/Range.antt =====
-- The numbers of `__Range`.
use pugtemplate.Common.{
  ℕ, zero, suc, ◌<◌, length, get_elem?, true, false, List, [], ◌∷◌, some, ℤ, pos, negsuc, pos_part,
  ltb_ℤ, ◌+ℤ◌, ◌-ℤ◌, ◌≡◌, refl, ap, ◌∙◌, arith,
}
use pugtemplate.Common.Result.{ok}
use pugtemplate.Runtime.Builtins.{range_loop, range_ints}

done : (i m : ℤ) → pos_part (m -ℤ i) ≡ 0 → ltb_ℤ i m ≡ false
unfolding ◌-ℤ◌
done i m h = ground (arith, h)

not_done : (i m : ℤ) (k : ℕ) → pos_part (m -ℤ i) ≡ suc k → ltb_ℤ i m ≡ true
unfolding ◌-ℤ◌
not_done i m k h = ground (arith, h)

one_less : (i m : ℤ) (k : ℕ) → pos_part (m -ℤ i) ≡ suc k → pos_part (m -ℤ (i +ℤ pos 1)) ≡ k
unfolding ◌-ℤ◌ ◌+ℤ◌
one_less i m k h = ground (arith, h)

add_zero : (i : ℤ) → i ≡ i +ℤ pos 0
unfolding ◌+ℤ◌
add_zero (pos n) = ground arith
add_zero (negsuc n) = ground arith

add_suc : (i : ℤ) (n : ℕ) → i +ℤ pos 1 +ℤ pos n ≡ i +ℤ pos (suc n)
unfolding ◌+ℤ◌
add_suc (pos m) n = ground arith
add_suc (negsuc m) n = ground arith

-- The numbers from `o` on, `k` of them.
pub record CountsFrom (o : ℤ) (k : ℕ) (r : List ℤ) : Type 0 where
  pub count : length r ≡ k
  pub nth : (n : ℕ) → n < length r → get_elem? r n ≡ some (o +ℤ pos n)

next-CountsFrom :
    (o : ℤ) (k : ℕ) (r : List ℤ) → CountsFrom (o +ℤ pos 1) k r → CountsFrom o (suc k) (o ∷ r)
next-CountsFrom o k r c = record { count = ap suc c.count; nth = go }
  where
    go : (n : ℕ) → n < length (o ∷ r) → get_elem? (o ∷ r) n ≡ some (o +ℤ pos n)
    go zero h = ap some (add_zero o)
    go (suc n) h = c.nth n (omega (arith, h)) ∙ ap some (add_suc o n)

range_loop-CountsFrom :
    (k : ℕ) (i m : ℤ)
    → pos_part (m -ℤ i) ≡ k
    → (r : List ℤ) × (range_loop (suc k) i m ≡ ok r) × CountsFrom i k r
unfolding range_loop
range_loop-CountsFrom zero i m h =
    ([], rw (done i m h) refl, record { count = refl; nth = λ n l. absurd (omega (arith, l)) })
range_loop-CountsFrom (suc k) i m h =
    let rest = range_loop-CountsFrom k (i +ℤ pos 1) m (one_less i m k h) in
    (i ∷ rest.0, rw (not_done i m k h, rest.1) refl, next-CountsFrom i k rest.0 rest.2)

-- A range ends, and holds the numbers from its first one on, in order, up to but not including its
-- bound: none if the bound is not larger.
pub range_ints-CountsFrom :
    (o m : ℤ) → (r : List ℤ) × (range_ints o m ≡ ok r) × CountsFrom o (pos_part (m -ℤ o)) r
unfolding range_ints
range_ints-CountsFrom o m = range_loop-CountsFrom (pos_part (m -ℤ o)) o m refl
