-- ===== src/Runtime/Bounds.antt =====
-- The integers that the arithmetic operators return.
use pugtemplate.Common.{
  ◌%◌, ◌<◌, ltb, leb, Bool, true, false, ◌&&◌, ℤ, pos, ◌+ℤ◌, ◌-ℤ◌, ◌*ℤ◌, wrap64, wrap64-InRange,
  wrap64-of_InRange, rem_ℤ, abs_ℤ, abs_ℤ-rem_ℤ, InRange, pos_part, neg_part, ◌==◌, [], ◌∷◌, ◌≡◌,
  refl, arith, Bool-cases, inl, inr, ◌⊎◌,
}
use Prim.Native.Nat.{◌^◌}
use native.Mathlib.Nat.{mod-lt}
use pugtemplate.Common.Result.{ok, panicked}
use pugtemplate.Runtime.Value.{Floats, Value, kind}
use pugtemplate.Runtime.Arithmetic.{
  runtime_inc, runtime_dec, runtime_sub, runtime_mul, runtime_rem, checked_rem,
}

-- What is returned in place of an integer: an int, and the integer itself unless no int can hold it.
pub record IsExact (r true_result : ℤ) : Type 0 where
  pub in_range : InRange r
  pub exact : (r ≡ true_result) ⊎ (InRange true_result → ⊥)

abbrev fits : ℤ → Bool
fits x = ltb (pos_part x) (2 ^ 63) && leb (neg_part x) (2 ^ 63)

InRange-fits : (x : ℤ) → fits x ≡ true → InRange x
InRange-fits x h = ground (arith, h)

fits-InRange : (x : ℤ) → fits x ≡ false → InRange x → ⊥
fits-InRange x h r = ground (arith, h, r)

wrap64-IsExact : (x : ℤ) → IsExact (wrap64 x) x
wrap64-IsExact x = record {
  in_range = wrap64-InRange x;
  exact = elim (Bool-cases (fits x)) [
    | inl h ↦ inl (wrap64-of_InRange x (InRange-fits x h))
    | inr h ↦ inr (fits-InRange x h)
  ];
}

-- The signs of a dividend and its remainder.
rem_ℤ-sign :
    (i j : ℤ)
    → ((neg_part i ≡ 0) × (neg_part (rem_ℤ i j) ≡ 0))
      ⊎ ((pos_part i ≡ 0) × (pos_part (rem_ℤ i j) ≡ 0))
unfolding rem_ℤ
rem_ℤ-sign (ℤ.pos n) j = inl (refl, refl)
rem_ℤ-sign (ℤ.negsuc n) j = inr (refl, ground arith)

module _ (fl : Floats) where
  -- On integers the operators are the operations on integers, wherever the result fits in 64 bits,
  -- and always return a number of 64 bits.
  pub integers-IsExact :
      (i j : ℤ)
      → IsExact (runtime_inc fl (Value.int i)) (i +ℤ pos 1)
        × IsExact (runtime_dec fl (Value.int i)) (i -ℤ pos 1)
        × ((r : ℤ) × (runtime_sub fl (Value.int i ∷ Value.int j ∷ []) ≡ ok (Value.int r))
            × IsExact r (i -ℤ j))
        × ((r : ℤ) × (runtime_sub fl (Value.int i ∷ []) ≡ ok (Value.int r))
            × IsExact r (pos 0 -ℤ i))
        × ((r : ℤ) × (runtime_mul fl (Value.int i) (Value.int j) ≡ Value.int r)
            × IsExact r (i *ℤ j))
  unfolding runtime_inc runtime_dec runtime_sub runtime_mul kind
  integers-IsExact i j = (
    wrap64-IsExact _,
    wrap64-IsExact _,
    (_, refl, wrap64-IsExact _),
    (_, refl, wrap64-IsExact _),
    (_, refl, wrap64-IsExact _),
  )

  -- The remainder of integers fails exactly on a divisor of zero; otherwise it is smaller than the
  -- divisor, it is the remainder of the absolute values, and neither it nor the dividend is negative,
  -- or neither is positive.
  pub runtime_rem-integers :
      (i j : ℤ)
      → ((abs_ℤ j ≡ 0) × (runtime_rem fl (Value.int i) (Value.int j) ≡ panicked))
        ⊎ ((r : ℤ) × (runtime_rem fl (Value.int i) (Value.int j) ≡ ok (Value.int r))
            × (abs_ℤ r < abs_ℤ j)
            × (abs_ℤ r ≡ abs_ℤ i % abs_ℤ j)
            × (((neg_part i ≡ 0) × (neg_part r ≡ 0)) ⊎ ((pos_part i ≡ 0) × (pos_part r ≡ 0))))
  unfolding runtime_rem kind checked_rem
  runtime_rem-integers i j = elim (Bool-cases (abs_ℤ j == 0)) [
    | inl z ↦ inl (ground (arith, z), rw z refl)
    | inr n ↦ inr (
      rem_ℤ i j,
      rw n refl,
      omega (arith, abs_ℤ-rem_ℤ i j, mod-lt (abs_ℤ i) {m = abs_ℤ j} (ground (arith, n))),
      abs_ℤ-rem_ℤ i j,
      rem_ℤ-sign i j,
    )
  ]
