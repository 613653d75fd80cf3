-- ===== src/Functions/Extremes.antt =====
-- What `Math.Min` and `Math.Max` return.
use pugtemplate.Common.{
  Bool, true, false, List, [], ◌∷◌, if◌then◌else◌, ◌≡◌, refl, All, Bool-cases, inl, inr,
}
use pugtemplate.Common.Result.{ok}
use pugtemplate.Functions.Small.{float_of, extreme_loop, math_min, math_max}
use pugtemplate.Runtime.Order.{HasOrder}
use pugtemplate.Runtime.Value.{Floats, Value, kind}

module _ (fl : Floats) where
  -- Values that are numbers, with the floats that they are converted to.
  pub data AreFloats : List (Value fl) → List fl.F → Type 0 where
    none : AreFloats [] []
    also :
        (v : Value fl) (f : fl.F) {vs : List (Value fl)} {fs : List fl.F}
        → float_of fl (kind fl v) ≡ ok f
        → AreFloats vs fs
        → AreFloats (v ∷ vs) (f ∷ fs)

  -- `<` on floats is transitive, with NaN too.
  abbrev pub IsTransitive : (fl.F → fl.F → Bool) → Type 0
  IsTransitive lt = (x y z : fl.F) → lt x y ≡ true → lt y z ≡ true → lt x z ≡ true

  module _ (lt : fl.F → fl.F → Bool) (irrefl : (x : fl.F) → lt x x ≡ false)
      (trans : IsTransitive lt) where
    -- What does not come before the result does not come before the next one.
    still_excluded :
        (x f res : fl.F) → lt x res ≡ false → lt x (if lt f res then f else res) ≡ false
    still_excluded x f res h = elim (Bool-cases (lt f res)) [
      | inl e ↦
          rw e
            (elim (Bool-cases (lt x f)) [ inl k ↦ absurd (cc (h, trans x f res k e)) | inr k ↦ k ])
      | inr e ↦ rw e h
    ]

    now_excluded : (f res : fl.F) → lt f (if lt f res then f else res) ≡ false
    now_excluded f res = elim (Bool-cases (lt f res)) [ inl e ↦ rw e (irrefl f) | inr e ↦ rw e e ]

    extreme_loop-excludes :
        (vs : List (Value fl)) (fs : List fl.F) (res : fl.F)
        → AreFloats vs fs
        → (m : fl.F) × (extreme_loop fl lt vs res ≡ ok m)
          × ((x : fl.F) → lt x res ≡ false → lt x m ≡ false)
          × All (λ f. lt f m ≡ false) fs
    unfolding extreme_loop
    extreme_loop-excludes vs fs res none = (res, refl, (λ x h. h), tt)
    extreme_loop-excludes vs fs res (also v f {vs = ws} {fs = gs} e h) =
        let r = extreme_loop-excludes ws gs (if lt f res then f else res) h in
        (
          r.0,
          rw e r.1,
          (λ x k. r.2 x (still_excluded x f res k)),
          (r.2 f (now_excluded f res), r.3),
        )

  irreflexive : HasOrder fl → (x : fl.F) → fl.lt x x ≡ false
  irreflexive o x = elim (Bool-cases (fl.lt x x)) [ inl e ↦ o.lt_asym x x e | inr e ↦ e ]

  -- On numbers `Math.Min` returns one than which none of them is smaller, and `Math.Max` one than
  -- which none is larger, if the order of floats is transitive; neither panics.
  pub math_min-math_max :
      (vs : List (Value fl)) (fs : List fl.F) (max_float smallest_nonzero : fl.F)
      → HasOrder fl
      → IsTransitive fl.lt
      → AreFloats vs fs
      → ((m : fl.F) × (math_min fl max_float vs ≡ ok m) × All (λ f. fl.lt f m ≡ false) fs)
        × ((m : fl.F) × (math_max fl smallest_nonzero vs ≡ ok m) × All (λ f. fl.lt m f ≡ false) fs)
  unfolding math_min math_max
  math_min-math_max vs fs max_float smallest_nonzero o trans h =
      let low = extreme_loop-excludes fl.lt (irreflexive o) trans vs fs max_float h in
      let high =
        extreme_loop-excludes (λ x y. fl.lt y x) (irreflexive o) (λ x y z e f. trans z y x f e) vs
          fs smallest_nonzero h in
      ((low.0, low.1, low.3), (high.0, high.1, high.3))
