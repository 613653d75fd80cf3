-- ===== src/Js/Fuel/Loop.antt =====
-- Every bound of the model is enough: interpolation ends, and so does the translation of every
-- source text, whatever the JavaScript parser makes of it.
use pugtemplate.Common.{
  Text, lit, ℕ, zero, suc, ◌+◌, ◌-◌, ◌*◌, ◌≤◌, ◌<◌, true, not, ◌&&◌, ◌++◌, ◌==◌, ltb, length,
  length-append, length-take, length-drop, take, drop, if◌then◌else◌, ◌≡◌, ◌≢◌, refl, arith,
  Bool-cases, ltb_iff, inl, inr,
}
use pugtemplate.Common.Result.{Result, Ends, ◌>>=◌, >>=-Ends}
use pugtemplate.Js.Interpolate.{scan, splice, slice, interpolate, byte_at}

module _ (js : Text → Result Text) (bound : ℕ)
    (sub : (t : Text) → length t < bound → Ends (js t)) where
  length-slice-le : (s : Text) (start index : ℕ) → length (slice s start index) ≤ length s - start
  length-slice-le s start index =
      omega (arith, length-take (index - start) (drop start s), length-drop start s)

  length-splice-le :
      (s t : Text) (start index : ℕ)
      → 2 ≤ start
      → index < length s
      → length (splice s start index t) ≤ start + length t + 1 + (length s - index)
  unfolding splice lit
  length-splice-le s t start index h k = omega (
    arith,
    length-append (take (start - 2) s) (lit "\" " ++ (t ++ (lit " \"" ++ drop (index + 1) s))),
    length-append t (lit " \"" ++ drop (index + 1) s),
    length-take (start - 2) s,
    length-drop (index + 1) s,
  )

  -- What the loop keeps: an open brace lies behind at least two bytes.
  record IsReady (input : Text) (index start : ℕ) : Type 0 where
    behind : 1 ≤ index
    opened : start ≢ 0 → 2 ≤ start
    short : length input - index ≤ bound
    inner : start ≢ 0 → length input - start < bound

  abbrev measure : Text → ℕ → ℕ → ℕ
  measure input index start = 2 * (length input - index) + (if start == 0 then 0 else 1)

  skip-IsReady :
      {input : Text} {index start : ℕ} → IsReady input index start → IsReady input (index + 1) start
  skip-IsReady r = record {
    behind = omega arith;
    opened = r.opened;
    short = omega (arith, r.short);
    inner = r.inner;
  }

  open-IsReady :
      {input : Text} {index start : ℕ}
      → IsReady input index start
      → index < length input
      → IsReady input (index + 1) (index + 1)
  open-IsReady r lt = record {
    behind = omega arith;
    opened = λ _. omega (arith, r.behind);
    short = omega (arith, r.short);
    inner = λ _. omega (arith, r.short);
  }

  close-IsReady :
      (input t : Text) (index start : ℕ)
      → IsReady input index start
      → start ≢ 0
      → index < length input
      → IsReady (splice input start index t) (start + length t + 1) 0
  close-IsReady input t index start r ne lt = record {
    behind = omega arith;
    opened = λ h. absurd (h refl);
    short = omega (arith, r.short, length-splice-le input t start index (r.opened ne) lt);
    inner = λ h. absurd (h refl);
  }

  skip_measure :
      (input : Text) (index start fuel : ℕ)
      → measure input index start < suc fuel
      → index < length input
      → measure input (index + 1) start < fuel
  skip_measure input index start fuel h lt = ground arith

  open_measure :
      (input : Text) (index start fuel : ℕ)
      → measure input index start < suc fuel
      → index < length input
      → measure input (index + 1) (index + 1) < fuel
  open_measure input index start fuel h lt = ground arith

  close_measure :
      (input t : Text) (index start fuel : ℕ)
      → measure input index start < suc fuel
      → 2 ≤ start
      → index < length input
      → measure (splice input start index t) (start + length t + 1) 0 < fuel
  close_measure input t index start fuel h two lt =
      ground (arith, length-splice-le input t start index two lt)

  closing : (c start : ℕ) → (c == 125 && not (start == 0)) ≡ true → start ≢ 0
  closing c start h = ground arith

  scan-Ends :
      (fuel : ℕ) (input : Text) (index start : ℕ)
      → IsReady input index start
      → measure input index start < fuel
      → Ends (scan js fuel input index start)
  unfolding scan
  scan-Ends zero input index start r h = absurd (omega arith)
  scan-Ends (suc fuel) input index start r h = elim (Bool-cases (ltb index (length input))) [
    | inr e ↦ rw e tt
    | inl e ↦
        let lt : index < length input = (ltb_iff _ _).0 e in
        let skip =
          scan-Ends fuel input (index + 1) start (skip-IsReady r)
            (skip_measure input index start fuel h lt) in
        let close_brace : start ≢ 0
            → Ends (
                js (slice input start index) >>= λ t.
                scan js fuel (splice input start index t) (start + length t + 1) 0) =
          λ ne.
            >>=-Ends (js (slice input start index)) _
              (sub _ (omega (arith, length-slice-le input start index, r.inner ne)))
              λ t.
                scan-Ends fuel (splice input start index t) (start + length t + 1) 0
                  (close-IsReady input t index start r ne lt)
                  (close_measure input t index start fuel h (r.opened ne) lt) in
        let open_brace =
          scan-Ends fuel input (index + 1) (index + 1) (open-IsReady r lt)
            (open_measure input index start fuel h lt) in
        rw e (elim (Bool-cases (byte_at input index == 92)) [
          | inl b ↦ rw b skip
          | inr b ↦
              rw b
                (elim (Bool-cases (byte_at input index == 123 && byte_at input (index - 1) == 36)) [
                  | inl c ↦ rw c open_brace
                  | inr c ↦
                      rw c (elim (Bool-cases (byte_at input index == 125 && not (start == 0))) [
                        | inr d ↦ rw d skip
                        | inl d ↦ rw d (close_brace (closing _ _ d))
                      ])
                ])
        ])
  ]

  pub interpolate-Ends : (s : Text) → length s ≤ suc bound → Ends (interpolate js s)
  unfolding interpolate
  interpolate-Ends s h =
      scan-Ends (2 * length s + 1) s 1 0
        (record {
          behind = omega arith;
          opened = λ ne. absurd (ne refl);
          short = omega arith;
          inner = λ ne. absurd (ne refl);
        })
        (omega arith)
