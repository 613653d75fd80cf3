-- ===== src/Objects/Splitting.antt =====
-- `Split` and `Replace` of a String take a text apart in the same places.
use pugtemplate.Common.{
  Text, ℕ, zero, suc, ◌-◌, length, drop, has_prefix, has_prefix_sound, replace_from, replace_all,
  join, List, [], ◌∷◌, ◌++◌, ◌≡◌, ◌≢◌, refl, sym, ap, ◌∙◌, arith, Bool-cases, inl, inr,
}
use pugtemplate.Objects.Strings.{split_from, split_text, replace}

abbrev parts : Text × List Text → List Text
parts p = p.0 ∷ p.1

join-cons :
    (with : Text) (c : ℕ) (t : Text) (ts : List Text)
    → join with ((c ∷ t) ∷ ts) ≡ c ∷ join with (t ∷ ts)
unfolding join
join-cons with c t [] = refl
join-cons with c t (u ∷ ts) = refl

replace_from-split_from :
    (old with : Text) (k : ℕ) (s : Text)
    → replace_from old with k s ≡ join with (parts (split_from old k s))
unfolding replace_from split_from join
replace_from-split_from old with k [] = refl
replace_from-split_from old with (suc k) (c ∷ s) = replace_from-split_from old with k s
replace_from-split_from old with zero (c ∷ s) = elim (Bool-cases (has_prefix old (c ∷ s))) [
  | inl h ↦ rw h (ap (λ t. with ++ t) (replace_from-split_from old with (length old - 1) s))
  | inr h ↦
      rw h (
        ap (λ (t : Text). c ∷ t) (replace_from-split_from old with 0 s)
        ∙ sym (join-cons with c _ _))
]

pred_suc : (n : ℕ) → suc n - 1 ≡ n
pred_suc n = omega arith

-- Replacing a text by itself changes nothing.
replace_from-same :
    (b : ℕ) (old : Text) (k : ℕ) (s : Text) → replace_from (b ∷ old) (b ∷ old) k s ≡ drop k s
unfolding replace_from
replace_from-same b old zero [] = refl
replace_from-same b old (suc k) [] = refl
replace_from-same b old (suc k) (c ∷ s) = replace_from-same b old k s
replace_from-same b old zero (c ∷ s) = elim (Bool-cases (has_prefix (b ∷ old) (c ∷ s))) [
  | inl h ↦ rw h (
      ap (λ (t : Text). (b ∷ old) ++ t)
        (replace_from-same b old (suc (length old) - 1) s
          ∙ ap (λ n. drop n s) (pred_suc (length old)))
      ∙ sym (has_prefix_sound (b ∷ old) (c ∷ s) h))
  | inr h ↦ rw h (ap (λ (t : Text). c ∷ t) (replace_from-same b old 0 s))
]

-- Replacing a text that is not empty is splitting at it and joining with the new one; so the parts
-- of a split, joined with the separator, are the text that was split.
pub replace-split_text :
    (s what with : Text)
    → what ≢ []
    → (replace s what with ≡ join with (split_text s what)) × (join what (split_text s what) ≡ s)
unfolding replace replace_all split_text
replace-split_text s [] with h = absurd (h refl)
replace-split_text s (b ∷ what) with h = (
  replace_from-split_from (b ∷ what) with 0 s,
  sym (replace_from-split_from (b ∷ what) (b ∷ what) 0 s) ∙ replace_from-same b what 0 s,
)
