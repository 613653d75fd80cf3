-- ===== src/Template/Scoping.antt =====
-- Reading and writing variables by name (pugjs/tpl_exec.go).
use pugtemplate.Common.{
  Text, text_eq, text_eq_iff, text_eq_refl, ℕ, suc, ◌<◌, List, [], ◌∷◌, ◌++◌, Option, none, some,
  length, ◌≡◌, refl, sym, ap, ◌∙◌, subst, arith, false, Bool-cases, Option-cases, inl, inr,
}
use pugtemplate.Template.Slices.{put_cell}
use pugtemplate.Template.State.{Variable}
use pugtemplate.Template.Variables.{find_var, find_index, or_this, or_index}

module _ {V : Type 0} where
  abbrev pub variable : Text → V → Variable V
  variable n v = record { name = n; value = v }

  -- What is read of a list once a variable is written: the value, and the others as before.
  pub record Written (n : Text) (v : V) (xs ys : List (Variable V)) : Type 0 where
    pub here : find_var n ys ≡ some v
    pub others : (m : Text) → text_eq n m ≡ false → find_var m ys ≡ find_var m xs

  pub behind-Written :
      (n : Text) (v : V) (xs : List (Variable V)) → Written n v xs (xs ++ (variable n v ∷ []))
  unfolding find_var
  behind-Written n v [] = record { here = rw (text_eq_refl n) refl; others = λ m h. rw h refl }
  behind-Written n v (x ∷ xs) =
      let later = behind-Written n v xs in
      record {
        here = ap (or_this n x) later.here;
        others = λ m h. ap (or_this m x) (later.others m h);
      }

  first-none :
      (n : Text) (x : Variable V) (o : Option ℕ)
      → or_index n x o ≡ none
      → (o ≡ none) × (text_eq x.name n ≡ false)
  first-none n x none h = (refl, ground (arith, h))
  first-none n x (some i) h = ground (arith, h)

  pub index-none :
      (n : Text) (xs : List (Variable V)) → find_index n xs ≡ none → find_var n xs ≡ none
  unfolding find_index find_var
  index-none n [] h = refl
  index-none n (x ∷ xs) h =
      let (later, other) = first-none n x (find_index n xs) h in
      ap (or_this n x) (index-none n xs later) ∙ rw other refl

  -- A variable of another name hides nothing, whichever of two it is.
  this-other :
      (n m : Text) (x y : Variable V) (o : Option V)
      → x.name ≡ n
      → y.name ≡ n
      → text_eq n m ≡ false
      → or_this m y o ≡ or_this m x o
  this-other n m x y none e f h = rw (e, f, h) refl
  this-other n m x y (some v) e f h = refl

  first-some :
      (n : Text) (x : Variable V) (i : ℕ) → or_index n x none ≡ some i → (i ≡ 0) × (x.name ≡ n)
  first-some n x i h = elim (Bool-cases (text_eq x.name n)) [
    | inl e ↦ (ground (arith, h, e), (text_eq_iff x.name n).0 e)
    | inr e ↦ absurd (ground (arith, h, e))
  ]

  next_index : (n : Text) (x : Variable V) (i j : ℕ) → or_index n x (some j) ≡ some i → suc j ≡ i
  next_index n x i j h = ground (arith, h)

  -- A variable written in its place.
  pub found-Written :
      (n : Text) (v : V) (xs : List (Variable V)) (i : ℕ)
      → find_index n xs ≡ some i
      → (i < length xs) × Written n v xs (put_cell i (variable n v) xs)
  unfolding find_index find_var
  found-Written n v [] i h = absurd (ground (arith, h))
  found-Written n v (x ∷ xs) i h = elim (Option-cases (find_index n xs)) [
    | inl e ↦
        let (zero_at, same) = first-some n x i (ap (or_index n x) (sym e) ∙ h) in
        subst
          (λ k. (k < length (x ∷ xs)) × Written n v (x ∷ xs) (put_cell k (variable n v) (x ∷ xs)))
          (sym zero_at)
          (
            omega arith,
            record {
              here = ap (or_this n (variable n v)) (index-none n xs e) ∙ rw (text_eq_refl n) refl;
              others = λ m k. this-other n m x (variable n v) (find_var m xs) same refl k;
            },
          )
    | inr (j, e) ↦
        let (inside, later) = found-Written n v xs j e in
        subst
          (λ k. (k < length (x ∷ xs)) × Written n v (x ∷ xs) (put_cell k (variable n v) (x ∷ xs)))
          (next_index n x i j (ap (or_index n x) (sym e) ∙ h))
          (
            omega (arith, inside),
            record {
              here = ap (or_this n x) later.here;
              others = λ m k. ap (or_this m x) (later.others m k);
            },
          )
  ]
