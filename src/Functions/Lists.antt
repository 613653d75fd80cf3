-- ===== src/Functions/Lists.antt =====
-- The lists that template functions return, and the lengths of their texts.
use pugtemplate.Common.{
  Text, text_eq, lit, ℕ, zero, suc, ◌+◌, ◌≤◌, ◌<◌, length, length-append, length-take, take, true,
  false, ◌||◌, List, [], ◌∷◌, ◌++◌, any, pos, negsuc, ltb_ℤ, ◌≡◌, ◌⊎◌, refl, ap, ◌∙◌, arith,
  Bool-cases, inl, inr,
}
use pugtemplate.Common.Result.{ok, panicked}
use pugtemplate.Objects.Keys.{VisitsAll, IsOrdered, keys-has_member}
use pugtemplate.Objects.Map.{Map, Runtime, has_member, keys}
use pugtemplate.Functions.Small.{insert, sort_strings, object_keys, truncate}
use pugtemplate.Runtime.Compare.{text_lt}
use pugtemplate.Runtime.Order.{text_lt_asym}

-- The first text of a list, if there is one, does not come before a text.
abbrev pub IsAbove : Text → List Text → Type 0
IsAbove s [] = Unit
IsAbove s (t ∷ ts) = text_lt t s ≡ false

-- Every text is followed by one that does not come before it.
abbrev pub IsSorted : List Text → Type 0
IsSorted [] = Unit
IsSorted (s ∷ ts) = IsAbove s ts × IsSorted ts

insert-IsAbove :
    (b s : Text) (ts : List Text) → text_lt s b ≡ false → IsAbove b ts → IsAbove b (insert s ts)
unfolding insert
insert-IsAbove b s [] h k = h
insert-IsAbove b s (t ∷ ts) h k = elim (Bool-cases (text_lt t s)) [
  | inl e ↦ rw e k
  | inr e ↦ rw e h
]

insert-IsSorted : (s : Text) (ts : List Text) → IsSorted ts → IsSorted (insert s ts)
unfolding insert
insert-IsSorted s [] h = (tt, tt)
insert-IsSorted s (t ∷ ts) h = elim (Bool-cases (text_lt t s)) [
  | inl e ↦ rw e (insert-IsAbove t s ts (text_lt_asym t s e) h.0, insert-IsSorted s ts h.1)
  | inr e ↦ rw e (e, h)
]

sort_strings-IsSorted : (ss : List Text) → IsSorted (sort_strings ss)
unfolding sort_strings
sort_strings-IsSorted [] = tt
sort_strings-IsSorted (s ∷ ss) = insert-IsSorted s (sort_strings ss) (sort_strings-IsSorted ss)

any-insert :
    (k s : Text) (ts : List Text)
    → any (text_eq k) (insert s ts) ≡ (text_eq k s || any (text_eq k) ts)
unfolding insert
any-insert k s [] = refl
any-insert k s (t ∷ ts) = ground (arith, any-insert k s ts)

any-sort_strings :
    (k : Text) (ss : List Text) → any (text_eq k) (sort_strings ss) ≡ any (text_eq k) ss
unfolding sort_strings
any-sort_strings k [] = refl
any-sort_strings k (s ∷ ss) =
    any-insert k s (sort_strings ss) ∙ ap (λ b. text_eq k s || b) (any-sort_strings k ss)

module _ {A : Type 0} where
  -- `Object.Keys` lists exactly the members of a map, in lexical order, if the order of the map is
  -- complete.
  pub object_keys-IsSorted :
      (r : Runtime) (m : Map A)
      → VisitsAll r
      → IsOrdered m
      → IsSorted (object_keys r m).1
        × ((k : Text) → any (text_eq k) (object_keys r m).1 ≡ has_member k m)
  unfolding object_keys
  object_keys-IsSorted r m v o = (
    sort_strings-IsSorted (keys r m).1,
    λ k. any-sort_strings k (keys r m).1 ∙ (keys-has_member r m v o).0 k,
  )

take-take : (n : ℕ) (s t : Text) → n ≤ length s → take n (take n s ++ t) ≡ take n s
take-take zero s t h = refl
take-take (suc n) [] t h = absurd (omega (arith, h))
take-take (suc n) (c ∷ s) t h = ap (λ (u : Text). c ∷ u) (take-take n s t (omega (arith, h)))

longer : (n k : ℕ) → ltb_ℤ (pos n) (pos k) ≡ true → n < k
longer n k h = ground (arith, h)

not_longer : (n k : ℕ) → ltb_ℤ (pos n) (pos k) ≡ false → k ≤ n
not_longer n k h = ground (arith, h)

-- `truncate` to a length that is not negative gives a text that starts with the same bytes up to
-- that length and is at most three bytes longer than it; it is the text itself unless that is
-- longer. A negative length panics.
pub truncate_bounds :
    (str : Text)
    → ((n : ℕ)
        → (t : Text) × (truncate str (pos n) ≡ ok t)
          × (take n t ≡ take n str)
          × (length t ≤ n + 3)
          × ((t ≡ str) ⊎ (n < length str)))
      × ((n : ℕ) → truncate str (negsuc n) ≡ panicked)
unfolding truncate lit
truncate_bounds str = (cut, λ n. rw (all_longer n (length str)) refl)
  where
    all_longer : (n k : ℕ) → ltb_ℤ (negsuc n) (pos k) ≡ true
    all_longer n k = ground arith

    cut :
        (n : ℕ)
        → (t : Text) × (truncate str (pos n) ≡ ok t)
          × (take n t ≡ take n str)
          × (length t ≤ n + 3)
          × ((t ≡ str) ⊎ (n < length str))
    cut n = elim (Bool-cases (ltb_ℤ (pos n) (pos (length str)))) [
      | inl e ↦ (
        take n str ++ lit "...",
        rw e refl,
        take-take n str (lit "...") (omega (arith, longer n (length str) e)),
        omega (arith, length-append (take n str) (lit "..."), length-take n str),
        inr (longer n (length str) e),
      )
      | inr e ↦ (str, rw e refl, refl, omega (arith, not_longer n (length str) e), inl refl)
    ]
