-- ===== src/Objects/Cutting.antt =====
-- The bounds of `Slice` and `CharAt` of a String, and where `IndexOf` finds a part.
use pugtemplate.Common.{
  ◌+ℤ◌, ltb, ltb_iff, subst, Text, ℕ, zero, suc, ◌-◌, ◌+◌, ◌≤◌, ◌<◌, length, take, drop,
  length-take, length-drop, take-append-drop, has_prefix, leb, true, false, [], ◌∷◌, ◌++◌, Option,
  none, some, ℤ, pos, negsuc, pos_part, ◌≡◌, ◌⊎◌, refl, sym, ap, ◌∙◌, arith, Bool-cases, inl, inr,
}
use pugtemplate.Common.Result.{Result, ok, panicked}
use pugtemplate.Objects.Strings.{
  cut, slice, from_end, end_of, beyond, find_part, index_of, later, position,
}

-- The part of a text between two positions.
pub record IsPart (s : Text) (a b : ℕ) (t : Text) : Type 0 where
  pub ordered : a ≤ b
  pub within : b ≤ length s
  pub whole : take a s ++ (t ++ drop b s) ≡ s
  pub size : length t ≡ b - a

-- What a cut at two positions gives: the part between them, or a panic if they are out of order or
-- out of bounds.
pub data CutsOut (s : Text) (x y : ℤ) : Result Text → Type 0 where
  part : (a b : ℕ) (t : Text) → x ≡ pos a → y ≡ pos b → IsPart s a b t → CutsOut s x y (ok t)
  outside : ((a b : ℕ) → x ≡ pos a → y ≡ pos b → a ≤ b → b ≤ length s → ⊥) → CutsOut s x y panicked

drop_nil : (m : ℕ) → drop {A = ℕ} m [] ≡ []
drop_nil zero = refl
drop_nil (suc m) = refl

drop_at : (s : Text) {m n : ℕ} → m ≡ n → drop m s ≡ drop n s
drop_at s e = ap (λ n. drop n s) e

drop-drop : (a k : ℕ) (s : Text) → drop k (drop a s) ≡ drop (a + k) s
drop-drop zero k s = drop_at s (omega arith)
drop-drop (suc a) k [] = drop_nil k ∙ sym (drop_nil (suc a + k))
drop-drop (suc a) k (c ∷ s) =
    drop-drop a k s ∙ drop_at (c ∷ s) {m = suc (a + k)} {n = suc a + k} (omega arith)

take-IsPart : (s : Text) (a b : ℕ) → a ≤ b → b ≤ length s → IsPart s a b (take (b - a) (drop a s))
take-IsPart s a b h k = record {
  ordered = h;
  within = k;
  whole =
      ap (λ (t : Text). take a s ++ (take (b - a) (drop a s) ++ t))
        (ap (λ n. drop n s) (omega (arith, h)) ∙ sym (drop-drop a (b - a) s))
      ∙ ap (λ (t : Text). take a s ++ t) (take-append-drop (b - a) (drop a s))
      ∙ take-append-drop a s;
  size = omega (arith, h, k, length-take (b - a) (drop a s), length-drop a s);
}

positions : (m n a b : ℕ) → pos m ≡ pos a → pos n ≡ pos b → (m ≡ a) × (n ≡ b)
positions m n a b e f = (ap pos_part e, ap pos_part f)

cut-CutsOut : (s : Text) (x y : ℤ) → CutsOut s x y (cut s x y)
cut-CutsOut s (pos a) (pos b) = elim (Bool-cases (leb a b)) [
  | inl h ↦ elim (Bool-cases (leb b (length s))) [
    | inl k ↦
        rw (h, k) (part a b _ refl refl (take-IsPart s a b (ground (arith, h)) (ground (arith, k))))
    | inr k ↦ rw (h, k) (outside (λ m n e f l w. ground (arith, k, w, positions a b m n e f)))
  ]
  | inr h ↦ rw h (outside (λ m n e f l w. ground (arith, h, l, positions a b m n e f)))
]
cut-CutsOut s (pos a) (negsuc b) = outside (λ m n e f l k. cc)
cut-CutsOut s (negsuc a) y = outside (λ m n e f l k. cc)

-- The position that an index stands for: the index itself, or one counted back from the end, which
-- may lie before the beginning.
pub data CountsAs (s : Text) : ℤ → ℤ → Type 0 where
  forward : (n : ℕ) → CountsAs s (pos n) (pos n)
  backward : (n p : ℕ) → p + suc n ≡ length s → CountsAs s (negsuc n) (pos p)
  before : (n p : ℕ) → length s + suc p ≡ suc n → CountsAs s (negsuc n) (negsuc p)

-- The same of an end that may be left out.
pub data EndsAs (s : Text) : Option ℤ → ℤ → Type 0 where
  whole_text : EndsAs s none (pos (length s))
  index : (i : ℤ) {p : ℤ} → CountsAs s i p → EndsAs s (some i) p

before_start : (l n : ℕ) → l < suc n → negsuc (suc n - l - 1) ≡ pos l +ℤ negsuc n
unfolding ◌+ℤ◌
before_start l n h = ground (arith, h)

after_start : (l n : ℕ) → suc n ≤ l → pos (l - suc n) ≡ pos l +ℤ negsuc n
unfolding ◌+ℤ◌
after_start l n h = ground (arith, h)

back_from : (s : Text) (n : ℕ) → CountsAs s (negsuc n) (from_end s (negsuc n))
back_from s n = elim (Bool-cases (ltb (length s) (suc n))) [
  | inl h ↦
      let l : length s < suc n = (ltb_iff (length s) (suc n)).0 h in
      subst (CountsAs s (negsuc n)) (before_start (length s) n l)
        (before n (suc n - length s - 1) (omega (arith, l)))
  | inr h ↦
      let l : suc n ≤ length s = ground (arith, h) in
      subst (CountsAs s (negsuc n)) (after_start (length s) n l)
        (backward n (length s - suc n) (omega (arith, l)))
]

from_end-CountsAs : (s : Text) (i : ℤ) → CountsAs s i (from_end s i)
from_end-CountsAs s (pos n) = forward n
from_end-CountsAs s (negsuc n) = back_from s n

end_of-EndsAs : (s : Text) (to : Option ℤ) → EndsAs s to (from_end s (end_of s to))
end_of-EndsAs s none = whole_text
end_of-EndsAs s (some i) = index i (from_end-CountsAs s i)

-- A slice from beyond the end is empty. Any other slice is the part between two positions, of which
-- a negative one counts from the end, and it panics exactly if these are out of order or beyond the
-- bounds of the text.
pub slice-CutsOut :
    (s : Text) (from : ℤ) (to : Option ℤ)
    → ((beyond s from ≡ true) × (slice s from to ≡ ok []))
      ⊎ ((beyond s from ≡ false)
          × ((x y : ℤ) × CountsAs s from x × EndsAs s to y × CutsOut s x y (slice s from to)))
unfolding slice
slice-CutsOut s from to = elim (Bool-cases (beyond s from)) [
  | inl h ↦ inl (h, rw h refl)
  | inr h ↦
      let cuts = cut-CutsOut s (from_end s from) (from_end s (end_of s to)) in
      inr (h, (_, _, from_end-CountsAs s from, end_of-EndsAs s to, rw h cuts))
]

-- Where a part is found: at the first position at which the text goes on with it.
pub data IsFound (p s : Text) : Option ℕ → Type 0 where
  at :
      (n : ℕ)
      → has_prefix p (drop n s) ≡ true
      → ((m : ℕ) → m < n → has_prefix p (drop m s) ≡ false)
      → IsFound p s (some n)
  nowhere : ((m : ℕ) → has_prefix p (drop m s) ≡ false) → IsFound p s none

later-IsFound :
    (p : Text) (c : ℕ) (s : Text) (o : Option ℕ)
    → has_prefix p (c ∷ s) ≡ false
    → IsFound p s o
    → IsFound p (c ∷ s) (later o)
later-IsFound p c s o h (at n e f) = at (suc n) e go
  where
    go : (m : ℕ) → m < suc n → has_prefix p (drop m (c ∷ s)) ≡ false
    go zero l = h
    go (suc m) l = f m (omega (arith, l))
later-IsFound p c s o h (nowhere f) = nowhere go
  where
    go : (m : ℕ) → has_prefix p (drop m (c ∷ s)) ≡ false
    go zero = h
    go (suc m) = f m

find_part-IsFound : (p s : Text) → IsFound p s (find_part p s)
unfolding find_part
find_part-IsFound p [] = elim (Bool-cases (has_prefix p [])) [
  | inl h ↦ rw h (at 0 h (λ m l. absurd (omega (arith, l))))
  | inr h ↦ rw h (nowhere (λ m. ap (has_prefix p) (drop_nil m) ∙ h))
]
find_part-IsFound p (c ∷ s) = elim (Bool-cases (has_prefix p (c ∷ s))) [
  | inl h ↦ rw h (at 0 h (λ m l. absurd (omega (arith, l))))
  | inr h ↦ rw h (later-IsFound p c s (find_part p s) h (find_part-IsFound p s))
]

-- `IndexOf` is the first position at which the part stands, or -1 if it stands nowhere.
pub index_of-IsFound :
    (s delim : Text) → (o : Option ℕ) × (index_of s delim ≡ position o) × IsFound delim s o
unfolding index_of
index_of-IsFound s delim = (find_part delim s, refl, find_part-IsFound delim s)
