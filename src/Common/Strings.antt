-- ===== src/Common/Strings.antt =====
-- Go strings as lists of bytes, with the functions of the package strings that the code calls.
use Prim.Native.Char.{code}
use Prim.Native.Nat.{ℕ, zero, suc, ◌+◌, ◌-◌, ◌/◌, ◌%◌}
use Prim.Native.String
use mathlib.Core.Path.{◌≡◌, refl}
use mathlib.Core.Logic.{◌↔◌}
use mathlib.Core.Bool.{Bool, true, false, ◌&&◌, ◌||◌}
use mathlib.Core.List.{List, [], ◌∷◌, ◌++◌}
use native.Mathlib.Omega.{arith}
use pugtemplate.Common.Lists.{length, drop, all}
use pugtemplate.Common.Tests.{◌==◌, ltb, if◌then◌else◌}

abbrev pub Text : Type 0
Text = List ℕ

-- The bytes of an ASCII literal of the source.
unfoldable pub lit : String.String → Text
lit String.[] = []
lit (String.◌∷◌ c s) = code c ∷ lit s

-- `==` on strings.
unfoldable pub text_eq : Text → Text → Bool
text_eq [] [] = true
text_eq (c ∷ s) (d ∷ t) = c == d && text_eq s t
text_eq _ _ = false

-- strings.HasPrefix, with the prefix first.
unfoldable pub has_prefix : Text → Text → Bool
has_prefix [] s = true
has_prefix (c ∷ p) [] = false
has_prefix (c ∷ p) (d ∷ s) = c == d && has_prefix p s

-- strings.HasSuffix, with the suffix first.
unfoldable pub has_suffix : Text → Text → Bool
unfolding text_eq
has_suffix p [] = text_eq p []
has_suffix p (c ∷ s) = text_eq p (c ∷ s) || has_suffix p s

-- strings.Contains, with the part first.
unfoldable pub contains : Text → Text → Bool
unfolding has_prefix
contains p [] = has_prefix p []
contains p (c ∷ s) = has_prefix p (c ∷ s) || contains p s

-- The loop of strings.Replace(s, old, with, -1) for an old text that is not empty; the number
-- counts the bytes of a match that are still to be dropped.
unfoldable pub replace_from : Text → Text → ℕ → Text → Text
unfolding has_prefix
replace_from old with k [] = []
replace_from old with (suc k) (c ∷ s) = replace_from old with k s
replace_from old with zero (c ∷ s) =
    let hit = has_prefix old (c ∷ s) in
    let rest = replace_from old with (if hit then length old - 1 else 0) s in
    if hit then with ++ rest else c ∷ rest

unfoldable pub replace_all : Text → Text → Text → Text
unfolding replace_from
replace_all s old with = replace_from old with 0 s

-- strings.Split for a separator of one byte: never the empty list.
unfoldable pub split_byte : ℕ → Text → Text × List Text
split_byte b [] = ([], [])
split_byte b (c ∷ s) =
    let (first, others) = split_byte b s in
    if c == b then ([], first ∷ others) else (c ∷ first, others)

abbrev pub split : ℕ → Text → List Text
split b s = let (first, others) = split_byte b s in first ∷ others

-- strings.Join with a separator.
unfoldable pub join : Text → List Text → Text
join sep [] = []
join sep (s ∷ []) = s
join sep (s ∷ t ∷ ts) = s ++ (sep ++ join sep (t ∷ ts))

abbrev pub is_space : ℕ → Bool
is_space c = c == 32 || (ltb 8 c && ltb c 14)

-- strings.TrimLeftFunc.
unfoldable pub trim_left : (ℕ → Bool) → Text → Text
trim_left p [] = []
trim_left p (c ∷ s) = if p c then trim_left p s else c ∷ s

-- strings.TrimRightFunc: a byte goes if all from it on go.
unfoldable pub trim_right : (ℕ → Bool) → Text → Text
trim_right p [] = []
trim_right p (c ∷ s) = if p c && all p s then [] else c ∷ trim_right p s

-- strings.TrimSpace, on ASCII.
unfoldable pub trim_space : Text → Text
unfolding trim_left trim_right
trim_space s = trim_right is_space (trim_left is_space s)

-- strings.ToLower, on ASCII.
abbrev pub to_lower : Text → Text
to_lower [] = []
to_lower (c ∷ s) = (if ltb 64 c && ltb c 91 then c + 32 else c) ∷ to_lower s

-- strings.ToUpper, on ASCII.
abbrev pub to_upper : Text → Text
to_upper [] = []
to_upper (c ∷ s) = (if ltb 96 c && ltb c 123 then c - 32 else c) ∷ to_upper s

-- The decimal digits of a number, on fuel; a number has fewer digits than its value plus one.
unfoldable pub digits_onto : ℕ → ℕ → Text → Text
digits_onto zero n acc = acc
digits_onto (suc f) n acc =
    let d = (48 + n % 10) ∷ acc in
    let rest = digits_onto f (n / 10) d in if ltb n 10 then d else rest

-- strconv.Itoa of a number that is not negative.
unfoldable pub itoa : ℕ → Text
unfolding digits_onto
itoa n = digits_onto (suc n) n []

pub text_eq_iff : (s t : Text) → (text_eq s t ≡ true) ↔ (s ≡ t)
unfolding text_eq
text_eq_iff (c ∷ s) (d ∷ t) = ground (arith, text_eq_iff s t)
text_eq_iff _ _ = ground arith

pub text_eq_refl : (s : Text) → text_eq s s ≡ true
text_eq_refl s = (text_eq_iff s s).1 refl

pub has_prefix-append : (p s : Text) → has_prefix p (p ++ s) ≡ true
unfolding has_prefix
has_prefix-append [] s = refl
has_prefix-append (c ∷ p) s = ground (arith, has_prefix-append p s)

pub has_prefix_sound : (p s : Text) → has_prefix p s ≡ true → s ≡ p ++ drop (length p) s
unfolding has_prefix
has_prefix_sound [] s h = refl
has_prefix_sound (c ∷ p) [] h = cc
has_prefix_sound (c ∷ p) (d ∷ s) h = ground (arith, has_prefix_sound p s)
