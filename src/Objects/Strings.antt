-- ===== src/Objects/Strings.antt =====
-- `String` of pugjs/types.go. A number argument is the integer that it is converted to.
use pugtemplate.Common.{
  Text, Bool, false, ◌++◌, ℕ, zero, suc, ◌+◌, ◌-◌, ◌/◌, ◌%◌, length, take, drop, has_prefix,
  replace_all, ltb, leb, List, [], ◌∷◌, get_elem?, Option, none, some, ℤ, pos, negsuc, ◌+ℤ◌,
  if◌then◌else◌,
}
use pugtemplate.Common.Result.{Result, ok, panicked, or_panic, ◌>>=◌}

-- Go's conversion of a byte to a string: the rune of that number, in UTF-8.
abbrev pub rune_string : ℕ → Text
rune_string c = if ltb c 128 then c ∷ [] else (192 + c / 64) ∷ (128 + c % 64) ∷ []

-- `CharAt`; a negative position panics.
unfoldable pub char_at : Text → ℤ → Result Text
char_at s (negsuc n) = panicked
char_at s (pos n) =
    if leb (length s) n then ok [] else or_panic (get_elem? s n) >>= λ (c : ℕ). ok (rune_string c)

-- Go's `s[from:to]`.
abbrev pub cut : Text → ℤ → ℤ → Result Text
cut s (pos from) (pos to) =
    if leb from to
    then (if leb to (length s) then ok (take (to - from) (drop from s)) else panicked)
    else panicked
cut s _ _ = panicked

-- A negative index counts from the end.
abbrev pub from_end : Text → ℤ → ℤ
from_end s (pos n) = pos n
from_end s (negsuc n) = pos (length s) +ℤ negsuc n

abbrev pub beyond : Text → ℤ → Bool
beyond s (pos n) = ltb (length s) n
beyond s (negsuc n) = false

abbrev pub end_of : Text → Option ℤ → ℤ
end_of s none = pos (length s)
end_of s (some to) = to

-- `Slice`, with the end if one is given.
unfoldable pub slice : Text → ℤ → Option ℤ → Result Text
unfolding ◌+ℤ◌
slice s from to =
    if beyond s from then ok [] else cut s (from_end s from) (from_end s (end_of s to))

abbrev pub later : Option ℕ → Option ℕ
later none = none
later (some n) = some (suc n)

abbrev pub position : Option ℕ → ℤ
position none = negsuc 0
position (some n) = pos n

-- strings.Index: the first position of a part.
unfoldable pub find_part : Text → Text → Option ℕ
unfolding has_prefix
find_part p [] = if has_prefix p [] then some 0 else none
find_part p (c ∷ s) =
    let rest = later (find_part p s) in if has_prefix p (c ∷ s) then some 0 else rest

-- `IndexOf`, -1 for none.
unfoldable pub index_of : Text → Text → ℤ
unfolding find_part
index_of s delim = position (find_part delim s)

-- strings.Split for a separator that is not empty; the number counts the bytes of a match that are
-- still to be dropped.
unfoldable pub split_from : Text → ℕ → Text → Text × List Text
unfolding has_prefix
split_from sep k [] = ([], [])
split_from sep (suc k) (c ∷ s) = split_from sep k s
split_from sep zero (c ∷ s) =
    let hit = has_prefix sep (c ∷ s) in
    let rest = split_from sep (if hit then length sep - 1 else 0) s in
    if hit then ([], rest.0 ∷ rest.1) else (c ∷ rest.0, rest.1)

-- The bytes of a text; the parts that an empty separator gives, on ASCII.
abbrev bytes : Text → List Text
bytes [] = []
bytes (c ∷ s) = (c ∷ []) ∷ bytes s

-- `Split`.
unfoldable pub split_text : Text → Text → List Text
unfolding split_from
split_text s [] = bytes s
split_text s (c ∷ sep) = let parts = split_from (c ∷ sep) 0 s in parts.0 ∷ parts.1

-- The bytes with a text before each of them and at the end: what an empty text is replaced by, on
-- ASCII.
abbrev between : Text → Text → Text
between with [] = with
between with (c ∷ s) = with ++ (c ∷ between with s)

-- `Replace`.
unfoldable pub replace : Text → Text → Text → Text
unfolding replace_all
replace s [] with = between with s
replace s (c ∷ what) with = replace_all s (c ∷ what) with
