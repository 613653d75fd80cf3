-- ===== src/Functions/Small.antt =====
-- Short template functions: truncate.go, startswith_func.go, trim_func.go, get_func.go,
-- data_func.go, asset_func.go, Min and Max of js_math.go, and Keys of js_object.go, in
-- templatefunctions/.
use pugtemplate.Common.{
  Text, lit, has_prefix, to_lower, trim_space, trim_left, trim_right, split, itoa, length, take,
  ◌==◌, Bool, List, [], ◌∷◌, ◌++◌, ℕ, zero, suc, ◌+◌, Option, none, some, ℤ, pos, negsuc, ltb_ℤ,
  if◌then◌else◌,
}
use pugtemplate.Common.Result.{Result, ok, panicked, ◌>>=◌}
use pugtemplate.Objects.Map.{Items, Map, Runtime, get_item, put_item, keys}
use pugtemplate.Runtime.Compare.{text_lt}
use pugtemplate.Runtime.Value.{Floats, Value, Kind, kind}

abbrev take_bytes : Text → ℤ → Result Text
take_bytes str (pos n) = ok (take n str ++ lit "...")
take_bytes str (negsuc n) = panicked

-- `truncate`: a text longer than asked for is cut; a negative length is out of range.
unfoldable pub truncate : Text → ℤ → Result Text
unfolding lit
truncate str n = if ltb_ℤ n (pos (length str)) then take_bytes str n else ok str

-- `startsWith`, on ASCII.
unfoldable pub starts_with : Text → Text → Bool
unfolding has_prefix
starts_with haystack needle = has_prefix (to_lower needle) (to_lower haystack)

-- `trim`.
unfoldable pub trim : Text → Text
unfolding trim_space
trim str = trim_space str

-- The parameters that `get` and `data` give to the router: what the members of a single map print.
abbrev pub put_all : Items Text → Items Text → Items Text
put_all [] p = p
put_all ((k, v) ∷ members) p = put_all members (put_item k v p)

unfoldable pub data_parameters : List (Items Text) → Items Text
unfolding put_item
data_parameters [] = []
data_parameters (members ∷ []) = put_all members []
data_parameters (members ∷ more ∷ rest) = []

abbrev pub is_slash : ℕ → Bool
is_slash c = c == 47

abbrev last_part : Text → List Text → Text
last_part s [] = s
last_part s (t ∷ ts) = last_part t ts

-- A rewrite that is there and not empty.
abbrev rewrite : Items Text → Text → Option Text
rewrite rewrites name = elim (get_item name rewrites) [
  | none ↦ none
  | some [] ↦ none
  | some (c ∷ s) ↦ some (c ∷ s)
]

abbrev or_text : Option Text → Text → Text
or_text none t = t
or_text (some s) t = s

-- The path that an asset has under the rewrites: by its name, then by its path, then as it is.
unfoldable pub rewritten : Items Text → Text → Text
unfolding get_item trim_space trim_left
rewritten rewrites asset = trim_left is_slash (
    or_text (rewrite rewrites (last_part [] (split 47 asset)))
      (or_text (rewrite rewrites (trim_space asset)) asset))

-- `asset`, by whether the webpack server serves it; `static` is the router's address of a static
-- file.
unfoldable pub asset_func : Bool → Items Text → (Text → Text) → Text → Text → Text
unfolding rewritten trim_right lit
asset_func webpackserver rewrites static base_url asset =
    if webpackserver
    then lit "/assets/" ++ asset
    else with_base base_url (static (rewritten rewrites asset))
  where
    with_base : Text → Text → Text
    with_base [] result = result
    with_base (c ∷ base) result = trim_right is_slash (c ∷ base) ++ result

-- sort.Strings.
unfoldable pub insert : Text → List Text → List Text
unfolding text_lt
insert s [] = s ∷ []
insert s (t ∷ ts) = let rest = insert s ts in if text_lt t s then t ∷ rest else s ∷ t ∷ ts

unfoldable pub sort_strings : List Text → List Text
unfolding insert
sort_strings [] = []
sort_strings (s ∷ ss) = insert s (sort_strings ss)

-- `Object.Keys` of a map, with the map it leaves, and of an array of some length.
unfoldable pub object_keys : {A : Type 0} → Runtime → Map A → Map A × List Text
unfolding sort_strings keys
object_keys r m = let listed = keys r m in (listed.0, sort_strings listed.1)

abbrev pub indices : ℕ → ℕ → List Text
indices i zero = []
indices i (suc n) = itoa i ∷ indices (i + 1) n

unfoldable pub array_keys : ℕ → List Text
unfolding sort_strings itoa
array_keys n = sort_strings (indices 0 n)

module _ (fl : Floats) where
  open fl use {F, of_int, lt}

  -- A number as a float; other values panic.
  abbrev pub float_of : Kind fl → Result F
  float_of (Kind.int i) = ok (of_int i)
  float_of (Kind.float f) = ok f
  float_of _ = panicked

  -- The loop of `Math.Min` and `Math.Max`, by which number takes the place of the result.
  unfoldable pub extreme_loop : (F → F → Bool) → List (Value fl) → F → Result F
  unfolding kind
  extreme_loop replaces [] res = ok res
  extreme_loop replaces (v ∷ vs) res = float_of (kind fl v) >>= λ (f : F).
      extreme_loop replaces vs (if replaces f res then f else res)

  -- `Math.Min`, from the largest float.
  unfoldable pub math_min : F → List (Value fl) → Result F
  unfolding extreme_loop
  math_min max_float x = extreme_loop lt x max_float

  -- `Math.Max`, from the smallest float above zero.
  unfoldable pub math_max : F → List (Value fl) → Result F
  unfolding extreme_loop
  math_max smallest_nonzero x = extreme_loop (λ f res. lt res f) x smallest_nonzero
