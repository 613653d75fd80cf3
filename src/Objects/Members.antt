-- ===== src/Objects/Members.antt =====
-- What reading a member of an array or a string gives (`Member` in pugjs/types.go), and the keys
-- that a loop over an object visits (`__range_helper_keys__` in pugjs/runtime.go).
use pugtemplate.Common.{
  Text, lit, text_eq, Bool, not, List, [], ◌∷◌, ℕ, zero, suc, ◌+◌, Option, none, some,
  if◌then◌else◌,
}
use pugtemplate.Common.Result.{Result, ok, panicked, ◌>>◌}
use pugtemplate.Objects.Map.{Map, Runtime, keys}

pub data ArrayMethod : Type 0 where
  length index_of join push pop shift unshift splice slice sort : ArrayMethod

pub data StringMethod : Type 0 where
  char_at to_upper_case to_lower_case split slice_text replace length_of find : StringMethod

-- The cases of a switch on a name, in order.
unfoldable pub select : {M : Type 0} → Text → List (Text × M) → Option M
select name [] = none
select name ((n, m) ∷ cases) = if text_eq name n then some m else select name cases

abbrev array_methods : List (Text × ArrayMethod)
array_methods =
    (lit "length", ArrayMethod.length)
    ∷ (lit "indexOf", ArrayMethod.index_of)
    ∷ (lit "join", ArrayMethod.join)
    ∷ (lit "push", ArrayMethod.push)
    ∷ (lit "pop", ArrayMethod.pop)
    ∷ (lit "shift", ArrayMethod.shift)
    ∷ (lit "unshift", ArrayMethod.unshift)
    ∷ (lit "splice", ArrayMethod.splice)
    ∷ (lit "slice", ArrayMethod.slice)
    ∷ (lit "sort", ArrayMethod.sort)
    ∷ []

-- `panicOrError` of pugjs/engine.go, by whether there is a logger, and debug mode: an error panics
-- or is logged.
abbrev pub panic_or_error : Bool → Bool → Result (Unit {0})
panic_or_error logger debug = if not logger then panicked else if debug then panicked else ok tt

abbrev or_error : Bool → Bool → Option ArrayMethod → Result (Option ArrayMethod)
or_error logger debug none = panic_or_error logger debug >> ok none
or_error logger debug (some m) = ok (some m)

-- `Member` of an array: an unknown name is an error, and gives nil.
unfoldable pub array_member : Bool → Bool → Text → Result (Option ArrayMethod)
unfolding select lit
array_member logger debug name = or_error logger debug (select name array_methods)

-- `Member` of a string: an unknown name gives nil.
unfoldable pub string_member : Text → Option StringMethod
unfolding select lit
string_member field = select field (
    (lit "charAt", StringMethod.char_at)
    ∷ (lit "toUpperCase", StringMethod.to_upper_case)
    ∷ (lit "toLowerCase", StringMethod.to_lower_case)
    ∷ (lit "split", StringMethod.split)
    ∷ (lit "slice", StringMethod.slice_text)
    ∷ (lit "replace", StringMethod.replace)
    ∷ (lit "length", StringMethod.length_of)
    ∷ (lit "indexOf", StringMethod.find)
    ∷ [])

-- A key that a loop visits: that of a map, or the index in an array.
pub data RangeKey : Type 0 where
  name : Text → RangeKey
  index : ℕ → RangeKey

-- What a loop runs over: a map, an array of some length, or another object.
pub data Ranged (A : Type 0) : Type 0 where
  over_map : Map A → Ranged A
  over_array : ℕ → Ranged A
  over_other : Ranged A

abbrev names : List Text → List RangeKey
names [] = []
names (k ∷ ks) = RangeKey.name k ∷ names ks

abbrev indices : ℕ → ℕ → List RangeKey
indices i zero = []
indices i (suc n) = RangeKey.index i ∷ indices (i + 1) n

unfoldable pub range_keys : {A : Type 0} → Runtime → Ranged A → List RangeKey
unfolding keys
range_keys r (Ranged.over_map m) = names (keys r m).1
range_keys r (Ranged.over_array n) = indices 0 n
range_keys r Ranged.over_other = []
