-- ===== src/Objects/Copies.antt =====
-- The copies and conversions of maps and arrays in pugjs/types.go.
use pugtemplate.Common.{Bool, true, false, not, ◌&&◌, List, [], ◌∷◌, map, Option, none, some}
use pugtemplate.Objects.Array.{Store, Slice, items}
use pugtemplate.Objects.Map.{Items, Map, contents, convert}

abbrev pub map_items : {A B : Type 0} → (A → B) → Items A → Items B
map_items f [] = []
map_items f ((k, v) ∷ is) = (k, f v) ∷ map_items f is

abbrev is_none : {A : Type 0} → Option A → Bool
is_none none = true
is_none (some a) = false

abbrev raw_items : {A : Type 0} → Option (Items A) → Items A
raw_items none = []
raw_items (some is) = is

abbrev is_empty : {A : Type 0} → List A → Bool
is_empty [] = true
is_empty (x ∷ xs) = false

module _ {A : Type 0} where
  -- `copy` of a map, which does not convert it first: the members of a map that was not read before
  -- are lost, and so is the order.
  unfoldable pub copy_map : (A → A) → Map A → Map A
  copy_map copy m = record {
    items = some (map_items copy (raw_items m.items));
    o = m.o;
    order = [];
  }

  -- `copy` of an array: its items in a new backing array.
  unfoldable pub copy_items : (A → A) → Store A → Slice → List A
  copy_items copy s a = map copy (items s a)

  -- `AsStringMap` and `AsStringIfaceMap`, by what String and iface give for a member.
  unfoldable pub as_map_of : {B : Type 0} → (A → B) → Map A → Items B
  unfolding convert
  as_map_of f m = map_items f (contents m)

  -- `True` of a map, by whether its Go value is the zero of its type.
  unfoldable pub map_is_true : Bool → Map A → Bool
  unfolding convert
  map_is_true is_zero m = not (not (is_none m.o) && is_zero) && not (is_empty (contents m))

-- `True` of an array.
unfoldable pub array_is_true : {A : Type 0} → Store A → Slice → Bool
array_is_true s a = not (is_empty (items s a))
