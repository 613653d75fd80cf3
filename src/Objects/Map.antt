-- ===== src/Objects/Map.antt =====
-- `Map` of pugjs/types.go, and `Assign` of templatefunctions/js_object.go. An operation returns
-- the map that it leaves behind. The values are any type, with the object for nil and the function
-- that reading `__assign` gives. A nil order and an empty one are the same.
use pugtemplate.Common.{
  Text, lit, text_eq, has_prefix, Bool, true, false, ◌&&◌, not, List, [], ◌∷◌, ◌++◌, any, Option,
  none, some, if◌then◌else◌,
}

abbrev pub Items : Type 0 → Type 0
Items A = List (Text × A)

-- What reflection finds in the Go value: its exported fields and methods, and the order, if the
-- type has the method Order.
pub record Reflected (A : Type 0) : Type 0 where
  pub members : Items A
  pub order : Option (List Text)

-- `items` is none for the nil map, which is filled on first use; `o` is none for nil.
pub record Map (A : Type 0) : Type 0 where
  pub items : Option (Items A)
  pub o : Option (Reflected A)
  pub order : List Text

abbrev pub is_nil : List Text → Bool
is_nil [] = true
is_nil (k ∷ ks) = false

-- The libraries' spelling of a name with a capital first letter, and as a title; the order in which
-- a range visits the keys of a map.
pub record Runtime : Type 0 where
  pub upper_first : Text → Text
  pub title : Text → Text
  pub iterate : List Text → List Text

abbrev ordered_by : Option (List Text) → List Text → List Text
ordered_by none order = order
ordered_by (some ks) order = ks

module _ {A : Type 0} where
  unfoldable pub get_item : Text → Items A → Option A
  get_item k [] = none
  get_item k ((j, v) ∷ is) = if text_eq j k then some v else get_item k is

  unfoldable pub put_item : Text → A → Items A → Items A
  put_item k v [] = (k, v) ∷ []
  put_item k v ((j, w) ∷ is) = if text_eq j k then (k, v) ∷ is else (j, w) ∷ put_item k v is

  unfoldable pub has_item : Text → Items A → Bool
  has_item k [] = false
  has_item k ((j, v) ∷ is) = if text_eq j k then true else has_item k is

  abbrev pub item_keys : Items A → List Text
  item_keys [] = []
  item_keys ((k, v) ∷ is) = k ∷ item_keys is

  -- The items of a map without its Go value, and those of one with it.
  abbrev fill : Option (Reflected A) → Map A → Map A
  fill none m = record m { items = some []; order = [] }
  fill (some r) m = record m { items = some r.members; order = ordered_by r.order m.order }

  abbrev pub convert_items : Option (Items A) → Map A → Map A
  convert_items none m = fill m.o m
  convert_items (some is) m = m

  unfoldable pub convert : Map A → Map A
  convert m = convert_items m.items m

  abbrev some_items : Option (Items A) → Items A
  some_items none = []
  some_items (some is) = is

  -- The items that an operation sees after it has converted the map.
  abbrev pub contents : Map A → Items A
  contents m = some_items (convert m).items

  -- `Keys`: a map without an order gets the one in which it was visited.
  unfoldable pub keys : Runtime → Map A → Map A × List Text
  unfolding convert
  keys r m =
      let c = convert m in
      let listed = if not (is_nil c.order) then c.order else r.iterate (item_keys (contents m)) in
      (record c { items = some (contents m); order = listed }, listed)

  -- `Assign`: an ordered map keeps its order complete.
  unfoldable pub assign : Text → A → Map A → Map A
  unfolding convert
  assign key field m =
      let c = convert m in
      record c {
        items = some (put_item key field (contents m));
        order =
            if not (is_nil c.order) && not (any (text_eq key) c.order)
            then c.order ++ (key ∷ [])
            else c.order;
      }

  -- The function that reading `__assign` gives, on a map already converted.
  unfoldable pub call_assign : Text → A → Map A → Map A
  unfolding convert
  call_assign key value m =
      let c = convert m in
      record c {
        items = some (put_item key value (contents m));
        order =
            if not (is_nil c.order) && not (has_item key (contents m))
            then c.order ++ (key ∷ [])
            else c.order;
      }

  unfoldable pub has_member : Text → Map A → Bool
  unfolding convert
  has_member field m = has_item field (contents m)

-- strings.NewReplacer("id", "ID", "url", "URL", "api", "API"): `skip` bytes still belong to the
-- last match.
unfoldable pub replace_names_from : Text → Text → Text
replace_names_from skip [] = []
replace_names_from (k ∷ skip) (c ∷ s) = replace_names_from skip s
replace_names_from [] (c ∷ s) =
    let here = c ∷ s in
    if has_prefix (lit "id") here
    then lit "ID" ++ replace_names_from (lit "d") s
    else if has_prefix (lit "url") here
    then lit "URL" ++ replace_names_from (lit "rl") s
    else if has_prefix (lit "api") here
    then lit "API" ++ replace_names_from (lit "pi") s
    else c ∷ replace_names_from [] s

-- The spellings under which a member is looked up, in order.
abbrev pub spellings : Runtime → Text → List Text
spellings r field =
    let renamed = replace_names_from [] field in
    field
    ∷ r.upper_first field
    ∷ r.title field
    ∷ renamed
    ∷ r.upper_first renamed
    ∷ r.title renamed
    ∷ []

abbrev pub or_else {ℓ} : {A : Type ℓ} → A → Option A → A
or_else a none = a
or_else a (some v) = v

module _ {A : Type 0} (nil assigner : A) (r : Runtime) where
  abbrev pub first_of : List Text → Items A → A
  first_of [] is = nil
  first_of (k ∷ ks) is = or_else (first_of ks is) (get_item k is)

  unfoldable pub member : Text → Map A → A
  unfolding get_item replace_names_from
  member field m =
      if text_eq field (lit "__assign") then assigner else first_of (spellings r field) (contents m)

  -- One source of Object.Assign, over its keys.
  unfoldable pub assign_keys : List Text → Map A → Map A → Map A
  assign_keys [] source target = target
  assign_keys (k ∷ ks) source target = assign_keys ks source (assign k (member k source) target)

  -- `Object.Assign`, whose sources are other maps than the target; a nil source is passed over.
  unfoldable pub object_assign : List (Option (Map A)) → Map A → Map A
  unfolding assign_keys
  object_assign [] target = target
  object_assign (none ∷ sources) target = object_assign sources target
  object_assign (some source ∷ sources) target =
      let listed = keys r source in object_assign sources (assign_keys listed.1 listed.0 target)
