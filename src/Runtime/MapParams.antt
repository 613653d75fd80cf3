-- ===== src/Runtime/MapParams.antt =====
-- `__op__map_params` of pugjs/runtime.go, which a mixin call writes its attributes with. Its keys are
-- texts, as the translation of the call writes them, and its values objects.
use pugtemplate.Common.{
  Text, text_eq, Bool, true, false, List, [], ◌∷◌, ◌++◌, Option, none, some, if◌then◌else◌, ◌≡◌,
  text_eq_iff, append-nil, refl, sym, ap, ◌∙◌, append_assoc, Bool-cases, inl, inr,
}
use pugtemplate.Common.Result.{Result, ok, panicked}
use pugtemplate.Objects.Map.{Items, get_item, put_item}
use pugtemplate.Objects.Merge.{get_item-put_item}

-- The arguments of the call: pairs of a key and a value, and a key without one at the end or not.
pub data Arguments (A : Type 0) : Type 0 where
  end : Arguments A
  pair : Text → A → Arguments A → Arguments A
  lone : Text → Arguments A

-- A value of the map: an object, or the Go slice that a repeated key collects.
pub data Gathered (A : Type 0) : Type 0 where
  single : A → Gathered A
  several : List A → Gathered A

module _ {A : Type 0} where
  abbrev pub gather : Option (Gathered A) → A → Gathered A
  gather none v = Gathered.single v
  gather (some (Gathered.single u)) v = Gathered.several (u ∷ v ∷ [])
  gather (some (Gathered.several us)) v = Gathered.several (us ++ (v ∷ []))

  -- The loop over the pairs of arguments; a key without a value is an index out of range.
  unfoldable pub params_loop : Arguments A → Items (Gathered A) → Result (Items (Gathered A))
  unfolding get_item put_item
  params_loop Arguments.end m = ok m
  params_loop (Arguments.pair k v rest) m =
      params_loop rest (put_item k (gather (get_item k m) v) m)
  params_loop (Arguments.lone k) m = panicked

  -- The map before it is converted to an object.
  unfoldable pub op_map_params : Arguments A → Result (Items (Gathered A))
  unfolding params_loop
  op_map_params a = params_loop a []

  abbrev pub pairs : List (Text × A) → Arguments A
  pairs [] = Arguments.end
  pairs ((k, v) ∷ es) = Arguments.pair k v (pairs es)

  -- The values that are written for a key, in order.
  abbrev pub values_for : Text → List (Text × A) → List A
  values_for j [] = []
  values_for j ((k, v) ∷ es) = if text_eq k j then v ∷ values_for j es else values_for j es

  -- No value, one value, or an array of several.
  abbrev pub listed : List A → Option (Gathered A)
  listed [] = none
  listed (v ∷ []) = some (Gathered.single v)
  listed (u ∷ v ∷ vs) = some (Gathered.several (u ∷ v ∷ vs))

  gather-listed : (vs : List A) (v : A) → some (gather (listed vs) v) ≡ listed (vs ++ (v ∷ []))
  gather-listed [] v = refl
  gather-listed (u ∷ []) v = refl
  gather-listed (u ∷ w ∷ vs) v = refl

  -- The values of a key after one more pair.
  one_pair :
      (j k : Text) (v : A) (m : Items (Gathered A)) (vs : List A)
      → get_item j m ≡ listed vs
      → get_item j (put_item k (gather (get_item k m) v) m)
        ≡ listed (if text_eq k j then vs ++ (v ∷ []) else vs)
  one_pair j k v m vs h = elim (Bool-cases (text_eq k j)) [
    | inl e ↦
        let same : get_item k m ≡ listed vs =
          ap (λ (n : Text). get_item n m) ((text_eq_iff k j).0 e) ∙ h in
        get_item-put_item j k _ m ∙ rw (e, same) (gather-listed vs v)
    | inr e ↦ get_item-put_item j k _ m ∙ rw e h
  ]

  more_values :
      (b : Bool) (v : A) (vs ws : List A)
      → (if b then vs ++ (v ∷ []) else vs) ++ ws ≡ vs ++ (if b then v ∷ ws else ws)
  more_values true v vs ws = append_assoc vs (v ∷ []) ws
  more_values false v vs ws = refl

  params_loop-listed :
      (es : List (Text × A)) (m : Items (Gathered A)) (before : Text → List A)
      → ((j : Text) → get_item j m ≡ listed (before j))
      → (r : Items (Gathered A)) × (params_loop (pairs es) m ≡ ok r)
        × ((j : Text) → get_item j r ≡ listed (before j ++ values_for j es))
  unfolding params_loop
  params_loop-listed [] m before h = (m, refl, λ j. h j ∙ ap listed (sym (append-nil (before j))))
  params_loop-listed ((k, v) ∷ es) m before h =
      let rest =
        params_loop-listed es (put_item k (gather (get_item k m) v) m)
          (λ j. if text_eq k j then before j ++ (v ∷ []) else before j)
          (λ j. one_pair j k v m (before j) (h j)) in
      (
        rest.0,
        rest.1,
        λ j. rest.2 j ∙ ap listed (more_values (text_eq k j) v (before j) (values_for j es)),
      )

  -- The map of a mixin's attributes is built without a panic, and has for each key the value
  -- written for it, or an array of all values in the order in which they are written, if there are
  -- several, and nothing for any other key.
  pub op_map_params-listed :
      (es : List (Text × A))
      → (r : Items (Gathered A)) × (op_map_params (pairs es) ≡ ok r)
        × ((j : Text) → get_item j r ≡ listed (values_for j es))
  unfolding op_map_params get_item
  op_map_params-listed es = params_loop-listed es [] (λ j. []) (λ j. refl)
