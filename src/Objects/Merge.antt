-- ===== src/Objects/Merge.antt =====
-- What Object.Assign leaves in its target.
use pugtemplate.Common.{
  Text, lit, text_eq, text_eq_iff, true, false, List, [], ◌∷◌, any, All, Option, none, some,
  if◌then◌else◌, ◌≡◌, refl, arith, Bool-cases, inl, inr, ap, ◌∙◌,
}
use pugtemplate.Objects.Keys.{VisitsAll, IsOrdered, keys-has_member}
use pugtemplate.Objects.Map.{
  Items, Map, Runtime, get_item, put_item, has_item, convert, contents, keys, assign, has_member,
  member, first_of, spellings, assign_keys, object_assign,
}

module _ {A : Type 0} where
  pub get_item-put_item :
      (j k : Text) (v : A) (is : Items A)
      → get_item j (put_item k v is) ≡ (if text_eq k j then some v else get_item j is)
  unfolding get_item put_item
  get_item-put_item j k v [] = refl
  get_item-put_item j k v ((i, w) ∷ is) =
      ground (arith, text_eq_iff k j, text_eq_iff i k, text_eq_iff i j, get_item-put_item j k v is)

  has_item-get_item :
      (k : Text) (is : Items A) → has_item k is ≡ true → (v : A) × (get_item k is ≡ some v)
  unfolding has_item get_item
  has_item-get_item k [] h = cc
  has_item-get_item k ((j, v) ∷ is) h = elim (Bool-cases (text_eq j k)) [
    | inl e ↦ (v, rw e refl)
    | inr e ↦ rw e (has_item-get_item k is (rw e at h))
  ]

  -- The value of a key after an assignment.
  abbrev pub value : Text → Map A → Option A
  value k m = get_item k (contents m)

  value-assign :
      (j k : Text) (v : A) (m : Map A)
      → value j (assign k v m) ≡ (if text_eq k j then some v else value j m)
  unfolding assign convert
  value-assign j k v m = get_item-put_item j k v (contents m)

  -- The last of several sources that has a key decides, if one has it.
  abbrev pub latest : Text → List (Option (Map A)) → Option A → Option A
  latest k [] o = o
  latest k (none ∷ sources) o = latest k sources o
  latest k (some source ∷ sources) o =
      latest k sources (if has_member k source then value k source else o)

  value-keys : (r : Runtime) (k : Text) (m : Map A) → value k (keys r m).0 ≡ value k m
  unfolding keys convert
  value-keys r k m = refl

  found : (k : Text) (m : Map A) → has_member k m ≡ true → (v : A) × (value k m ≡ some v)
  unfolding has_member
  found k m h = has_item-get_item k (contents m) h

  abbrev pub IsOrderedSource : Option (Map A) → Type 0
  IsOrderedSource none = Unit
  IsOrderedSource (some m) = IsOrdered m

module _ {A : Type 0} (nil assigner : A) (r : Runtime) where
  first_of-spellings :
      (k : Text) (is : Items A) (v : A)
      → get_item k is ≡ some v
      → first_of nil assigner r (spellings r k) is ≡ v
  first_of-spellings k is v h = rw h refl

  member-value :
      (k : Text) (m : Map A) (v : A)
      → text_eq k (lit "__assign") ≡ false
      → value k m ≡ some v
      → member nil assigner r k m ≡ v
  unfolding member
  member-value k m v n h = rw n (first_of-spellings k (contents m) v h)

  value-assign_keys :
      (k : Text) (ks : List Text) (source target : Map A)
      → text_eq k (lit "__assign") ≡ false
      → value k (assign_keys nil assigner r ks source target)
        ≡ (if any (text_eq k) ks then some (member nil assigner r k source) else value k target)
  unfolding assign_keys
  value-assign_keys k [] source target n = refl
  value-assign_keys k (j ∷ ks) source target n = ground (
    arith,
    value-assign_keys k ks source (assign j (member nil assigner r j source) target) n,
    value-assign k j (member nil assigner r j source) target,
    text_eq_iff k j,
    text_eq_iff j k,
  )

  -- One source.
  value-source :
      (k : Text) (source target : Map A)
      → VisitsAll r
      → IsOrdered source
      → text_eq k (lit "__assign") ≡ false
      → value k (assign_keys nil assigner r (keys r source).1 (keys r source).0 target)
        ≡ (if has_member k source then value k source else value k target)
  value-source k source target all p n =
      value-assign_keys k (keys r source).1 (keys r source).0 target n
      ∙ rw ((keys-has_member r source all p).0 k) (elim (Bool-cases (has_member k source)) [
        | inr h ↦ rw h refl
        | inl h ↦
            let (v, e) = found k source h in
            rw (h, e) (ap some (member-value k (keys r source).0 v n (value-keys r k source ∙ e)))
      ])

  -- After Object.Assign each key has the value of the last source that has it, and else the one
  -- that it had in the target. This holds for every key but `__assign`, for sources whose order, if
  -- they have one, is complete.
  pub object_assign-value :
      (k : Text) (sources : List (Option (Map A))) (target : Map A)
      → VisitsAll r
      → All IsOrderedSource sources
      → text_eq k (lit "__assign") ≡ false
      → value k (object_assign nil assigner r sources target) ≡ latest k sources (value k target)
  unfolding object_assign
  object_assign-value k [] target all ps n = refl
  object_assign-value k (none ∷ sources) target all (p, ps) n =
      object_assign-value k sources target all ps n
  object_assign-value k (some source ∷ sources) target all (p, ps) n =
      object_assign-value k sources _ all ps n
      ∙ ap (latest k sources) (value-source k source target all p n)
