-- ===== src/Objects/Keys.antt =====
-- The order of a map is complete.
use pugtemplate.Common.{
  Text, text_eq, text_eq_iff, false, ◌&&◌, ◌||◌, not, List, [], ◌∷◌, ◌++◌, any, if◌then◌else◌, ◌≡◌,
  inl, inr, refl, arith, Bool-cases, ap, ◌∙◌, text_eq_refl, true, Bool,
}
use pugtemplate.Objects.Map.{
  Items, Map, Runtime, is_nil, put_item, has_item, item_keys, convert, contents, keys, assign,
  call_assign, has_member,
}
use pugtemplate.Pug.Maps.{text_eq_sym, any-append}

-- A range over a map visits exactly its keys.
pub record VisitsAll (r : Runtime) : Type 0 where
  pub visits : (ks : List Text) (k : Text) → any (text_eq k) (r.iterate ks) ≡ any (text_eq k) ks

-- A listing of keys is not empty.
listed-nonempty :
    (r : Runtime) (k : Text) (ks : List Text) → VisitsAll r → is_nil (r.iterate (k ∷ ks)) ≡ false
listed-nonempty r k ks all = full (r.iterate (k ∷ ks)) (all.visits (k ∷ ks) k)
  where
    full : (xs : List Text) → any (text_eq k) xs ≡ any (text_eq k) (k ∷ ks) → is_nil xs ≡ false
    full [] e = absurd (ground (arith, e, text_eq_refl k))
    full (x ∷ xs) e = refl

module _ {A : Type 0} where
  -- A map without an order, or one whose order names exactly its members.
  abbrev IsComplete : Items A → List Text → Type 0
  IsComplete is order = is_nil order ≡ false → (k : Text) → any (text_eq k) order ≡ has_item k is

  abbrev pub IsOrdered : Map A → Type 0
  IsOrdered m = IsComplete (contents m) (convert m).order

  pub has_item-put_item :
      (j k : Text) (v : A) (is : Items A)
      → has_item j (put_item k v is) ≡ (text_eq k j || has_item j is)
  unfolding has_item put_item
  has_item-put_item j k v [] = ground arith
  has_item-put_item j k v ((i, w) ∷ is) =
      ground (arith, text_eq_iff k j, text_eq_iff i k, text_eq_iff i j, has_item-put_item j k v is)

  has_item-item_keys : (k : Text) (is : Items A) → any (text_eq k) (item_keys is) ≡ has_item k is
  unfolding has_item
  has_item-item_keys k [] = refl
  has_item-item_keys k ((j, v) ∷ is) = ground (arith, text_eq_sym j k, has_item-item_keys k is)

  -- The order after an assignment.
  extended-IsComplete :
      (is : Items A) (order : List Text) (key : Text) (v : A)
      → IsComplete is order
      → IsComplete (put_item key v is) (
          if not (is_nil order) && not (any (text_eq key) order)
          then order ++ (key ∷ [])
          else order)
  extended-IsComplete is [] key v h n k = absurd (cc)
  extended-IsComplete is (o ∷ order) key v h n k = ground (
    arith,
    h refl k,
    h refl key,
    text_eq_iff key k,
    text_eq_sym key k,
    has_item-put_item k key v is,
    any-append (text_eq k) (o ∷ order) (key ∷ []),
  )

  assign-IsOrdered : (key : Text) (v : A) (m : Map A) → IsOrdered m → IsOrdered (assign key v m)
  unfolding assign convert
  assign-IsOrdered key v m p n k = extended-IsComplete (contents m) (convert m).order key v p n k

  same_test :
      (is : Items A) (order : List Text) (key : Text)
      → IsComplete is order
      → (not (is_nil order) && not (any (text_eq key) order))
        ≡ (not (is_nil order) && not (has_item key is))
  same_test is [] key h = refl
  same_test is (o ∷ order) key h = ap not (h refl key)

  -- `Assign` and the function that reading `__assign` gives do the same to a map whose order is
  -- complete, and leave it complete.
  pub assign-call_assign :
      (key : Text) (v : A) (m : Map A)
      → IsOrdered m
      → (call_assign key v m ≡ assign key v m) × IsOrdered (assign key v m)
  unfolding assign call_assign
  assign-call_assign key v m p =
      (rw (same_test (contents m) (convert m).order key p) refl, assign-IsOrdered key v m p)

  keys-any :
      (r : Runtime) (m : Map A) (k : Text)
      → VisitsAll r
      → IsOrdered m
      → any (text_eq k) (keys r m).1 ≡ has_member k m
  unfolding keys has_member
  keys-any r m k all p = elim (Bool-cases (is_nil (convert m).order)) [
    | inl n ↦ rw n (all.visits (item_keys (contents m)) k ∙ has_item-item_keys k (contents m))
    | inr n ↦ rw n (p n k)
  ]

  keys-IsOrdered : (r : Runtime) (m : Map A) → VisitsAll r → IsOrdered m → IsOrdered (keys r m).0
  unfolding keys convert has_member
  keys-IsOrdered r m all p n k = keys-any r m k all p

  -- The keys of a map whose order, if it has one, is complete are its members, whatever the order
  -- in which a range visits a map, as long as it visits every key; and the order of the map is
  -- complete after they were listed.
  pub keys-has_member :
      (r : Runtime) (m : Map A)
      → VisitsAll r
      → IsOrdered m
      → ((k : Text) → any (text_eq k) (keys r m).1 ≡ has_member k m) × IsOrdered (keys r m).0
  keys-has_member r m all p = (λ k. keys-any r m k all p, keys-IsOrdered r m all p)

  -- The first listing of a map.
  first_listing :
      (r : Runtime) (m : Map A)
      → is_nil (convert m).order ≡ true
      → (keys r m).1 ≡ r.iterate (item_keys (contents m))
  unfolding keys
  first_listing r m e = rw e refl

  -- The listing of a map with an order.
  later_listing :
      (r : Runtime) (m : Map A)
      → is_nil (convert m).order ≡ false
      → (keys r m).1 ≡ (convert m).order
  unfolding keys
  later_listing r m e = rw e refl

  module _ (r r' : Runtime) (m : Map A) (all : VisitsAll r)
      (unordered : is_nil (convert m).order ≡ true)
      (filled : is_nil (item_keys (contents m)) ≡ false) where
    listed : is_nil (keys r m).1 ≡ false
    listed = ap is_nil (first_listing r m unordered) ∙ nonempty (item_keys (contents m)) filled
      where
        nonempty : (ks : List Text) → is_nil ks ≡ false → is_nil (r.iterate ks) ≡ false
        nonempty [] e = absurd (ground (arith, e))
        nonempty (k ∷ ks) e = listed-nonempty r k ks all

    members : (k : Text) → any (text_eq k) (keys r m).1 ≡ has_member k m
    members k = keys-any r m k all λ n j. absurd (ground (arith, n, unordered))

    again : (keys r' (keys r m).0).1 ≡ (keys r m).1
    unfolding keys convert
    again = later_listing r' (keys r m).0 listed

    abbrev extended : Text → List Text
    extended key = if has_member key m then (keys r m).1 else (keys r m).1 ++ (key ∷ [])

    extended-order :
        (key : Text) (v : A) → (convert (assign key v (keys r m).0)).order ≡ extended key
    unfolding keys convert assign
    extended-order key v = order (keys r m).1 (has_member key m) listed (members key)
      where
        order :
            (ks : List Text) (b : Bool)
            → is_nil ks ≡ false
            → any (text_eq key) ks ≡ b
            → (if not (is_nil ks) && not (any (text_eq key) ks) then ks ++ (key ∷ []) else ks)
              ≡ (if b then ks else ks ++ (key ∷ []))
        order ks true f e = rw (f, e) refl
        order ks false f e = rw (f, e) refl

    extended-nonempty : (key : Text) → is_nil (extended key) ≡ false
    extended-nonempty key = elim (Bool-cases (has_member key m)) [
      | inl e ↦ rw e listed
      | inr e ↦ rw e (nonempty (keys r m).1 listed)
    ]
      where
        nonempty : (ks : List Text) → is_nil ks ≡ false → is_nil (ks ++ (key ∷ [])) ≡ false
        nonempty [] f = refl
        nonempty (k ∷ ks) f = refl

    -- The first listing of a map that is not empty and has no order gives exactly its members, and
    -- it fixes their order: in whatever order later ranges visit the map, they list it as the first
    -- one did, and after an assignment with the key at the end, if it is a new one.
    pub keys-keys :
        (key : Text) (v : A)
        → ((k : Text) → any (text_eq k) (keys r m).1 ≡ has_member k m)
          × ((keys r' (keys r m).0).1 ≡ (keys r m).1)
          × ((keys r' (assign key v (keys r m).0)).1
              ≡ (if has_member key m then (keys r m).1 else (keys r m).1 ++ (key ∷ [])))
    keys-keys key v = (
      members,
      again,
      later_listing r' (assign key v (keys r m).0)
            (ap is_nil (extended-order key v) ∙ extended-nonempty key)
          ∙ extended-order key v,
    )
