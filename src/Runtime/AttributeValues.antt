-- ===== src/Runtime/AttributeValues.antt =====
-- Which values `__attrs` collects for a name, and in which order the names come.
use pugtemplate.Common.{
  Text, lit, text_eq, text_eq_iff, Bool, true, false, List, [], ◌∷◌, ◌++◌, any, Option, none, some,
  if◌then◌else◌, ◌≡◌, refl, sym, ap, subst, ◌∙◌, arith, Bool-cases, inl, inr,
}
use pugtemplate.Objects.Map.{Items, get_item, put_item, item_keys}
use pugtemplate.Pug.Maps.{text_eq_sym}
use pugtemplate.Objects.Merge.{get_item-put_item}
use pugtemplate.Runtime.Attributes.{
  Attribute, TmpAttr, Collected, same_attr, tmp_attr, add_known, add_value, add_attr, collect_list,
  collect, collected,
}

-- The attributes of all lists.
abbrev pub flatten : List (List (Option Attribute)) → List (Option Attribute)
flatten [] = []
flatten (list ∷ lists) = list ++ flatten lists

collect_list-append :
    (xs ys : List (Option Attribute)) (c : Collected)
    → collect_list (xs ++ ys) c ≡ collect_list ys (collect_list xs c)
unfolding collect_list
collect_list-append [] ys c = refl
collect_list-append (none ∷ xs) ys c = collect_list-append xs ys c
collect_list-append (some x ∷ xs) ys c = collect_list-append xs ys (add_attr x c)

pub collect-flatten :
    (lists : List (List (Option Attribute))) (c : Collected)
    → collect lists c ≡ collect_list (flatten lists) c
unfolding collect collect_list
collect-flatten [] c = refl
collect-flatten (list ∷ lists) c =
    collect-flatten lists (collect_list list c) ∙ sym (collect_list-append list (flatten lists) c)

-- The last attribute of a name.
abbrev pub last_value :
    Text → List (Option Attribute) → Option (List TmpAttr) → Option (List TmpAttr)
last_value k [] o = o
last_value k (none ∷ xs) o = last_value k xs o
last_value k (some x ∷ xs) o =
    last_value k xs (if text_eq x.name k then some (tmp_attr x ∷ []) else o)

-- The names in the order of their first appearance, after those already there.
abbrev pub names : List (Option Attribute) → List Text → List Text
names [] order = order
names (none ∷ xs) order = names xs order
names (some x ∷ xs) order =
    names xs (if any (text_eq x.name) order then order else order ++ (x.name ∷ []))

abbrev pub IsOrdinary : Text → Type 0
IsOrdinary k = text_eq k (lit "class") ≡ false

-- A name that is `class` is no other.
text_eq-class : (k n : Text) → IsOrdinary k → text_eq n (lit "class") ≡ true → text_eq n k ≡ false
text_eq-class k n h e =
    ground (arith, text_eq_iff n (lit "class"), text_eq_iff n k, text_eq_iff k (lit "class"))

get_item-add_known :
    (k n : Text) (att : TmpAttr) (old : List TmpAttr) (c : Collected)
    → IsOrdinary k
    → get_item k (add_known n att old c).a
      ≡ (if text_eq n k then some (att ∷ []) else get_item k c.a)
unfolding add_known
get_item-add_known k n att old c h = elim (Bool-cases (text_eq n (lit "class"))) [
  | inl y ↦
      rw (y, text_eq-class k n h y)
        (elim (Bool-cases (any (λ s. same_attr s att) old)) [
          | inl d ↦ rw d refl
          | inr d ↦
              rw d (get_item-put_item k n (old ++ (att ∷ [])) c.a ∙ rw (text_eq-class k n h y) refl)
        ])
  | inr y ↦ rw y (get_item-put_item k n (att ∷ []) c.a)
]

get_item-add_value :
    (k n : Text) (att : TmpAttr) (o : Option (List TmpAttr)) (c : Collected)
    → IsOrdinary k
    → get_item k (add_value n att o c).a ≡ (if text_eq n k then some (att ∷ []) else get_item k c.a)
get_item-add_value k n att none c h = get_item-put_item k n (att ∷ []) c.a
get_item-add_value k n att (some old) c h = get_item-add_known k n att old c h

get_item-collect_list :
    (k : Text) (xs : List (Option Attribute)) (c : Collected)
    → IsOrdinary k
    → get_item k (collect_list xs c).a ≡ last_value k xs (get_item k c.a)
unfolding collect_list add_attr
get_item-collect_list k [] c h = refl
get_item-collect_list k (none ∷ xs) c h = get_item-collect_list k xs c h
get_item-collect_list k (some x ∷ xs) c h =
    get_item-collect_list k xs (add_attr x c) h
    ∙ ap (last_value k xs) (get_item-add_value k x.name (tmp_attr x) (get_item x.name c.a) c h)

-- For a name other than `class` the value of its last attribute is kept, and no other.
pub collected-last_value :
    (k : Text) (lists : List (List (Option Attribute)))
    → text_eq k (lit "class") ≡ false
    → get_item k (collected lists).a ≡ last_value k (flatten lists) none
unfolding get_item
collected-last_value k lists h =
    ap (λ c. get_item k c.a) (collect-flatten lists _) ∙ get_item-collect_list k (flatten lists) _ h

-- The names are those of the values.
abbrev IsNamed : Collected → Type 0
IsNamed c = c.order ≡ item_keys c.a

abbrev pub found : Option (List TmpAttr) → Bool
found none = false
found (some vs) = true

any-item_keys :
    (k : Text) (is : Items (List TmpAttr)) → any (text_eq k) (item_keys is) ≡ found (get_item k is)
unfolding get_item
any-item_keys k [] = refl
any-item_keys k ((j, v) ∷ is) = ground (arith, text_eq_sym j k, any-item_keys k is)

cons_if :
    (b : Bool) (j : Text) (xs ys : List Text)
    → (j ∷ (if b then xs else ys)) ≡ (if b then j ∷ xs else j ∷ ys)
cons_if true j xs ys = refl
cons_if false j xs ys = refl

is_known :
    (n : Text) (o : Option (List TmpAttr)) (c : Collected)
    → get_item n c.a ≡ o
    → IsNamed c
    → any (text_eq n) c.order ≡ found o
is_known n o c e h = ap (any (text_eq n)) h ∙ any-item_keys n c.a ∙ ap found e

item_keys-put_item :
    (k : Text) (v : List TmpAttr) (is : Items (List TmpAttr))
    → item_keys (put_item k v is)
      ≡ (if found (get_item k is) then item_keys is else item_keys is ++ (k ∷ []))
unfolding put_item get_item
item_keys-put_item k v [] = refl
item_keys-put_item k v ((j, w) ∷ is) = elim (Bool-cases (text_eq j k)) [
  | inl e ↦ rw e (ap (λ (n : Text). n ∷ item_keys is) (sym ((text_eq_iff j k).0 e)))
  | inr e ↦ rw e (
      ap (λ (ks : List Text). j ∷ ks) (item_keys-put_item k v is)
      ∙ cons_if (found (get_item k is)) j _ _)
]

abbrev added_name : Text → List Text → List Text
added_name n order = if any (text_eq n) order then order else order ++ (n ∷ [])

-- A name that has values keeps its place.
item_keys-known :
    (n : Text) (v old : List TmpAttr) (is : Items (List TmpAttr))
    → get_item n is ≡ some old
    → item_keys is ≡ item_keys (put_item n v is)
item_keys-known n v old is e = sym (item_keys-put_item n v is ∙ rw e refl)

add_known-IsNamed :
    (n : Text) (att : TmpAttr) (old : List TmpAttr) (c : Collected)
    → get_item n c.a ≡ some old
    → IsNamed c
    → IsNamed (add_known n att old c) × ((add_known n att old c).order ≡ c.order)
unfolding add_known
add_known-IsNamed n att old c e h = elim (Bool-cases (text_eq n (lit "class"))) [
  | inl y ↦ rw y (elim (Bool-cases (any (λ s. same_attr s att) old)) [
    | inl d ↦ rw d (h, refl)
    | inr d ↦ rw d (h ∙ item_keys-known n (old ++ (att ∷ [])) old c.a e, refl)
  ])
  | inr y ↦ rw y (h ∙ item_keys-known n (att ∷ []) old c.a e, refl)
]

add_value-IsNamed :
    (n : Text) (att : TmpAttr) (o : Option (List TmpAttr)) (c : Collected)
    → get_item n c.a ≡ o
    → IsNamed c
    → IsNamed (add_value n att o c) × ((add_value n att o c).order ≡ added_name n c.order)
add_value-IsNamed n att none c e h = (
  ap (λ (ks : List Text). ks ++ (n ∷ [])) h ∙ sym (item_keys-put_item n (att ∷ []) c.a ∙ rw e refl),
  sym (rw (is_known n none c e h) refl),
)
add_value-IsNamed n att (some old) c e h =
    let k = add_known-IsNamed n att old c e h in
    (k.0, k.1 ∙ sym (rw (is_known n (some old) c e h) refl))

collect_list-IsNamed :
    (xs : List (Option Attribute)) (c : Collected)
    → IsNamed c
    → IsNamed (collect_list xs c) × ((collect_list xs c).order ≡ names xs c.order)
unfolding collect_list add_attr
collect_list-IsNamed [] c h = (h, refl)
collect_list-IsNamed (none ∷ xs) c h = collect_list-IsNamed xs c h
collect_list-IsNamed (some x ∷ xs) c h =
    let n = add_value-IsNamed x.name (tmp_attr x) (get_item x.name c.a) c refl h in
    let rest = collect_list-IsNamed xs (add_attr x c) n.0 in (rest.0, rest.1 ∙ ap (names xs) n.1)

-- Every name is rendered once, at the place of its first attribute, and the names rendered are
-- those that have values.
pub collected-names :
    (lists : List (List (Option Attribute)))
    → ((collected lists).order ≡ names (flatten lists) [])
      × ((collected lists).order ≡ item_keys (collected lists).a)
collected-names lists =
    let c = collect_list-IsNamed (flatten lists) (record { a = []; order = [] }) refl in
    let e = collect-flatten lists (record { a = []; order = [] }) in
    (ap (λ c. c.order) e ∙ c.1, subst IsNamed (sym e) c.0)
