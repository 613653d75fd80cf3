-- ===== src/Runtime/Attributes.antt =====
-- The attributes of tags in pugjs/runtime.go: `__attr`, `__and_attrs` and `__attrs`.
use pugtemplate.Common.{
  Text, lit, text_eq, trim_space, length, take, Bool, true, false, ◌&&◌, not, List, [], ◌∷◌, ◌++◌,
  any, Option, none, some, ◌==◌, if◌then◌else◌,
}
use pugtemplate.Common.Result.{Result, ok, panicked, ◌>>=◌}
use pugtemplate.Js.Escape.{html_escape}
use pugtemplate.Objects.Map.{Items, get_item, put_item}
use pugtemplate.Runtime.Value.{Floats, Object, Value, string_of}

-- Attribute; `bool_val` is none for a nil pointer.
pub record Attribute : Type 0 where
  pub name : Text
  pub val : Text
  pub must_escape : Bool
  pub bool_val : Option Bool

module _ (fl : Floats) where
  -- The attribute of a value with its text; fmt prints a value that is not a Boolean with %t as
  -- `bad`.
  abbrev flag_attribute : Text → Bool → Attribute
  flag_attribute k b = record { name = k; val = []; must_escape = false; bool_val = some b }

  abbrev text_attribute : Text → Text → Bool → Attribute
  text_attribute k s e = record { name = k; val = s; must_escape = e; bool_val = none }

  abbrev object_attribute : Text → Object fl → Bool → Attribute
  object_attribute k (Object.boolean b) e = flag_attribute k b
  object_attribute k Object.nil e = flag_attribute k false
  object_attribute k o e = text_attribute k (string_of fl o) e

  -- `__attr`.
  unfoldable pub attr : (Value fl → Text) → Text → Value fl → Bool → Attribute
  unfolding string_of
  attr bad k (Value.bool b) e = flag_attribute k b
  attr bad k (Value.object o) e = object_attribute k o e
  attr bad k (Value.text s) e = text_attribute k s e
  attr bad k v e = text_attribute k (bad v) e

  abbrev bool_of : Object fl → Option Bool
  bool_of (Object.boolean b) = some b
  bool_of _ = none

  -- `__and_attrs`: the keys of a map with their members.
  unfoldable pub and_attrs : List (Text × Object fl) → List Attribute
  unfolding string_of
  and_attrs [] = []
  and_attrs ((k, o) ∷ members) =
      record { name = k; val = string_of fl o; must_escape = true; bool_val = bool_of o }
      ∷ and_attrs members

-- tmpattr, the value of one attribute.
pub record TmpAttr : Type 0 where
  pub must_escape : Bool
  pub val : Text
  pub bool : Option Bool

abbrev pub is_none {ℓ} : {A : Type ℓ} → Option A → Bool
is_none none = true
is_none (some a) = false

abbrev pub bool_eq : Bool → Bool → Bool
bool_eq true b = b
bool_eq false b = not b

-- `==` on tmpattr for a new attribute: its pointer, if it has one, is new.
unfoldable pub same_attr : TmpAttr → TmpAttr → Bool
unfolding text_eq
same_attr s att =
    bool_eq s.must_escape att.must_escape
    && (text_eq s.val att.val && (is_none s.bool && is_none att.bool))

abbrev tmp_val : Attribute → Option Bool → Text
tmp_val a none = a.val
tmp_val a (some b) = if a.must_escape then a.name else lit "\"" ++ (a.name ++ lit "\"")

unfoldable pub tmp_attr : Attribute → TmpAttr
unfolding lit
tmp_attr a = record { must_escape = a.must_escape; val = tmp_val a a.bool_val; bool = a.bool_val }

-- The values of every name, and the names in the order in which they came.
pub record Collected : Type 0 where
  pub a : Items (List TmpAttr)
  pub order : List Text

-- One attribute whose name has values already, or not.
unfoldable pub add_known : Text → TmpAttr → List TmpAttr → Collected → Collected
unfolding text_eq put_item same_attr
add_known name att old c =
    if text_eq name (lit "class")
    then (if any (λ s. same_attr s att) old
        then c
        else record c { a = put_item name (old ++ (att ∷ [])) c.a })
    else record c { a = put_item name (att ∷ []) c.a }

abbrev pub add_value : Text → TmpAttr → Option (List TmpAttr) → Collected → Collected
add_value name att (some old) c = add_known name att old c
add_value name att none c = record {
  a = put_item name (att ∷ []) c.a;
  order = c.order ++ (name ∷ []);
}

unfoldable pub add_attr : Attribute → Collected → Collected
unfolding add_known get_item tmp_attr
add_attr x c = add_value x.name (tmp_attr x) (get_item x.name c.a) c

-- One list of attributes, of which nil ones are skipped, and all of them.
unfoldable pub collect_list : List (Option Attribute) → Collected → Collected
unfolding add_attr
collect_list [] c = c
collect_list (none ∷ list) c = collect_list list c
collect_list (some x ∷ list) c = collect_list list (add_attr x c)

unfoldable pub collect : List (List (Option Attribute)) → Collected → Collected
unfolding collect_list
collect [] c = c
collect (list ∷ lists) c = collect lists (collect_list list c)

abbrev unquoted_tail : Text → Result Text
unquoted_tail [] = panicked
unquoted_tail (d ∷ t) = ok (take (length t) (d ∷ t))

-- A value that is not escaped loses its first and last byte, and is dropped unless it starts with
-- a quote. It panics on an empty value and on a quote alone.
unfoldable pub unquoted : Text → Result Text
unquoted [] = panicked
unquoted (c ∷ s) = if c == 34 then unquoted_tail s else ok []

unfoldable pub value_text : TmpAttr → Result Text
unfolding unquoted
value_text v = if v.must_escape then ok (html_escape v.val) else unquoted v.val

abbrev pub is_false : Option Bool → Bool
is_false (some b) = not b
is_false none = false

abbrev pub spaced : Text → Text
spaced [] = []
spaced (c ∷ s) = (c ∷ s) ++ lit " "

-- The text of the values, none for an attribute that is not rendered.
unfoldable pub values_text : Text → List TmpAttr → Text → Result (Option Text)
unfolding value_text lit text_eq
values_text attr [] tmp = ok (some tmp)
values_text attr (v ∷ vs) tmp =
    let rest = value_text v >>= λ (s : Text). values_text attr vs (spaced tmp ++ s) in
    let skipped = values_text attr vs tmp in
    if is_false v.bool then (if text_eq attr (lit "class") then skipped else ok none) else rest

abbrev pub one_attr : Text → Option Text → Text
one_attr attr none = []
one_attr attr (some tmp) =
    let trimmed = trim_space tmp in
    if text_eq trimmed [] && text_eq attr (lit "class")
    then []
    else lit " " ++ (attr ++ (lit "=\"" ++ (trimmed ++ lit "\"")))

abbrev pub values_of : Option (List TmpAttr) → List TmpAttr
values_of none = []
values_of (some vs) = vs

unfoldable pub render_attrs : List Text → Items (List TmpAttr) → Result Text
unfolding values_text trim_space get_item
render_attrs [] a = ok []
render_attrs (attr ∷ order) a =
    values_text attr (values_of (get_item attr a)) [] >>= λ (t : Option Text).
    render_attrs order a >>= λ (rest : Text). ok (one_attr attr t ++ rest)

abbrev pub collected : List (List (Option Attribute)) → Collected
collected lists = collect lists (record { a = []; order = [] })

-- `__attrs`.
unfoldable pub attrs : List (List (Option Attribute)) → Result Text
unfolding collect render_attrs
attrs lists = render_attrs (collected lists).order (collected lists).a
