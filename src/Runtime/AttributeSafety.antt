-- ===== src/Runtime/AttributeSafety.antt =====
-- What `__attrs` renders, and when it does not panic.
use pugtemplate.Common.{
  Text, ℕ, lit, text_eq, trim_space, trim_left, trim_right, is_space, take, length, Bool, true,
  ◌&&◌, List, [], ◌∷◌, ◌++◌, all, Option, none, some, ◌==◌, ==_iff, ◌≡◌, ◌≢◌, ◌⊎◌, refl, sym, ap,
  subst, arith, append_assoc, Bool-cases, inl, inr, All, All-append,
}
use pugtemplate.Common.Result.{ok}
use pugtemplate.Js.Escape.{IsInert, html_escape, html_escape-IsInert}
use pugtemplate.Objects.Map.{Items, get_item, put_item}
use pugtemplate.Runtime.Attributes.{
  Attribute, TmpAttr, Collected, tmp_attr, add_known, add_value, add_attr, collect_list, collected,
  unquoted, value_text, is_false, spaced, values_text, one_attr, values_of, render_attrs, attrs,
}
use pugtemplate.Runtime.AttributeValues.{flatten, names, collect-flatten, collected-names}

-- Some of the names, in order, each with a quoted value whose bytes all satisfy P.
pub data Rendered (P : ℕ → Type 0) : List Text → Text → Type 0 where
  empty : Rendered P [] []
  skipped : (n : Text) {ns : List Text} {t : Text} → Rendered P ns t → Rendered P (n ∷ ns) t
  attribute :
      (n v : Text) {ns : List Text} {t : Text}
      → All P v
      → Rendered P ns t
      → Rendered P (n ∷ ns) (lit " " ++ (n ++ (lit "=\"" ++ (v ++ (lit "\"" ++ t)))))

module _ (P : ℕ → Type 0) where
  All-trim_left : (p : ℕ → Bool) (s : Text) → All P s → All P (trim_left p s)
  unfolding trim_left
  All-trim_left p [] h = h
  All-trim_left p (c ∷ s) h = elim (Bool-cases (p c)) [
    | inl e ↦ rw e (All-trim_left p s h.1)
    | inr e ↦ rw e h
  ]

  All-trim_right : (p : ℕ → Bool) (s : Text) → All P s → All P (trim_right p s)
  unfolding trim_right
  All-trim_right p [] h = h
  All-trim_right p (c ∷ s) h = elim (Bool-cases (p c && all p s)) [
    | inl e ↦ rw e tt
    | inr e ↦ rw e (h.0, All-trim_right p s h.1)
  ]

  All-trim_space : (s : Text) → All P s → All P (trim_space s)
  unfolding trim_space
  All-trim_space s h = All-trim_right is_space _ (All-trim_left is_space s h)

  All-spaced : (s : Text) → P 32 → All P s → All P (spaced s)
  unfolding lit
  All-spaced [] b h = h
  All-spaced (c ∷ s) b h = All-append P (c ∷ s) (lit " ") h (b, tt)

-- A predicate that holds of the values of all attributes holds of those that are collected.
module _ (Q : TmpAttr → Type 0) where
  abbrev AllValues : Items (List TmpAttr) → Type 0
  AllValues is = All (λ i. All Q i.1) is

  AllValues-put_item :
      (n : Text) (vs : List TmpAttr) (is : Items (List TmpAttr))
      → All Q vs
      → AllValues is
      → AllValues (put_item n vs is)
  unfolding put_item
  AllValues-put_item n vs [] h k = (h, tt)
  AllValues-put_item n vs ((j, w) ∷ is) h k = elim (Bool-cases (text_eq j n)) [
    | inl e ↦ rw e (h, k.1)
    | inr e ↦ rw e (k.0, AllValues-put_item n vs is h k.1)
  ]

  AllValues-get_item :
      (n : Text) (is : Items (List TmpAttr)) → AllValues is → All Q (values_of (get_item n is))
  unfolding get_item
  AllValues-get_item n [] h = tt
  AllValues-get_item n ((j, w) ∷ is) h = elim (Bool-cases (text_eq j n)) [
    | inl e ↦ rw e h.0
    | inr e ↦ rw e (AllValues-get_item n is h.1)
  ]

  AllValues-add_value :
      (n : Text) (att : TmpAttr) (o : Option (List TmpAttr)) (c : Collected)
      → Q att
      → All Q (values_of o)
      → AllValues c.a
      → AllValues (add_value n att o c).a
  unfolding add_known
  AllValues-add_value n att none c q h k = AllValues-put_item n (att ∷ []) c.a (q, tt) k
  AllValues-add_value n att (some old) c q h k = ground (
    arith,
    k,
    AllValues-put_item n (att ∷ []) c.a (q, tt) k,
    AllValues-put_item n (old ++ (att ∷ [])) c.a (All-append Q old (att ∷ []) h (q, tt)) k,
  )

  abbrev pub AllAttributes : List (Option Attribute) → Type 0
  AllAttributes [] = Unit
  AllAttributes (none ∷ xs) = AllAttributes xs
  AllAttributes (some x ∷ xs) = Q (tmp_attr x) × AllAttributes xs

  AllValues-collect_list :
      (xs : List (Option Attribute)) (c : Collected)
      → AllAttributes xs
      → AllValues c.a
      → AllValues (collect_list xs c).a
  unfolding collect_list add_attr
  AllValues-collect_list [] c h k = k
  AllValues-collect_list (none ∷ xs) c h k = AllValues-collect_list xs c h k
  AllValues-collect_list (some x ∷ xs) c h k = AllValues-collect_list xs (add_attr x c) h.1 (
      AllValues-add_value x.name (tmp_attr x) (get_item x.name c.a) c h.0
        (AllValues-get_item x.name c.a k) k)

module _ (P : ℕ → Type 0) (space : P 32) (Q : TmpAttr → Type 0)
    (text : (v : TmpAttr) → Q v → (s : Text) × (value_text v ≡ ok s) × All P s) where
  abbrev AllOf : Option Text → Type 0
  AllOf none = Unit
  AllOf (some s) = All P s

  values_text-ok :
      (attr : Text) (vs : List TmpAttr) (tmp : Text)
      → All Q vs
      → All P tmp
      → (o : Option Text) × (values_text attr vs tmp ≡ ok o) × AllOf o
  unfolding values_text
  values_text-ok attr [] tmp h k = (some tmp, refl, k)
  values_text-ok attr (v ∷ vs) tmp h k = elim (Bool-cases (is_false v.bool)) [
    | inl e ↦ elim (Bool-cases (text_eq attr (lit "class"))) [
      | inl c ↦ rw (e, c) (values_text-ok attr vs tmp h.1 k)
      | inr c ↦ (none, rw (e, c) refl, tt)
    ]
    | inr e ↦
        let r = text v h.0 in
        let s = spaced tmp ++ r.0 in
        let rest =
          values_text-ok attr vs s h.1
            (All-append P (spaced tmp) r.0 (All-spaced P tmp space k) r.2) in
        (rest.0, rw (e, r.1) rest.1, rest.2)
  ]

  one_attr-Rendered :
      (attr : Text) (o : Option Text) {ns : List Text} {t : Text}
      → AllOf o
      → Rendered P ns t
      → Rendered P (attr ∷ ns) (one_attr attr o ++ t)
  one_attr-Rendered attr none h r = skipped attr r
  one_attr-Rendered attr (some tmp) h r =
      elim (Bool-cases (text_eq (trim_space tmp) [] && text_eq attr (lit "class"))) [
        | inl e ↦ rw e (skipped attr r)
        | inr e ↦ rw e (simp append_assoc (attribute attr _ (All-trim_space P tmp h) r))
      ]

  render_attrs-Rendered :
      (order : List Text) (a : Items (List TmpAttr))
      → AllValues Q a
      → (t : Text) × (render_attrs order a ≡ ok t) × Rendered P order t
  unfolding render_attrs
  render_attrs-Rendered [] a h = ([], refl, empty)
  render_attrs-Rendered (n ∷ order) a h =
      let v = values_text-ok n (values_of (get_item n a)) [] (AllValues-get_item Q n a h) tt in
      let r = render_attrs-Rendered order a h in
      (_, rw (v.1, r.1) refl, one_attr-Rendered n v.0 v.2 r.2)

  attrs-Rendered :
      (lists : List (List (Option Attribute)))
      → AllAttributes Q (flatten lists)
      → (t : Text) × (attrs lists ≡ ok t) × Rendered P (names (flatten lists) []) t
  unfolding attrs
  attrs-Rendered lists h =
      let all_values =
        subst (λ c. AllValues Q c.a) (sym (collect-flatten lists _))
          (AllValues-collect_list Q (flatten lists) _ h tt) in
      let r = render_attrs-Rendered (collected lists).order (collected lists).a all_values in
      (r.0, r.1, subst (λ ns. Rendered P ns r.0) (collected-names lists).0 r.2)

abbrev pub IsEscaped : TmpAttr → Type 0
IsEscaped v = v.must_escape ≡ true

escaped_text : (v : TmpAttr) → IsEscaped v → (s : Text) × (value_text v ≡ ok s) × All IsInert s
unfolding value_text
escaped_text v h = (html_escape v.val, rw h refl, html_escape-IsInert v.val)

space-IsInert : IsInert 32
space-IsInert = ground arith

-- If all attributes are escaped, the text is rendered, without a panic, and consists of some of
-- their names, in the order of their first appearance and each once, with values between quotation
-- marks that hold neither quotation marks nor angle brackets.
pub attrs-Escaped :
    (lists : List (List (Option Attribute)))
    → AllAttributes IsEscaped (flatten lists)
    → (t : Text) × (attrs lists ≡ ok t) × Rendered IsInert (names (flatten lists) []) t
attrs-Escaped lists h = attrs-Rendered IsInert space-IsInert IsEscaped escaped_text lists h

-- A text that `__attrs` can take apart: neither empty nor a quotation mark alone.
abbrev pub IsQuoted : TmpAttr → Type 0
IsQuoted v = (v.must_escape ≡ true) ⊎ ((v.val ≢ []) × (v.val ≢ 34 ∷ []))

unquoted-ok : (s : Text) → s ≢ [] → s ≢ 34 ∷ [] → (t : Text) × (unquoted s ≡ ok t)
unfolding unquoted
unquoted-ok [] e q = absurd (e refl)
unquoted-ok (c ∷ []) e q = elim (Bool-cases (c == 34)) [
  | inl h ↦ absurd (q (ap (λ (b : ℕ). b ∷ []) ((==_iff c 34).0 h)))
  | inr h ↦ ([], rw h refl)
]
unquoted-ok (c ∷ d ∷ s) e q = elim (Bool-cases (c == 34)) [
  | inl h ↦ (take (length s) (d ∷ s), rw h refl)
  | inr h ↦ ([], rw h refl)
]

abbrev Anything : ℕ → Type 0
Anything c = Unit

anything : (s : Text) → All Anything s
anything [] = tt
anything (c ∷ s) = (tt, anything s)

quoted_text : (v : TmpAttr) → IsQuoted v → (s : Text) × (value_text v ≡ ok s) × All Anything s
unfolding value_text
quoted_text v h = elim (Bool-cases v.must_escape) [
  | inl e ↦ (html_escape v.val, rw e refl, anything _)
  | inr e ↦ elim h [
    | inl t ↦ absurd (cc)
    | inr n ↦ let u = unquoted-ok v.val n.0 n.1 in (u.0, rw e u.1, anything u.0)
  ]
]

-- `__attrs` does not panic if each attribute that is not escaped has a value that is neither empty
-- nor a quotation mark alone.
pub attrs-ok :
    (lists : List (List (Option Attribute)))
    → AllAttributes IsQuoted (flatten lists)
    → (t : Text) × (attrs lists ≡ ok t)
attrs-ok lists h = let r = attrs-Rendered Anything tt IsQuoted quoted_text lists h in (r.0, r.1)
