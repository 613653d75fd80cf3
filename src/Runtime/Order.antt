-- ===== src/Runtime/Order.antt =====
-- What the comparisons have to do with each other.
use pugtemplate.Common.{
  Text, text_eq, Bool, true, false, ◌&&◌, [], ◌∷◌, ℤ, ltb_ℤ, eqb_ℤ, if◌then◌else◌, ◌≡◌, refl, arith,
}
use pugtemplate.Pug.Maps.{text_eq_sym}
use pugtemplate.Runtime.Value.{Floats, Value, Kind, kind, string_of, show_int}
use pugtemplate.Runtime.Compare.{
  text_lt, is_nil, or_zero, objects_eql, kinds_eql, kinds_lss, runtime_eql, runtime_lss, op_gt,
  op_gte, op_lte, op_neq,
}

-- What is used of floats: `<` is asymmetric and excludes `==`, which is symmetric. All three hold
-- with NaN too.
pub record HasOrder (fl : Floats) : Type 0 where
  pub lt_asym : (x y : fl.F) → fl.lt x y ≡ true → fl.lt y x ≡ false
  pub eq_of_lt : (x y : fl.F) → fl.lt x y ≡ true → fl.eq x y ≡ false
  pub eq_sym : (x y : fl.F) → fl.eq x y ≡ fl.eq y x

pub text_lt_asym : (s t : Text) → text_lt s t ≡ true → text_lt t s ≡ false
unfolding text_lt
text_lt_asym [] [] h = cc
text_lt_asym [] (d ∷ t) h = refl
text_lt_asym (c ∷ s) [] h = cc
text_lt_asym (c ∷ s) (d ∷ t) h = ground (arith, text_lt_asym s t)

text_eq-of_text_lt : (s t : Text) → text_lt s t ≡ true → text_eq s t ≡ false
unfolding text_lt text_eq
text_eq-of_text_lt [] [] h = cc
text_eq-of_text_lt [] (d ∷ t) h = refl
text_eq-of_text_lt (c ∷ s) [] h = cc
text_eq-of_text_lt (c ∷ s) (d ∷ t) h = ground (arith, text_eq-of_text_lt s t)

pub ltb_ℤ-asym : (i j : ℤ) → ltb_ℤ i j ≡ true → ltb_ℤ j i ≡ false
ltb_ℤ-asym i j h = ground (arith, h)

pub eqb_ℤ-of_ltb_ℤ : (i j : ℤ) → ltb_ℤ i j ≡ true → eqb_ℤ i j ≡ false
eqb_ℤ-of_ltb_ℤ i j h = ground (arith, h)

pub eqb_ℤ-sym : (i j : ℤ) → eqb_ℤ i j ≡ eqb_ℤ j i
eqb_ℤ-sym i j = ground arith

-- The test for two nils before the operands are compared.
guard_asym :
    (a b p q : Bool)
    → (if a && b then false else p) ≡ true
    → (p ≡ true → q ≡ false)
    → (if b && a then false else q) ≡ false
guard_asym true true p q h f = refl
guard_asym true false p q h f = f h
guard_asym false true p q h f = f h
guard_asym false false p q h f = f h

guard_eql :
    (a p q : Bool)
    → (if a then false else p) ≡ true
    → (p ≡ true → q ≡ false)
    → (if a then true else q) ≡ false
guard_eql true p q h f = cc
guard_eql false p q h f = f h

guard_sym :
    (a b : Bool) {p q : Bool} → p ≡ q → (if a && b then true else p) ≡ (if b && a then true else q)
guard_sym true true e = refl
guard_sym true false e = e
guard_sym false true e = e
guard_sym false false e = e

module _ (fl : Floats) (o : HasOrder fl) where
  open fl use {of_int, show_f}

  kinds_lss-asym : (k l : Kind fl) → kinds_lss fl k l ≡ true → kinds_lss fl l k ≡ false
  kinds_lss-asym (Kind.int i) (Kind.int j) h = ltb_ℤ-asym i j h
  kinds_lss-asym (Kind.int i) (Kind.float y) h = o.lt_asym (of_int i) y h
  kinds_lss-asym (Kind.int i) (Kind.string t) h = text_lt_asym (show_int i) t h
  kinds_lss-asym (Kind.int i) (Kind.bool c) h = refl
  kinds_lss-asym (Kind.int i) Kind.other h = refl
  kinds_lss-asym (Kind.float x) (Kind.int j) h = o.lt_asym x (of_int j) h
  kinds_lss-asym (Kind.float x) (Kind.float y) h = o.lt_asym x y h
  kinds_lss-asym (Kind.float x) (Kind.string t) h = text_lt_asym (show_f x) t h
  kinds_lss-asym (Kind.float x) (Kind.bool c) h = refl
  kinds_lss-asym (Kind.float x) Kind.other h = refl
  kinds_lss-asym (Kind.string s) (Kind.int j) h = text_lt_asym s (show_int j) h
  kinds_lss-asym (Kind.string s) (Kind.float y) h = text_lt_asym s (show_f y) h
  kinds_lss-asym (Kind.string s) (Kind.string t) h = text_lt_asym s t h
  kinds_lss-asym (Kind.string s) (Kind.bool c) h = refl
  kinds_lss-asym (Kind.string s) Kind.other h = refl
  kinds_lss-asym (Kind.bool b) l h = cc
  kinds_lss-asym Kind.other l h = cc

  kinds_eql-of_kinds_lss :
      (k l : Kind fl) (rest : Bool) → kinds_lss fl k l ≡ true → kinds_eql fl k l rest ≡ false
  kinds_eql-of_kinds_lss (Kind.int i) (Kind.int j) rest h = eqb_ℤ-of_ltb_ℤ i j h
  kinds_eql-of_kinds_lss (Kind.int i) (Kind.float y) rest h = o.eq_of_lt (of_int i) y h
  kinds_eql-of_kinds_lss (Kind.int i) (Kind.string t) rest h = text_eq-of_text_lt (show_int i) t h
  kinds_eql-of_kinds_lss (Kind.int i) (Kind.bool c) rest h = cc
  kinds_eql-of_kinds_lss (Kind.int i) Kind.other rest h = cc
  kinds_eql-of_kinds_lss (Kind.float x) (Kind.int j) rest h = o.eq_of_lt x (of_int j) h
  kinds_eql-of_kinds_lss (Kind.float x) (Kind.float y) rest h = o.eq_of_lt x y h
  kinds_eql-of_kinds_lss (Kind.float x) (Kind.string t) rest h = text_eq-of_text_lt (show_f x) t h
  kinds_eql-of_kinds_lss (Kind.float x) (Kind.bool c) rest h = cc
  kinds_eql-of_kinds_lss (Kind.float x) Kind.other rest h = cc
  kinds_eql-of_kinds_lss (Kind.string s) (Kind.int j) rest h = text_eq-of_text_lt s (show_int j) h
  kinds_eql-of_kinds_lss (Kind.string s) (Kind.float y) rest h = text_eq-of_text_lt s (show_f y) h
  kinds_eql-of_kinds_lss (Kind.string s) (Kind.string t) rest h = text_eq-of_text_lt s t h
  kinds_eql-of_kinds_lss (Kind.string s) (Kind.bool c) rest h = cc
  kinds_eql-of_kinds_lss (Kind.string s) Kind.other rest h = cc
  kinds_eql-of_kinds_lss (Kind.bool b) l rest h = cc
  kinds_eql-of_kinds_lss Kind.other l rest h = cc

  runtime_lss_asym : (x y : Value fl) → runtime_lss fl x y ≡ true → runtime_lss fl y x ≡ false
  unfolding runtime_lss
  runtime_lss_asym x y h =
      guard_asym (is_nil fl x) (is_nil fl y) _ _ h
        (kinds_lss-asym (kind fl (or_zero fl x)) (kind fl (or_zero fl y)))

  runtime_eql-of_runtime_lss :
      (x y : Value fl) → runtime_lss fl x y ≡ true → runtime_eql fl x y ≡ false
  unfolding runtime_lss runtime_eql
  runtime_eql-of_runtime_lss x y h =
      guard_eql (is_nil fl x && is_nil fl y) _ _ h
        (kinds_eql-of_kinds_lss (kind fl (or_zero fl x)) (kind fl (or_zero fl y)) _)

  -- When the operands are in order, they are neither in the opposite order nor equal, and the other
  -- comparisons say so.
  pub runtime_lss-excludes :
      (x y : Value fl)
      → runtime_lss fl x y ≡ true
      → (runtime_lss fl y x ≡ false)
        × (runtime_eql fl x y ≡ false)
        × (op_gt fl x y ≡ false)
        × (op_gte fl x y ≡ false)
        × (op_lte fl x y ≡ true)
        × (op_neq fl x y ≡ true)
        × (op_gte fl y x ≡ true)
  unfolding op_gt op_gte op_lte op_neq
  runtime_lss-excludes x y h =
      let e = runtime_eql-of_runtime_lss x y h in
      let a = runtime_lss_asym x y h in
      (a, e, rw h refl, rw h refl, rw h refl, rw e refl, rw a refl)

  -- A comparison of a boolean with an integer, in either order.
  unfoldable pub mixes_bool : Kind fl → Kind fl → Bool
  mixes_bool (Kind.bool b) (Kind.int i) = true
  mixes_bool (Kind.int i) (Kind.bool b) = true
  mixes_bool _ _ = false

  kinds_eql_sym :
      (k l : Kind fl) (p q : Bool)
      → mixes_bool k l ≡ false
      → p ≡ q
      → kinds_eql fl k l p ≡ kinds_eql fl l k q
  unfolding mixes_bool
  kinds_eql_sym (Kind.int i) (Kind.int j) p q n e = eqb_ℤ-sym i j
  kinds_eql_sym (Kind.int i) (Kind.float y) p q n e = o.eq_sym (of_int i) y
  kinds_eql_sym (Kind.int i) (Kind.string t) p q n e = text_eq_sym (show_int i) t
  kinds_eql_sym (Kind.int i) (Kind.bool c) p q n e = cc
  kinds_eql_sym (Kind.int i) Kind.other p q n e = e
  kinds_eql_sym (Kind.float x) (Kind.int j) p q n e = o.eq_sym x (of_int j)
  kinds_eql_sym (Kind.float x) (Kind.float y) p q n e = o.eq_sym x y
  kinds_eql_sym (Kind.float x) (Kind.string t) p q n e = text_eq_sym (show_f x) t
  kinds_eql_sym (Kind.float x) (Kind.bool c) p q n e = e
  kinds_eql_sym (Kind.float x) Kind.other p q n e = e
  kinds_eql_sym (Kind.string s) (Kind.int j) p q n e = text_eq_sym s (show_int j)
  kinds_eql_sym (Kind.string s) (Kind.float y) p q n e = text_eq_sym s (show_f y)
  kinds_eql_sym (Kind.string s) (Kind.string t) p q n e = text_eq_sym s t
  kinds_eql_sym (Kind.string s) (Kind.bool c) p q n e = e
  kinds_eql_sym (Kind.string s) Kind.other p q n e = e
  kinds_eql_sym (Kind.bool b) (Kind.int j) p q n e = cc
  kinds_eql_sym (Kind.bool true) (Kind.bool true) p q n e = refl
  kinds_eql_sym (Kind.bool true) (Kind.bool false) p q n e = refl
  kinds_eql_sym (Kind.bool false) (Kind.bool true) p q n e = refl
  kinds_eql_sym (Kind.bool false) (Kind.bool false) p q n e = refl
  kinds_eql_sym (Kind.bool true) (Kind.float y) p q n e = e
  kinds_eql_sym (Kind.bool true) (Kind.string t) p q n e = e
  kinds_eql_sym (Kind.bool true) Kind.other p q n e = e
  kinds_eql_sym (Kind.bool false) (Kind.float y) p q n e = e
  kinds_eql_sym (Kind.bool false) (Kind.string t) p q n e = e
  kinds_eql_sym (Kind.bool false) Kind.other p q n e = e
  kinds_eql_sym Kind.other (Kind.int j) p q n e = e
  kinds_eql_sym Kind.other (Kind.float y) p q n e = e
  kinds_eql_sym Kind.other (Kind.string t) p q n e = e
  kinds_eql_sym Kind.other (Kind.bool true) p q n e = e
  kinds_eql_sym Kind.other (Kind.bool false) p q n e = e
  kinds_eql_sym Kind.other Kind.other p q n e = e

  objects_eql_sym : (x y : Value fl) → objects_eql fl x y ≡ objects_eql fl y x
  objects_eql_sym (Value.object x) (Value.object y) = text_eq_sym (string_of fl x) (string_of fl y)
  objects_eql_sym (Value.object x) Value.absent = refl
  objects_eql_sym (Value.object x) (Value.int i) = refl
  objects_eql_sym (Value.object x) (Value.float f) = refl
  objects_eql_sym (Value.object x) (Value.text t) = refl
  objects_eql_sym (Value.object x) (Value.bool b) = refl
  objects_eql_sym Value.absent (Value.object y) = refl
  objects_eql_sym (Value.int i) (Value.object y) = refl
  objects_eql_sym (Value.float f) (Value.object y) = refl
  objects_eql_sym (Value.text t) (Value.object y) = refl
  objects_eql_sym (Value.bool b) (Value.object y) = refl
  objects_eql_sym _ _ = refl

  -- Equality does not depend on the order of the operands, unless one is a boolean and the other an
  -- integer (or nil, which counts as one).
  pub runtime_eql_sym :
      (x y : Value fl)
      → mixes_bool (kind fl (or_zero fl x)) (kind fl (or_zero fl y)) ≡ false
      → runtime_eql fl x y ≡ runtime_eql fl y x
  unfolding runtime_eql
  runtime_eql_sym x y n = guard_sym (is_nil fl x) (is_nil fl y) (
      kinds_eql_sym (kind fl (or_zero fl x)) (kind fl (or_zero fl y)) _ _ n
        (objects_eql_sym (or_zero fl x) (or_zero fl y)))
