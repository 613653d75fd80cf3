-- ===== src/Tests/RuntimeExamples.antt =====
-- The theorems on the runtime operators and functions at concrete inputs.
use pugtemplate.Common.{
  all, any, Text, ℕ, lit, Bool, true, false, List, [], ◌∷◌, ◌++◌, Option, none, some, text_eq, ℤ,
  pos, negsuc, pos_part, neg_part, ltb_ℤ, eqb_ℤ, ◌+ℤ◌, ◌-ℤ◌, ◌*ℤ◌, abs_ℤ, ◌≡◌, ◌⊎◌, refl, inr, ◌%◌,
  ◌<◌,
}
use pugtemplate.Common.Result.{ok, panicked}
use pugtemplate.Js.Escape.{IsInert}
use pugtemplate.Objects.Map.{Items, Map, get_item, contents}
use pugtemplate.Objects.Keys.{IsOrdered}
use pugtemplate.Runtime.Value.{Floats, Object, Value, show_int, kind}
use pugtemplate.Template.Logic.{Stops, truth, op_and, op_or, op_not, logic-Stops}
use pugtemplate.Runtime.Arithmetic.{runtime_inc, runtime_dec, runtime_sub, runtime_mul, runtime_rem}
use pugtemplate.Runtime.Bounds.{IsExact, integers-IsExact, runtime_rem-integers}
use pugtemplate.Runtime.Compare.{runtime_eql, runtime_lss, op_gt, op_gte, op_lte, op_neq}
use pugtemplate.Runtime.Order.{
  HasOrder, ltb_ℤ-asym, eqb_ℤ-of_ltb_ℤ, eqb_ℤ-sym, runtime_lss-excludes, runtime_eql_sym,
  mixes_bool,
}
use pugtemplate.Runtime.Builtins.{op_map}
use pugtemplate.Runtime.MapParams.{
  Gathered, pairs, values_for, listed, op_map_params, op_map_params-listed,
}
use pugtemplate.Runtime.MapLiteral.{arguments, last_entry, written_keys, op_map-entries}
use pugtemplate.Runtime.Attributes.{Attribute, tmp_attr, collected, attrs}
use pugtemplate.Runtime.AttributeValues.{flatten, last_value, names, collected-last_value}
use pugtemplate.Runtime.AttributeSafety.{Rendered, AllAttributes, IsQuoted, attrs-Escaped}

-- Floats that are integers.
abbrev pub whole : Floats
whole = record {
  F = ℤ;
  of_int = λ i. i;
  to_int = λ i. i;
  add = λ x y. x +ℤ y;
  sub = λ x y. x -ℤ y;
  mul = λ x y. x *ℤ y;
  quo = λ x y. x;
  lt = ltb_ℤ;
  eq = eqb_ℤ;
  show = show_int;
  show_f = λ x. show_int x ++ lit ".000000";
  parse = λ s. pos 0;
}

pub whole-HasOrder : HasOrder whole
whole-HasOrder = record { lt_asym = ltb_ℤ-asym; eq_of_lt = eqb_ℤ-of_ltb_ℤ; eq_sym = eqb_ℤ-sym }

abbrev three : Value whole
three = Value.int (pos 3)

abbrev four : Value whole
four = Value.object (Object.number (pos 4))

runtime_lss-excludes_example :
    (runtime_lss whole four three ≡ false)
    × (runtime_eql whole three four ≡ false)
    × (op_gt whole three four ≡ false)
    × (op_gte whole three four ≡ false)
    × (op_lte whole three four ≡ true)
    × (op_neq whole three four ≡ true)
    × (op_gte whole four three ≡ true)
unfolding runtime_lss kind
runtime_lss-excludes_example = runtime_lss-excludes whole whole-HasOrder three four refl

runtime_eql_sym_example : runtime_eql whole three four ≡ runtime_eql whole four three
unfolding mixes_bool kind
runtime_eql_sym_example = runtime_eql_sym whole whole-HasOrder three four refl

-- The smallest integer of 64 bits.
abbrev smallest : ℤ
smallest = negsuc 9223372036854775807

integers-IsExact_example :
    IsExact (runtime_inc whole (Value.int smallest)) (smallest +ℤ pos 1)
    × IsExact (runtime_dec whole (Value.int smallest)) (smallest -ℤ pos 1)
    × ((r : ℤ) × (runtime_sub whole (Value.int smallest ∷ Value.int (pos 1) ∷ [])
          ≡ ok (Value.int r))
        × IsExact r (smallest -ℤ pos 1))
    × ((r : ℤ) × (runtime_sub whole (Value.int smallest ∷ []) ≡ ok (Value.int r))
        × IsExact r (pos 0 -ℤ smallest))
    × ((r : ℤ) × (runtime_mul whole (Value.int smallest) (Value.int (pos 1)) ≡ Value.int r)
        × IsExact r (smallest *ℤ pos 1))
integers-IsExact_example = integers-IsExact whole smallest (pos 1)

runtime_rem-integers_example :
    ((abs_ℤ (pos 3) ≡ 0)
      × (runtime_rem whole (Value.int (negsuc 6)) (Value.int (pos 3)) ≡ panicked))
    ⊎ ((r : ℤ) × (runtime_rem whole (Value.int (negsuc 6)) (Value.int (pos 3)) ≡ ok (Value.int r))
        × (abs_ℤ r < abs_ℤ (pos 3))
        × (abs_ℤ r ≡ abs_ℤ (negsuc 6) % abs_ℤ (pos 3))
        × (((neg_part (negsuc 6) ≡ 0) × (neg_part r ≡ 0))
            ⊎ ((pos_part (negsuc 6) ≡ 0) × (pos_part r ≡ 0))))
runtime_rem-integers_example = runtime_rem-integers whole (negsuc 6) (pos 3)

-- {a: 3, b: 4, a: 4}
abbrev written : List (Value whole × Value whole)
written =
    (Value.text (lit "a"), three) ∷ (Value.text (lit "b"), four) ∷ (Value.text (lit "a"), four) ∷ []

op_map-entries_example :
    (m : Map (Object whole)) × (op_map whole (arguments whole written) ≡ ok m)
    × ((j : Text) → get_item j (contents m) ≡ last_entry whole j written none)
    × IsOrdered m
    × (m.order ≡ written_keys whole written)
op_map-entries_example = op_map-entries whole written

abbrev attribute : Text → Text → Bool → Option Attribute
attribute n v e = some (record { name = n; val = v; must_escape = e; bool_val = none })

abbrev linked : List (List (Option Attribute))
linked =
    (attribute (lit "href") (lit "/") true ∷ attribute (lit "class") (lit "a") true ∷ [])
    ∷ (attribute (lit "href") (lit "/\"x") true ∷ none ∷ [])
    ∷ []

collected-last_value_example :
    get_item (lit "href") (collected linked).a ≡ last_value (lit "href") (flatten linked) none
unfolding lit text_eq
collected-last_value_example = collected-last_value (lit "href") linked refl

attrs-Escaped_example :
    (t : Text) × (attrs linked ≡ ok t) × Rendered IsInert (names (flatten linked) []) t
unfolding tmp_attr
attrs-Escaped_example = attrs-Escaped linked (refl, (refl, (refl, tt)))

-- type="a", without escaping.
abbrev typed : List (List (Option Attribute))
typed = (attribute (lit "type") (lit "\"a\"") false ∷ []) ∷ []

typed-IsQuoted : AllAttributes IsQuoted (flatten typed)
unfolding tmp_attr lit
typed-IsQuoted = (inr ((λ e. cc), (λ e. cc)), tt)

-- class='a' href='b' class='c'
abbrev given : List (Text × ℕ)
given = (lit "class", 1) ∷ (lit "href", 2) ∷ (lit "class", 3) ∷ []

op_map_params-listed_example :
    (r : Items (Gathered ℕ)) × (op_map_params (pairs given) ≡ ok r)
    × ((j : Text) → get_item j r ≡ listed (values_for j given))
op_map_params-listed_example = op_map_params-listed given

logic-Stops_example :
    Stops whole
      (truth whole)
      (three ∷ Value.int (pos 0) ∷ four ∷ [])
      (op_and whole three (Value.int (pos 0) ∷ four ∷ []))
    × Stops whole
        (op_not whole)
        (three ∷ Value.int (pos 0) ∷ four ∷ [])
        (op_or whole three (Value.int (pos 0) ∷ four ∷ []))
    × (truth whole (op_and whole three (Value.int (pos 0) ∷ four ∷ []))
        ≡ all (truth whole) (three ∷ Value.int (pos 0) ∷ four ∷ []))
    × (truth whole (op_or whole three (Value.int (pos 0) ∷ four ∷ []))
        ≡ any (truth whole) (three ∷ Value.int (pos 0) ∷ four ∷ []))
logic-Stops_example = logic-Stops whole three (Value.int (pos 0) ∷ four ∷ [])
