-- ===== src/Tests/ObjectExamples.antt =====
-- The theorems on maps at concrete inputs.
use pugtemplate.Common.{
  Text, lit, text_eq, ℕ, [], ◌∷◌, any, none, some, ◌≡◌, refl, arith, ◌+◌, ◌++◌, if◌then◌else◌,
}
use pugtemplate.Objects.Map.{
  Map, Runtime, has_item, convert, keys, assign, call_assign, has_member, object_assign,
}
use pugtemplate.Objects.Keys.{VisitsAll, IsOrdered, assign-call_assign, keys-keys}
use pugtemplate.Common.Result.{ok}
use pugtemplate.Objects.Array.{Store, Slice, items, push, pop, splice, kept, cut_off}
use pugtemplate.Objects.Sharing.{splice-push, push-pop}
use pugtemplate.Pug.Maps.{text_eq_sym}
use pugtemplate.Objects.Merge.{value, latest, object_assign-value}

-- Names are left as they are, and a map is visited in the order of its list.
abbrev runtime : Runtime
runtime = record { upper_first = λ s. s; title = λ s. s; iterate = λ ks. ks }

runtime-VisitsAll : VisitsAll runtime
runtime-VisitsAll = record { visits = λ ks k. refl }

abbrev color : Text
color = lit "color"

abbrev ordered : Map ℕ
ordered = record { items = some ((color, 1) ∷ []); o = none; order = color ∷ [] }

abbrev unordered : Map ℕ
unordered = record { items = none; o = none; order = [] }

ordered-IsOrdered : IsOrdered ordered
unfolding convert has_item
ordered-IsOrdered n k = ground (arith, text_eq_sym k color)

assign-call_assign_example :
    (call_assign (lit "size") 2 ordered ≡ assign (lit "size") 2 ordered)
    × IsOrdered (assign (lit "size") 2 ordered)
assign-call_assign_example = assign-call_assign (lit "size") 2 ordered ordered-IsOrdered

-- A map that has no order yet, and a range that visits nothing.
abbrev plain : Map ℕ
plain = record { items = some ((color, 1) ∷ []); o = none; order = [] }

abbrev idle : Runtime
idle = record runtime { iterate = λ ks. [] }

keys-keys_example :
    ((k : Text) → any (text_eq k) (keys runtime plain).1 ≡ has_member k plain)
    × ((keys idle (keys runtime plain).0).1 ≡ (keys runtime plain).1)
    × ((keys idle (assign (lit "size") 2 (keys runtime plain).0)).1 ≡ (
        if has_member (lit "size") plain
        then (keys runtime plain).1
        else (keys runtime plain).1 ++ (lit "size" ∷ [])))
unfolding convert
keys-keys_example = keys-keys runtime idle plain runtime-VisitsAll refl refl (lit "size") 2

object_assign-value_example :
    value color (object_assign 0 9 runtime (none ∷ some ordered ∷ []) unordered)
    ≡ latest color (none ∷ some ordered ∷ []) (value color unordered)
unfolding lit text_eq
object_assign-value_example =
    object_assign-value 0 9 runtime color (none ∷ some ordered ∷ []) unordered runtime-VisitsAll
      (tt, (ordered-IsOrdered, tt)) refl

-- Four items in a backing array with one more cell.
abbrev store : Store ℕ
store = record { cells = λ b i. i; next = 1 }

abbrev four : Slice
four = record { backing = 0; offset = 0; len = 4; cap = 5 }

splice-push_example :
    (splice 2 four ≡ ok (kept 2 four, cut_off 2 four))
    × (items (push (λ n. n + n) 7 store (kept 2 four)).0 (cut_off 2 four)
        ≡ 7 ∷ items store (cut_off 3 four))
splice-push_example = splice-push (λ n. n + n) 2 7 store four (omega arith) (omega arith)

push-pop_example :
    (a' : Slice) × (pop (push (λ n. n + n) 7 store four).0 (push (λ n. n + n) 7 store four).1
      ≡ ok (7, a'))
    × (items (push (λ n. n + n) 7 store four).0 a' ≡ items store four)
push-pop_example = push-pop (λ n. n + n) 7 store four
