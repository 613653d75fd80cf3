-- ===== src/Runtime/MapLiteral.antt =====
-- Maps written in a template: `__op__map`.
use pugtemplate.Common.{
  Text, text_eq, List, [], ◌∷◌, ◌++◌, any, Option, none, some, if◌then◌else◌, ◌≡◌, refl, sym, ap,
  ◌∙◌, arith, append_assoc, append-nil,
}
use pugtemplate.Common.Result.{ok, panicked}
use pugtemplate.Objects.Keys.{IsOrdered, has_item-put_item}
use pugtemplate.Objects.Map.{Items, Map, get_item, put_item, has_item, contents, convert}
use pugtemplate.Objects.Merge.{get_item-put_item}
use pugtemplate.Pug.Maps.{any-append, text_eq_sym}
use pugtemplate.Runtime.Builtins.{map_loop, op_map}
use pugtemplate.Runtime.Value.{Floats, Object, Value, string_of}
use pugtemplate.Runtime.Value as values

module _ (fl : Floats) where
  abbrev pub key_of : Value fl → Text
  key_of v = string_of fl (values.convert fl v)

  -- The arguments of a literal.
  abbrev pub arguments : List (Value fl × Value fl) → List (Value fl)
  arguments [] = []
  arguments ((k, v) ∷ es) = k ∷ v ∷ arguments es

  abbrev pub written_keys : List (Value fl × Value fl) → List Text
  written_keys [] = []
  written_keys ((k, v) ∷ es) = key_of k ∷ written_keys es

  -- The value of the last entry of a key.
  abbrev pub last_entry :
      Text → List (Value fl × Value fl) → Option (Object fl) → Option (Object fl)
  last_entry j [] o = o
  last_entry j ((k, v) ∷ es) o =
      last_entry j es (if text_eq (key_of k) j then some (values.convert fl v) else o)

  -- A map that has its items, and whose order names just their keys.
  abbrev IsListed : Items (Object fl) → List Text → Type 0
  IsListed is order = (k : Text) → any (text_eq k) order ≡ has_item k is

  next-IsListed :
      (n : Text) (v : Object fl) (is : Items (Object fl)) (order : List Text)
      → IsListed is order
      → IsListed (put_item n v is) (order ++ (n ∷ []))
  next-IsListed n v is order h k = ground (
    arith,
    h k,
    any-append (text_eq k) order (n ∷ []),
    has_item-put_item k n v is,
    text_eq_sym k n,
  )

  map_loop-entries :
      (es : List (Value fl × Value fl)) (is : Items (Object fl)) (order : List Text)
      → IsListed is order
      → (m : Items (Object fl)) × (map_loop fl
            (arguments es)
            (record { items = some is; o = none; order = order })
          ≡ ok (record { items = some m; o = none; order = order ++ written_keys es }))
        × ((j : Text) → get_item j m ≡ last_entry j es (get_item j is))
        × IsListed m (order ++ written_keys es)
  unfolding map_loop
  map_loop-entries [] is order h = rw (append-nil order) (is, refl, (λ j. refl), h)
  map_loop-entries ((k, v) ∷ es) is order h =
      let n = key_of k in
      let object = values.convert fl v in
      let rest =
        map_loop-entries es (put_item n object is) (order ++ (n ∷ []))
          (next-IsListed n object is order h) in
      let e = append_assoc order (n ∷ []) (written_keys es) in
      (
        rest.0,
        rest.1 ∙ ap (λ ks. ok (record { items = some rest.0; o = none; order = ks })) e,
        (λ j. rest.2 j ∙ ap (last_entry j es) (get_item-put_item j n object is)),
        (λ j. ap (any (text_eq j)) (sym e) ∙ rest.3 j),
      )

  -- A map literal gives a map without a panic, in which each key has the value of its last entry.
  -- Its order, which is complete, lists the keys as they are written, each as often as it is.
  pub op_map-entries :
      (es : List (Value fl × Value fl))
      → (m : Map (Object fl)) × (op_map fl (arguments es) ≡ ok m)
        × ((j : Text) → get_item j (contents m) ≡ last_entry j es none)
        × IsOrdered m
        × (m.order ≡ written_keys es)
  unfolding op_map get_item convert has_item
  op_map-entries es =
      let r = map_loop-entries es [] [] (λ k. refl) in
      (record { items = some r.0; o = none; order = written_keys es }, r.1, r.2, (λ n. r.3), refl)

  -- A key without a value is a panic.
  map_loop-odd :
      (es : List (Value fl × Value fl)) (k : Value fl) (m : Map (Object fl))
      → map_loop fl (arguments es ++ (k ∷ [])) m ≡ panicked
  unfolding map_loop
  map_loop-odd [] k m = refl
  map_loop-odd ((n, v) ∷ es) k m = map_loop-odd es k _

  -- An argument list of odd length is a panic.
  pub op_map-odd :
      (es : List (Value fl × Value fl)) (k : Value fl)
      → op_map fl (arguments es ++ (k ∷ [])) ≡ panicked
  unfolding op_map
  op_map-odd es k = map_loop-odd es k _
