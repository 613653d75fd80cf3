-- ===== src/Functions/Urls/Query.antt =====
-- The queries of the addresses.
use pugtemplate.Common.{
  Text, text_eq, text_eq_iff, Bool, true, false, List, [], ◌∷◌, ◌++◌, some, if◌then◌else◌, ◌≡◌,
  refl, sym, ap, ◌∙◌, arith, append_assoc, append-nil, Bool-cases, Option-cases, ◌⊎◌, inl, inr,
}
use pugtemplate.Common.Result.{ok, panicked}
use pugtemplate.Objects.Map.{Items, get_item, put_item}
use pugtemplate.Objects.Merge.{get_item-put_item}
use pugtemplate.Functions.Urls.Defs.{
  Query, query_values, or_empty, query_del, query_add, query_set, Argument, Arguments, add_all,
  change_key, change_query, Router, url_func, try_url_func, route_parameters,
}

query_values-put_item :
    (j k : Text) (vs : List Text) (q : Query)
    → query_values j (put_item k vs q) ≡ (if text_eq k j then vs else query_values j q)
query_values-put_item j k vs q = ap or_empty (get_item-put_item j k vs q) ∙ if_values (text_eq k j)
  where
    if_values :
        (b : Bool)
        → or_empty (if b then some vs else get_item j q) ≡ (if b then vs else query_values j q)
    if_values true = refl
    if_values false = refl

query_values-query_add :
    (j k v : Text) (q : Query)
    → query_values j (query_add k v q)
      ≡ (if text_eq k j then query_values j q ++ (v ∷ []) else query_values j q)
unfolding query_add
query_values-query_add j k v q =
    query_values-put_item j k (query_values k q ++ (v ∷ [])) q ∙ elim (Bool-cases (text_eq k j)) [
      | inl e ↦ rw e (ap (λ (n : Text). query_values n q ++ (v ∷ [])) ((text_eq_iff k j).0 e))
      | inr e ↦ rw e refl
    ]

query_values-add_all :
    (j k : Text) (vs : List Text) (q : Query)
    → query_values j (add_all k vs q)
      ≡ (if text_eq k j then query_values j q ++ vs else query_values j q)
unfolding add_all
query_values-add_all j k [] q = elim (Bool-cases (text_eq k j)) [
  | inl e ↦ rw e (sym (append-nil (query_values j q)))
  | inr e ↦ rw e refl
]
query_values-add_all j k (v ∷ vs) q =
    query_values-add_all j k vs (query_add k v q) ∙ elim (Bool-cases (text_eq k j)) [
      | inl e ↦ rw e (
          ap (λ (ws : List Text). ws ++ vs) (query_values-query_add j k v q ∙ rw e refl)
          ∙ append_assoc (query_values j q) (v ∷ []) vs)
      | inr e ↦ rw e (query_values-query_add j k v q ∙ rw e refl)
    ]

query_values-del :
    (j k : Text) (q : Query)
    → query_values j (query_del k q) ≡ (if text_eq k j then [] else query_values j q)
unfolding query_del get_item
query_values-del j k [] = ground arith
query_values-del j k ((i, vs) ∷ q) =
    ground (arith, query_values-del j k q, text_eq_iff i k, text_eq_iff k j, text_eq_iff i j)

-- What the parameters give for a key: none if they do not have it, and else its values.
abbrev pub argument_values : Argument → List Text
argument_values (Argument.many vs) = vs
argument_values (Argument.one []) = []
argument_values (Argument.one (c ∷ s)) = (c ∷ s) ∷ []

abbrev pub changed : Text → Arguments → List Text → List Text
changed j [] vs = vs
changed j ((k, a) ∷ as') vs = changed j as' (if text_eq k j then argument_values a else vs)

append_twice :
    (b : Bool) (vs ws : List Text)
    → (if b then (if b then [] else ws) ++ vs else (if b then [] else ws)) ≡ (if b then vs else ws)
append_twice true vs ws = refl
append_twice false vs ws = refl

set_twice :
    (b : Bool) (vs ws : List Text)
    → (if b then vs else (if b then [] else ws)) ≡ (if b then vs else ws)
set_twice true vs ws = refl
set_twice false vs ws = refl

query_values-change_key :
    (j k : Text) (a : Argument) (q : Query)
    → query_values j (change_key k a (query_del k q))
      ≡ (if text_eq k j then argument_values a else query_values j q)
unfolding query_set
query_values-change_key j k (Argument.many vs) q =
    query_values-add_all j k vs (query_del k q)
    ∙ rw (query_values-del j k q) (append_twice (text_eq k j) vs _)
query_values-change_key j k (Argument.one []) q = query_values-del j k q
query_values-change_key j k (Argument.one (c ∷ s)) q =
    query_values-put_item j k ((c ∷ s) ∷ []) (query_del k q)
    ∙ rw (query_values-del j k q) (set_twice (text_eq k j) _ _)

-- The address of the current page under new parameters has, for each key of the parameters, the
-- values of its last occurrence there (none for an empty text), and for each other key those of the
-- request.
pub change_query-changed :
    (j : Text) (as' : Arguments) (q : Query)
    → query_values j (change_query as' q) ≡ changed j as' (query_values j q)
unfolding change_query
change_query-changed j [] q = refl
change_query-changed j ((k, a) ∷ as') q =
    change_query-changed j as' (change_key k a (query_del k q))
    ∙ ap (changed j as') (query_values-change_key j k a q)

module _ (r : Router) where
  -- If the router finds the same address for a route, relative or not, `url` gives without debug
  -- mode what `tryUrl` gives, and in debug mode the same or a panic, where `tryUrl` gives the empty
  -- text.
  pub url_func-try_url_func :
      (request : Query) (route : Text) (params : List Arguments)
      → ((w : Text) (p : Items Text) → r.relative w p ≡ r.url w p)
      → (url_func r false request route params ≡ ok (try_url_func r request route params))
        × ((url_func r true request route params ≡ ok (try_url_func r request route params))
            ⊎ ((url_func r true request route params ≡ panicked)
                × (try_url_func r request route params ≡ [])))
  unfolding url_func try_url_func
  url_func-try_url_func request [] params h = (refl, inl refl)
  url_func-try_url_func request (c ∷ route) params h =
      let ps = route_parameters r params in
      rw (h (c ∷ route) ps.p) (elim (Option-cases (r.url (c ∷ route) ps.p)) [
        | inl e ↦ rw e (refl, inr (refl, refl))
        | inr f ↦ rw f.1 (refl, inl refl)
      ])
