-- ===== src/Functions/Urls/Defs.antt =====
-- The addresses that templates ask for. A query is a map from keys to their values, url.Values; the
-- router and the text of an address are the framework's and Go's.
use pugtemplate.Common.{Text, text_eq, Bool, List, [], ◌∷◌, ◌++◌, Option, none, some, if◌then◌else◌}
use pugtemplate.Common.Result.{Result, ok, panicked}
use pugtemplate.Objects.Map.{Items, get_item, put_item}

abbrev pub Query : Type 0
Query = Items (List Text)

abbrev pub or_empty : Option (List Text) → List Text
or_empty none = []
or_empty (some vs) = vs

-- The values of a key.
abbrev pub query_values : Text → Query → List Text
query_values k q = or_empty (get_item k q)

-- `Del`, `Add` and `Set` of url.Values.
unfoldable pub query_del : Text → Query → Query
query_del k [] = []
query_del k ((j, vs) ∷ q) = let rest = query_del k q in if text_eq j k then rest else (j, vs) ∷ rest

unfoldable pub query_add : Text → Text → Query → Query
unfolding get_item put_item
query_add k v q = put_item k (query_values k q ++ (v ∷ [])) q

unfoldable pub query_set : Text → Text → Query → Query
unfolding put_item
query_set k v q = put_item k (v ∷ []) q

-- A member of the parameters: an array with what its items print, or what the member prints.
pub data Argument : Type 0 where
  many : List Text → Argument
  one : Text → Argument

-- The keys of the parameters with their members.
abbrev pub Arguments : Type 0
Arguments = List (Text × Argument)

-- The loop over the items of an array.
unfoldable pub add_all : Text → List Text → Query → Query
unfolding query_add
add_all k [] q = q
add_all k (v ∷ vs) q = add_all k vs (query_add k v q)

abbrev pub change_key : Text → Argument → Query → Query
change_key k (Argument.many vs) q = add_all k vs q
change_key k (Argument.one []) q = q
change_key k (Argument.one (c ∷ s)) q = query_set k (c ∷ s) q

-- The query of the current page under new parameters.
unfoldable pub change_query : Arguments → Query → Query
unfolding query_del query_set add_all
change_query [] q = q
change_query ((k, a) ∷ as') q = change_query as' (change_key k a (query_del k q))

-- The parameters of a route, and those of its query.
pub record Parameters : Type 0 where
  pub p : Items Text
  pub q : Query

abbrev pub take_argument : Text → Argument → Parameters → Parameters
take_argument k (Argument.many vs) ps = record ps { q = add_all k vs ps.q }
take_argument k (Argument.one s) ps = record ps { p = put_item k s ps.p }

unfoldable pub take_arguments : Arguments → Parameters → Parameters
unfolding add_all put_item
take_arguments [] ps = ps
take_arguments ((k, a) ∷ as') ps = take_arguments as' (take_argument k a ps)

-- The query parameters join those that the route's address has already.
unfoldable pub extend_query : Query → Query → Query
unfolding add_all
extend_query [] query = query
extend_query ((k, vs) ∷ q) query = extend_query q (add_all k vs query)

-- Only a single map of parameters counts.
abbrev pub single : List Arguments → Arguments
single [] = []
single (as' ∷ []) = as'
single (as' ∷ bs ∷ rest) = []

-- The router, with the addresses it finds for a route, relative or not, or none for its error. The
-- order in which a range visits a query is its own.
pub record Router : Type 1 where
  pub Url : Type 0
  pub relative : Text → Items Text → Option Url
  pub url : Text → Items Text → Option Url
  pub query : Url → Query
  pub show : Url → Query → Text
  pub page : Query → Text
  pub iterate : Query → Query

module _ (r : Router) where
  abbrev pub route_parameters : List Arguments → Parameters
  route_parameters params = take_arguments (single params) (record { p = []; q = [] })

  abbrev pub address : r.Url → Query → Text
  address u q = r.show u (extend_query (r.iterate q) (r.query u))

  abbrev found : Bool → Option r.Url → Query → Result Text
  found debug none q = if debug then panicked else ok []
  found debug (some u) q = ok (address u q)

  -- `url`, for a request with some query; an error panics in debug mode and is logged else.
  unfoldable pub url_func : Bool → Query → Text → List Arguments → Result Text
  unfolding change_query take_arguments extend_query
  url_func debug request [] params = ok (r.page (change_query (single params) request))
  url_func debug request (c ∷ route) params =
      let ps = route_parameters params in found debug (r.relative (c ∷ route) ps.p) ps.q

  abbrev found_or_empty : Option r.Url → Query → Text
  found_or_empty none q = []
  found_or_empty (some u) q = address u q

  -- `tryUrl`.
  unfoldable pub try_url_func : Query → Text → List Arguments → Text
  unfolding change_query take_arguments extend_query
  try_url_func request [] params = r.page (change_query (single params) request)
  try_url_func request (c ∷ route) params =
      let ps = route_parameters params in found_or_empty (r.url (c ∷ route) ps.p) ps.q
