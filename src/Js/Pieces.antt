-- ===== src/Js/Pieces.antt =====
-- The texts that the translation of pugjs/transform_js_.go puts together: the table of operators
-- and one function for each kind of expression, over the translations of its parts.
use pugtemplate.Common.{
  Text, lit, text_eq, contains, has_prefix, replace_all, split, join, trim_left, Bool, true, false,
  ◌&&◌, ◌||◌, not, List, [], ◌∷◌, ◌++◌, ◌==◌, if◌then◌else◌, any, Option,
}
use pugtemplate.Common.Result.{Result, ok, panicked, ◌>>=◌}
use pugtemplate.Js.Escape.{html_escape, quote}
use pugtemplate.Js.Interpolate.{interpolate}
use pugtemplate.Js.Ast.{Operator, Statements}
use pugtemplate.Js.Ast.Operator.{
  plus, minus, multiply, slash, remainder, bit_and, bit_or, exclusive_or, shift_left, shift_right,
  unsigned_shift_right, and_not, logical_and, logical_or, increment, decrement, equal, strict_equal,
  less, greater, assign, bitwise_not, not_equal, strict_not_equal, less_or_equal, greater_or_equal,
  delete, other_operator,
}

-- The fields of renderState that the translation reads: the names of `funcs`, and two flags.
pub record Env : Type 0 where
  pub funcs : List Text
  pub rawmode : Bool
  pub debug : Bool

-- The JavaScript parser: the statements of a source, or none where it reports an error.
pub record Parser : Type 0 where
  pub parse_file : Text → Option Statements
  pub parse_function : Text → Option Statements

-- The table of operators.
unfoldable pub ops : Operator → Text
unfolding lit
ops plus = lit "__op__add"
ops minus = lit "__op__sub"
ops multiply = lit "__op__mul"
ops slash = lit "__op__slash"
ops remainder = lit "__op__mod"
ops bit_and = lit "__op__b_and"
ops bit_or = lit "__op__b_or"
ops exclusive_or = lit "__op__b_xor"
ops shift_left = lit "__op__b_sleft"
ops shift_right = lit "__op__b_sright"
ops unsigned_shift_right = lit "__op__b_usright"
ops and_not = lit "__op__b_andnot"
ops logical_and = lit "__op__and"
ops logical_or = lit "__op__or"
ops increment = lit "__op__inc"
ops decrement = lit "__op__dec"
ops equal = lit "__op__eql"
ops strict_equal = lit "__op__eql"
ops less = lit "__op__lt"
ops greater = lit "__op__gt"
ops assign = lit "="
ops Operator.not = lit "__op__not"
ops bitwise_not = lit "__op__bitnot"
ops not_equal = lit "__op__neq"
ops strict_not_equal = lit "__op__neq"
ops less_or_equal = lit "__op__lte"
ops greater_or_equal = lit "__op__gte"
ops delete = lit "__op__delete"
ops other_operator = []

abbrev pub is_increment : Operator → Bool
is_increment increment = true
is_increment _ = false

-- "{{" and "}}" around a result, if `wrap` is set.
unfoldable pub wrap_plain : Bool → Text → Text
wrap_plain wrap result = if wrap then lit "{{" ++ (result ++ lit "}}") else result

-- The same with the filter that escapes for HTML, which raw mode leaves out.
unfoldable pub wrap_html : Env → Bool → Text → Text
wrap_html env wrap result =
    if wrap
    then lit "{{" ++ ((if env.rawmode then result else result ++ lit " | __pug__html") ++ lit "}}")
    else result

-- The form of assignments and unary operations.
unfoldable pub wrap_statement : Bool → Text → Text
wrap_statement wrap result = if wrap then lit "{{ " ++ (result ++ lit " -}}") else result

-- An empty translation stands for the value null.
abbrev pub or_null : Text → Text
or_null [] = lit "null"
or_null (c ∷ s) = c ∷ s

unfoldable pub render_identifier : Env → Text → Bool → Bool → Text
render_identifier env name wrap dot =
    let dollar = if dot && not (any (text_eq name) env.funcs) then lit "$" else [] in
    let name' = if text_eq name (lit "range") then lit "__Range" else name in
    wrap_html env wrap (dollar ++ name')

-- The call that joins the parts of an interpolated string; empty literals are dropped.
unfoldable pub str_call : Text → Text
str_call s = replace_all (lit "(__str \"" ++ (s ++ lit "\")")) (lit "\"\"") []

unfoldable pub render_string : (Text → Result Text) → Text → Bool → Result Text
render_string js value wrap =
    let joined = interpolate js value >>= λ s. ok (wrap_plain wrap (str_call s)) in
    if contains (lit "${") value
    then joined
    else ok (if wrap then html_escape value else quote value)

-- `identifier[0]` and what follows it; an empty identifier is an index out of range.
unfoldable pub member_name : Text → Result Text
member_name [] = panicked
member_name (c ∷ s) = ok (if c == 46 || c == 36 then s else c ∷ s)

unfoldable pub render_dot : Env → Text → Text → Bool → Result Text
render_dot env left identifier wrap =
    member_name identifier >>= λ name. ok (wrap_html env wrap (left ++ (lit "." ++ name)))

unfoldable pub render_conditional : Env → Text → Text → Text → Bool → Text
render_conditional env test consequent alternate wrap = wrap_html env wrap (
    lit "(__if ("
    ++ (test
        ++ (lit ") (" ++ (or_null consequent ++ (lit ") (" ++ (or_null alternate ++ lit ") )"))))))

unfoldable pub render_binary : Env → Operator → Text → Text → Bool → Text
render_binary env op left right wrap =
    wrap_html env wrap
      (lit "(" ++ (ops op ++ (lit " " ++ (left ++ (lit " " ++ (right ++ lit ")"))))))

unfoldable pub render_call : Env → Text → Text → Bool → Text
render_call env callee args wrap = wrap_html env wrap (lit "(" ++ (callee ++ (args ++ lit ")")))

-- `strings.Index(n, ".") > 0`
unfoldable pub has_inner_dot : Text → Bool
has_inner_dot [] = false
has_inner_dot (c ∷ s) = not (c == 46) && any (◌==◌ 46) s

-- All parts but the last, joined by dots, and the last.
unfoldable pub split_last : List Text → List Text × Text
split_last [] = ([], [])
split_last (s ∷ []) = ([], s)
split_last (s ∷ t ∷ ts) = let (front, last) = split_last (t ∷ ts) in (s ∷ front, last)

-- `a[b] = c`
unfoldable pub assign_member : Text → Text → Text → Text
assign_member left member right =
    lit "($" ++ (left ++ (lit ".__assign " ++ (member ++ (lit " " ++ (right ++ lit ")")))))

-- `a = b` and `a.b = c`; the left side comes with its dollar signs trimmed.
unfoldable pub assign_name : Operator → Text → Text → Text
unfolding has_inner_dot split_last
assign_name op n right =
    let (front, field) = split_last (split 46 n) in
    let object = join (lit ".") front in
    let target = if has_prefix (lit "(__pug__index ") object then object else lit "$" ++ object in
    if has_inner_dot n
    then lit "(" ++ (target ++ (lit ".__assign \"" ++ (field ++ (lit "\" " ++ (right ++ lit ")")))))
    else if text_eq (ops op) (lit "=")
    then lit "$" ++ (n ++ (lit " :" ++ (ops op ++ (lit " " ++ right))))
    else lit "$" ++ (n ++ (lit " := $" ++ (n ++ (lit " " ++ (ops op ++ (lit " " ++ right))))))

abbrev pub trim_dollar : Text → Text
trim_dollar = trim_left (◌==◌ 36)

unfoldable pub render_variable : Text → Text → Bool → Text
render_variable name init wrap =
    wrap_statement wrap (lit "$" ++ (trim_dollar name ++ (lit " := " ++ or_null init)))

unfoldable pub render_bracket : Env → Text → Text → Bool → Text
render_bracket env left member wrap =
    wrap_html env wrap (lit "(__pug__index " ++ (left ++ (lit " " ++ (member ++ lit ")"))))

unfoldable pub render_unary : Operator → Text → Bool → Text
render_unary op operand wrap =
    let applied = ops op ++ (lit " " ++ operand) in
    let result = if is_increment op then operand ++ (lit " := " ++ applied) else applied in
    if wrap then lit "{{ " ++ (result ++ lit " -}}") else lit "(" ++ (result ++ lit ")")

-- What separates statements, and ends blocks, in debug mode: an action that prints nothing and a
-- line feed.
unfoldable pub line_end : Text
line_end = lit "     {{- \"\" -}}\n"

abbrev pub array_text : Text → Text
array_text items = lit "(__op__array" ++ (items ++ lit ")")

abbrev pub map_text : Text → Text
map_text items = lit "(__op__map" ++ (items ++ lit ")")

abbrev pub if_text : Text → Text → Text → Text
if_text test consequent alternate =
    let branch =
      if text_eq alternate [] || text_eq alternate (lit "{{null}}")
      then []
      else lit "{{else}}" ++ alternate in
    lit "{{if " ++ (test ++ (lit "}}" ++ (consequent ++ (branch ++ lit "{{end}}"))))

abbrev pub for_text : Text → Text → Text → Text
for_text into source body =
    lit "{{ range "
    ++ (into
        ++ (lit " := (__range_helper_keys__ "
            ++ (source ++ (lit ") }}" ++ (body ++ lit "{{ end }}")))))

abbrev pub try_text : Text → Text → Text → Text
try_text body parameter catch =
    lit "{{ try }}"
    ++ (body ++ (lit "{{ catch " ++ (parameter ++ (lit " }}" ++ (catch ++ lit "{{ end }}")))))
