-- ===== src/Js/Interpolate.antt =====
-- `interpolate` of pugjs/transform_js_.go.
use pugtemplate.Common.{
  Text, lit, ℕ, zero, suc, ◌+◌, ◌-◌, ◌*◌, ◌&&◌, not, ◌++◌, ◌==◌, ltb, if◌then◌else◌, take, drop,
  length, none, some, get_elem?,
}
use pugtemplate.Common.Result.{Result, ok, out_of_fuel, ◌>>=◌}

-- The byte at an index; the loop reads none beyond the end.
abbrev pub byte_at : Text → ℕ → ℕ
byte_at s i = elim (get_elem? s i) [ none ↦ 0 | some c ↦ c ]

-- `input[start:index]`.
abbrev pub slice : Text → ℕ → ℕ → Text
slice s start index = take (index - start) (drop start s)

-- The input after the expression between start and index is replaced by its translation.
unfoldable pub splice : Text → ℕ → ℕ → Text → Text
splice input start index sub =
    take (start - 2) input ++ (lit "\" " ++ (sub ++ (lit " \"" ++ drop (index + 1) input)))

-- One round over the byte at `index`; `js` translates the expression between the braces.
unfoldable pub scan : (Text → Result Text) → ℕ → Text → ℕ → ℕ → Result Text
scan js zero input index start = out_of_fuel
scan js (suc fuel) input index start =
    let c = byte_at input index in
    let skip = scan js fuel input (index + 1) start in
    let open_brace = scan js fuel input (index + 1) (index + 1) in
    let close_brace = js (slice input start index) >>= λ sub.
    scan js fuel (splice input start index sub) (start + length sub + 1) 0 in
    if not (ltb index (length input))
    then ok input
    else if c == 92
    then skip
    else if c == 123 && byte_at input (index - 1) == 36
    then open_brace
    else if c == 125 && not (start == 0)
    then close_brace
    else skip

unfoldable pub interpolate : (Text → Result Text) → Text → Result Text
unfolding scan
interpolate js input = scan js (2 * length input + 1) input 1 0
