-- ===== src/Js/Escape.antt =====
-- fmt's %q and html/template's HTMLEscapeString, which the translation calls.
use pugtemplate.Common.{
  Text, lit, ℕ, ◌+◌, ◌/◌, ◌%◌, ◌||◌, [], ◌∷◌, ◌++◌, ◌==◌, ltb, if◌then◌else◌, ◌≢◌, arith, All,
  All-append,
}

abbrev hex_digit : ℕ → ℕ
hex_digit n = if ltb n 10 then 48 + n else 87 + n

-- One byte under %q. Bytes of a printable rune beyond ASCII stay as they are.
pub quote_byte : ℕ → Text
quote_byte c =
    if c == 34 || c == 92
    then 92 ∷ c ∷ []
    else if c == 7
    then 92 ∷ 97 ∷ []
    else if c == 8
    then 92 ∷ 98 ∷ []
    else if c == 12
    then 92 ∷ 102 ∷ []
    else if c == 10
    then 92 ∷ 110 ∷ []
    else if c == 13
    then 92 ∷ 114 ∷ []
    else if c == 9
    then 92 ∷ 116 ∷ []
    else if c == 11
    then 92 ∷ 118 ∷ []
    else if ltb c 32 || c == 127
    then 92 ∷ 120 ∷ hex_digit (c / 16) ∷ hex_digit (c % 16) ∷ []
    else c ∷ []

pub quote_body : Text → Text
quote_body [] = []
quote_body (c ∷ s) = quote_byte c ++ quote_body s

unfoldable pub quote : Text → Text
unfolding quote_byte quote_body
quote s = 34 ∷ (quote_body s ++ 34 ∷ [])

pub escape_byte : ℕ → Text
unfolding lit
escape_byte c =
    if c == 34
    then lit "&#34;"
    else if c == 39
    then lit "&#39;"
    else if c == 38
    then lit "&amp;"
    else if c == 60
    then lit "&lt;"
    else if c == 62
    then lit "&gt;"
    else if c == 0
    then 239 ∷ 191 ∷ 189 ∷ []
    else c ∷ []

unfoldable pub html_escape : Text → Text
unfolding escape_byte
html_escape [] = []
html_escape (c ∷ s) = escape_byte c ++ html_escape s

-- A byte that can neither open nor close a tag, nor end a quoted attribute.
abbrev pub IsInert : ℕ → Type 0
IsInert c = (c ≢ 34) × (c ≢ 39) × (c ≢ 60) × (c ≢ 62)

escape_byte-IsInert : (c : ℕ) → All IsInert (escape_byte c)
unfolding escape_byte
escape_byte-IsInert c = ground arith

pub html_escape-IsInert : (s : Text) → All IsInert (html_escape s)
unfolding html_escape
html_escape-IsInert [] = tt
html_escape-IsInert (c ∷ s) =
    All-append IsInert (escape_byte c) (html_escape s) (escape_byte-IsInert c)
      (html_escape-IsInert s)
