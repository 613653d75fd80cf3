-- ===== src/Template/Escaping.antt =====
-- `HTMLEscape` and `HTMLEscapeString` of pugjs/tpl_funcs.go, over bytes.
use pugtemplate.Common.{
  Text, lit, ℕ, suc, ◌+◌, ◌-◌, ◌||◌, [], ◌∷◌, ◌++◌, Option, none, some, ◌==◌, length, take, drop,
  any, ◌≡◌, refl, sym, ap, ◌∙◌, arith, append_assoc, inl, inr, Bool, Bool-cases, false, All,
  All-append, subst, length-append, drop-append, take-append, if◌then◌else◌,
}
use pugtemplate.Js.Escape.{IsInert}

-- What stands for a byte, where the `switch` has a case for it.
unfoldable pub html_code : ℕ → Option Text
unfolding lit
html_code c =
    if c == 34
    then some (lit "&#34;")
    else if c == 39
    then some (lit "&#39;")
    else if c == 38
    then some (lit "&amp;")
    else if c == 60
    then some (lit "&lt;")
    else if c == 62
    then some (lit "&gt;")
    else none

-- The bytes of `b` from `last` to `i`.
abbrev pub bytes_between : Text → ℕ → ℕ → Text
bytes_between b last i = take (i - last) (drop last b)

-- One turn at `i`: `rest` is the rest of the loop, from the new value of `last`.
abbrev pub html_step : Text → ℕ → ℕ → (ℕ → Text) → Option Text → Text
html_step b last i rest none = rest last
html_step b last i rest (some html) = bytes_between b last i ++ (html ++ rest (suc i))

-- The loop over `b`, whose bytes from `i` on are the last argument: what it writes.
unfoldable pub html_loop : Text → ℕ → ℕ → Text → Text
html_loop b last i [] = drop last b
html_loop b last i (c ∷ cs) = html_step b last i (λ l. html_loop b l (suc i) cs) (html_code c)

unfoldable pub html_escape : Text → Text
unfolding html_loop
html_escape b = html_loop b 0 0 b

abbrev is_escaped : ℕ → Bool
is_escaped c = c == 39 || c == 34 || c == 38 || c == 60 || c == 62

-- A text that has none of the bytes is returned as it is.
unfoldable pub html_escape_string : Text → Text
unfolding html_escape
html_escape_string s = if any is_escaped s then html_escape s else s

-- Each byte by itself.
abbrev pub byte_or : ℕ → Option Text → Text
byte_or c none = c ∷ []
byte_or c (some html) = html

abbrev pub byte_by_byte : Text → Text
byte_by_byte [] = []
byte_by_byte (c ∷ cs) = byte_or c (html_code c) ++ byte_by_byte cs

-- The bytes between, where they follow what is done.
bytes_between-kept :
    (b done kept rest : Text) (last i : ℕ)
    → b ≡ done ++ (kept ++ rest)
    → last ≡ length done
    → i ≡ length done + length kept
    → bytes_between b last i ≡ kept
bytes_between-kept b done kept rest last i eb el ei =
    ap (λ t. take (i - last) t) (ap (λ t. drop last t) eb ∙ drop-append last done _ el)
    ∙ take-append (i - last) kept rest (omega (arith, el, ei))

-- One turn with the bytes `done` written or replaced, and the bytes `kept` passed since.
html_step-byte_by_byte :
    (b done kept : Text) (c : ℕ) (cs : Text) (last i : ℕ) (rest : ℕ → Text) (o : Option Text)
    → b ≡ done ++ (kept ++ (c ∷ cs))
    → last ≡ length done
    → i ≡ length done + length kept
    → rest last ≡ (kept ++ (c ∷ [])) ++ byte_by_byte cs
    → rest (suc i) ≡ byte_by_byte cs
    → html_step b last i rest o ≡ kept ++ (byte_or c o ++ byte_by_byte cs)
html_step-byte_by_byte b done kept c cs last i rest none eb el ei passed replaced =
    passed ∙ append_assoc kept (c ∷ []) (byte_by_byte cs)
html_step-byte_by_byte b done kept c cs last i rest (some html) eb el ei passed replaced =
    ap (λ t. t ++ (html ++ rest (suc i))) (bytes_between-kept b done kept (c ∷ cs) last i eb el ei)
    ∙ ap (λ t. kept ++ (html ++ t)) replaced

-- The loop from there on.
html_loop-byte_by_byte :
    (b done kept rest : Text) (last i : ℕ)
    → b ≡ done ++ (kept ++ rest)
    → last ≡ length done
    → i ≡ length done + length kept
    → html_loop b last i rest ≡ kept ++ byte_by_byte rest
unfolding html_loop
html_loop-byte_by_byte b done kept [] last i eb el ei =
    ap (λ t. drop last t) eb ∙ drop-append last done (kept ++ []) el
html_loop-byte_by_byte b done kept (c ∷ cs) last i eb el ei =
    html_step-byte_by_byte b done kept c cs last i (λ l. html_loop b l (suc i) cs) (html_code c) eb
      el ei
      (html_loop-byte_by_byte b done (kept ++ (c ∷ [])) cs last (suc i)
        (eb ∙ ap (λ t. done ++ t) one) el (omega (arith, ei, length-append kept (c ∷ []))))
      (html_loop-byte_by_byte b (done ++ (kept ++ (c ∷ []))) [] cs (suc i) (suc i)
        (eb ∙ ap (λ t. done ++ t) one ∙ sym (append_assoc done (kept ++ (c ∷ [])) cs))
        (omega (arith, ei, lengths)) (omega (arith, ei, lengths)))
  where
    one : kept ++ (c ∷ cs) ≡ (kept ++ (c ∷ [])) ++ cs
    one = sym (append_assoc kept (c ∷ []) cs)

    lengths : length (done ++ (kept ++ (c ∷ []))) ≡ length done + (length kept + 1)
    lengths = omega (arith, length-append done (kept ++ (c ∷ [])), length-append kept (c ∷ []))

-- `HTMLEscape` writes what replaces each byte by itself.
html_escape-byte_by_byte : (b : Text) → html_escape b ≡ byte_by_byte b
unfolding html_escape
html_escape-byte_by_byte b = html_loop-byte_by_byte b [] [] b 0 0 refl refl refl

-- A byte without a case in the `switch` is none of the five.
byte_or-plain : (c : ℕ) → is_escaped c ≡ false → byte_or c (html_code c) ≡ c ∷ []
unfolding html_code
byte_or-plain c e = ground (arith, e)

byte_by_byte-plain : (s : Text) → any is_escaped s ≡ false → byte_by_byte s ≡ s
byte_by_byte-plain [] e = refl
byte_by_byte-plain (c ∷ s) e =
    ap (λ t. t ++ byte_by_byte s) (byte_or-plain c (ground (arith, e)))
    ∙ ap (λ t. c ∷ t) (byte_by_byte-plain s (ground (arith, e)))

-- Its test leaves nothing out.
html_escape_string-byte_by_byte : (s : Text) → html_escape_string s ≡ byte_by_byte s
unfolding html_escape_string
html_escape_string-byte_by_byte s = elim (Bool-cases (any is_escaped s)) [
  | inl e ↦ rw e (html_escape-byte_by_byte s)
  | inr e ↦ rw e (sym (byte_by_byte-plain s e))
]

byte_or-IsInert : (c : ℕ) → All IsInert (byte_or c (html_code c))
unfolding html_code lit
byte_or-IsInert c = ground arith

byte_by_byte-IsInert : (s : Text) → All IsInert (byte_by_byte s)
byte_by_byte-IsInert [] = tt
byte_by_byte-IsInert (c ∷ s) = All-append IsInert _ _ (byte_or-IsInert c) (byte_by_byte-IsInert s)

-- `HTMLEscapeString` replaces each byte by itself, through the loop that copies the parts between
-- the replaced bytes and through the test that returns the text as it is; and what it returns has
-- no quotation mark, apostrophe or angle bracket.
pub html_escape_string_lem :
    (s : Text) → (html_escape_string s ≡ byte_by_byte s) × All IsInert (html_escape_string s)
html_escape_string_lem s =
    let e = html_escape_string-byte_by_byte s in
    (e, subst (All IsInert) (sym e) (byte_by_byte-IsInert s))
