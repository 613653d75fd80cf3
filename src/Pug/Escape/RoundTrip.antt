-- ===== src/Pug/Escape/RoundTrip.antt =====
-- What the template made of an escaped text prints.
use pugtemplate.Common.{
  Text, lit, has_prefix, replace_all, ℕ, zero, suc, Bool, true, false, ◌&&◌, ◌||◌, List, [], ◌∷◌,
  ◌++◌, ◌==◌, if◌then◌else◌, ◌≡◌, refl, Bool-cases, inl, inr, ap, sym, ◌∙◌, arith, Option, some,
  none,
}
use pugtemplate.Pug.Build.{escape_text}
use pugtemplate.Pug.Escape.Items.{Item, items, flat, Separated, items-Separated, flat-items}
use pugtemplate.Pug.Escape.Passes.{
  open_action, close_action, replace_open, replace_close, replace_open_mark, replace_close_mark,
}

-- The four replacements together are one pass from the left over the text's delimiters.
pub escape_text-items : (s : Text) → escape_text s ≡ flat open_action close_action (items s)
unfolding escape_text replace_all
escape_text-items s =
    let h = items-Separated s in
    let first = rw flat-items at (replace_open (items s) h) in
    rw (
      first,
      replace_close (items s) h,
      replace_open_mark (items s) h,
      replace_close_mark (items s) h,
    )

abbrev map_option : (Text → Text) → Option Text → Option Text
map_option f none = none
map_option f (some s) = some (f s)

-- What the template language prints of a text whose only actions are the two that print a
-- delimiter; none at any other delimiter that opens an action. The number counts the bytes of an
-- action that are still to be passed over.
unfoldable pub print_text : ℕ → Text → Option Text
print_text k [] = some []
print_text (suc k) (c ∷ s) = print_text k s
print_text zero (c ∷ s) =
    let after_action = print_text 7 s in
    let after_byte = print_text 0 s in
    if has_prefix open_action (c ∷ s)
    then map_option (◌++◌ (lit "{{")) after_action
    else if has_prefix close_action (c ∷ s)
    then map_option (◌++◌ (lit "}}")) after_action
    else if has_prefix (lit "{{") (c ∷ s)
    then none
    else map_option (◌∷◌ c) after_byte

-- A single opening brace right before a closing delimiter.
abbrev pub has_bare_brace : List Item → Bool
has_bare_brace [] = false
has_bare_brace (Item.opening ∷ is) = has_bare_brace is
has_bare_brace (Item.closing ∷ is) = has_bare_brace is
has_bare_brace (Item.byte c ∷ []) = false
has_bare_brace (Item.byte c ∷ Item.closing ∷ is) = c == 123 || has_bare_brace is
has_bare_brace (Item.byte c ∷ i ∷ is) = has_bare_brace (i ∷ is)

-- The printed text, but for a bare brace.
abbrev printed : List Item → Option Text
printed is = if has_bare_brace is then none else some (flat (lit "{{") (lit "}}") is)

map-printed :
    (f : Text → Text) (b : Bool) (t : Text)
    → map_option f (if b then none else some t) ≡ (if b then none else some (f t))
map-printed f true t = refl
map-printed f false t = refl

print_byte :
    (c d : ℕ) (t : Text)
    → (c == 123 && d == 123) ≡ false
    → print_text 0 (c ∷ d ∷ t) ≡ map_option (◌∷◌ c) (print_text 0 (d ∷ t))
unfolding has_prefix lit
print_byte c d t h = elim (Bool-cases (c == 123)) [
  | inl e ↦ unfold print_text in ground arith
  | inr e ↦ unfold print_text in ground arith
]

-- What follows a byte that does not open a delimiter with it is printed behind it.
print_behind :
    (c d : ℕ) (t : Text) (is : List Item)
    → (c == 123 && d == 123) ≡ false
    → has_bare_brace (Item.byte c ∷ is) ≡ has_bare_brace is
    → flat open_action close_action is ≡ d ∷ t
    → print_text 0 (flat open_action close_action is) ≡ printed is
    → print_text 0 (flat open_action close_action (Item.byte c ∷ is)) ≡ printed (Item.byte c ∷ is)
print_behind c d t is h k e ih =
    ap (λ x. print_text 0 (c ∷ x)) e
    ∙ print_byte c d t h
    ∙ ap (map_option (◌∷◌ c)) (ap (print_text 0) (sym e) ∙ ih)
    ∙ map-printed (◌∷◌ c) (has_bare_brace is) (flat (lit "{{") (lit "}}") is)
    ∙ rw k

print_opening :
    (t : Text) → print_text 0 (open_action ++ t) ≡ map_option (◌++◌ (lit "{{")) (print_text 0 t)
unfolding print_text has_prefix lit
print_opening t = refl

print_closing :
    (t : Text) → print_text 0 (close_action ++ t) ≡ map_option (◌++◌ (lit "}}")) (print_text 0 t)
unfolding print_text has_prefix lit
print_closing t = refl

print_bare : (c : ℕ) (t : Text) → (c == 123) ≡ true → print_text 0 (c ∷ (close_action ++ t)) ≡ none
unfolding print_text has_prefix lit
print_bare c t h = ground arith

print-flat :
    (is : List Item) → Separated is → print_text 0 (flat open_action close_action is) ≡ printed is
unfolding lit
print-flat [] h = unfold print_text in refl
print-flat (Item.opening ∷ is) h =
    print_opening _ ∙ rw (print-flat is h) (map-printed _ (has_bare_brace is) _)
print-flat (Item.closing ∷ is) h =
    print_closing _ ∙ rw (print-flat is h) (map-printed _ (has_bare_brace is) _)
print-flat (Item.byte c ∷ []) (f, h) = unfold print_text has_prefix in ground arith
print-flat (Item.byte c ∷ Item.opening ∷ is) (f, h) =
    print_behind c 123 _ (Item.opening ∷ is) (ground arith) refl refl
      (print-flat (Item.opening ∷ is) h)
print-flat (Item.byte c ∷ Item.closing ∷ is) (f, h) = elim (Bool-cases (c == 123)) [
  | inl e ↦ print_bare c _ e ∙ rw e
  | inr e ↦
      print_behind c 123 _ (Item.closing ∷ is) (ground arith) (ground arith) refl
        (print-flat (Item.closing ∷ is) h)
]
print-flat (Item.byte c ∷ Item.byte d ∷ is) (f, h) =
    print_behind c d _ (Item.byte d ∷ is) f.0 refl refl (print-flat (Item.byte d ∷ is) h)

-- A text node prints its text, whatever the text: the escaped text opens no action of its own and
-- the template prints exactly the text that was escaped. The one exception is a text with a
-- single opening brace right before a closing delimiter: its escape opens an action there.
pub print-escape_text :
    (s : Text) → print_text 0 (escape_text s) ≡ (if has_bare_brace (items s) then none else some s)
print-escape_text s =
    rw escape_text-items (rw flat-items at (print-flat (items s) (items-Separated s)))
