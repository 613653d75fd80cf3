-- ===== src/Pug/Escape/Passes.antt =====
-- What each of the four replacements does to the items of a text.
use pugtemplate.Common.{Text, lit, has_prefix, replace_from, false, List, [], ◌∷◌, ◌≡◌, refl, arith}
use pugtemplate.Pug.Escape.Items.{Item, flat, Separated}

-- `{{` and `}}` as actions, and as the marks that stand for them in between.
abbrev pub open_mark : Text
open_mark = lit "--{{--"

abbrev pub close_mark : Text
close_mark = lit "--}}--"

abbrev pub open_action : Text
open_action = lit "{{\"{{\"}}"

abbrev pub close_action : Text
close_action = lit "{{\"}}\"}}"

pub replace_open :
    (is : List Item)
    → Separated is
    → replace_from (lit "{{") open_mark 0 (flat (lit "{{") (lit "}}") is)
      ≡ flat open_mark (lit "}}") is
unfolding replace_from has_prefix lit
replace_open [] h = refl
replace_open (Item.opening ∷ is) h = rw (replace_open is h)
replace_open (Item.closing ∷ is) h = rw (replace_open is h)
replace_open (Item.byte c ∷ []) (f, h) = ground arith
replace_open (Item.byte c ∷ Item.opening ∷ is) (f, h) =
    ground (arith, replace_open (Item.opening ∷ is) h)
replace_open (Item.byte c ∷ Item.closing ∷ is) (f, h) =
    ground (arith, replace_open (Item.closing ∷ is) h)
replace_open (Item.byte c ∷ Item.byte d ∷ is) (f, h) =
    ground (arith, replace_open (Item.byte d ∷ is) h)

pub replace_close :
    (is : List Item)
    → Separated is
    → replace_from (lit "}}") close_mark 0 (flat open_mark (lit "}}") is)
      ≡ flat open_mark close_mark is
unfolding replace_from has_prefix lit
replace_close [] h = refl
replace_close (Item.opening ∷ is) h = rw (replace_close is h)
replace_close (Item.closing ∷ is) h = rw (replace_close is h)
replace_close (Item.byte c ∷ []) (f, h) = ground arith
replace_close (Item.byte c ∷ Item.opening ∷ is) (f, h) =
    ground (arith, replace_close (Item.opening ∷ is) h)
replace_close (Item.byte c ∷ Item.closing ∷ is) (f, h) =
    ground (arith, replace_close (Item.closing ∷ is) h)
replace_close (Item.byte c ∷ Item.byte d ∷ is) (f, h) =
    ground (arith, replace_close (Item.byte d ∷ is) h)

-- Between the marks no two braces stand side by side, with or without a dash and what follows it.
module _ (a : Text) (b : Text) where
  no_open_braces :
      (rest : Text) (is : List Item)
      → Separated is
      → has_prefix (123 ∷ 123 ∷ rest) (flat (45 ∷ 45 ∷ a) (45 ∷ 45 ∷ b) is) ≡ false
  unfolding has_prefix
  no_open_braces rest [] h = refl
  no_open_braces rest (Item.opening ∷ is) h = refl
  no_open_braces rest (Item.closing ∷ is) h = refl
  no_open_braces rest (Item.byte c ∷ []) h = ground arith
  no_open_braces rest (Item.byte c ∷ Item.opening ∷ is) h = ground arith
  no_open_braces rest (Item.byte c ∷ Item.closing ∷ is) h = ground arith
  no_open_braces rest (Item.byte c ∷ Item.byte d ∷ is) (f, h) = ground arith

  no_dash_open :
      (rest : Text) (is : List Item)
      → Separated is
      → has_prefix (45 ∷ 123 ∷ 123 ∷ rest) (flat (45 ∷ 45 ∷ a) (45 ∷ 45 ∷ b) is) ≡ false
  unfolding has_prefix
  no_dash_open rest [] h = refl
  no_dash_open rest (Item.opening ∷ is) h = refl
  no_dash_open rest (Item.closing ∷ is) h = refl
  no_dash_open rest (Item.byte c ∷ is) (f, h) = ground (arith, no_open_braces rest is h)

  no_close_braces :
      (rest : Text) (is : List Item)
      → Separated is
      → has_prefix (125 ∷ 125 ∷ rest) (flat (123 ∷ a) (45 ∷ 45 ∷ b) is) ≡ false
  unfolding has_prefix
  no_close_braces rest [] h = refl
  no_close_braces rest (Item.opening ∷ is) h = refl
  no_close_braces rest (Item.closing ∷ is) h = refl
  no_close_braces rest (Item.byte c ∷ []) h = ground arith
  no_close_braces rest (Item.byte c ∷ Item.opening ∷ is) h = ground arith
  no_close_braces rest (Item.byte c ∷ Item.closing ∷ is) h = ground arith
  no_close_braces rest (Item.byte c ∷ Item.byte d ∷ is) (f, h) = ground arith

  no_dash_close :
      (rest : Text) (is : List Item)
      → Separated is
      → has_prefix (45 ∷ 125 ∷ 125 ∷ rest) (flat (123 ∷ a) (45 ∷ 45 ∷ b) is) ≡ false
  unfolding has_prefix
  no_dash_close rest [] h = refl
  no_dash_close rest (Item.opening ∷ is) h = refl
  no_dash_close rest (Item.closing ∷ is) h = refl
  no_dash_close rest (Item.byte c ∷ is) (f, h) = ground (arith, no_close_braces rest is h)

abbrev open_rest : Text
open_rest = 123 ∷ 123 ∷ 45 ∷ 45 ∷ []

abbrev close_rest : Text
close_rest = 125 ∷ 125 ∷ 45 ∷ 45 ∷ []

abbrev action_rest : Text
action_rest = 123 ∷ 34 ∷ 123 ∷ 123 ∷ 34 ∷ 125 ∷ 125 ∷ []

abbrev dashes : Text
dashes = 45 ∷ 45 ∷ []

pub replace_open_mark :
    (is : List Item)
    → Separated is
    → replace_from open_mark open_action 0 (flat open_mark close_mark is)
      ≡ flat open_action close_mark is
unfolding replace_from has_prefix lit
replace_open_mark [] h = refl
replace_open_mark (Item.opening ∷ is) h = rw (replace_open_mark is h)
replace_open_mark (Item.closing ∷ is) h = ground (
  arith,
  no_open_braces open_rest close_rest dashes is h,
  no_dash_open open_rest close_rest dashes is h,
  replace_open_mark is h,
)
replace_open_mark (Item.byte c ∷ is) (f, h) =
    ground (arith, no_dash_open open_rest close_rest dashes is h, replace_open_mark is h)

pub replace_close_mark :
    (is : List Item)
    → Separated is
    → replace_from close_mark close_action 0 (flat open_action close_mark is)
      ≡ flat open_action close_action is
unfolding replace_from has_prefix lit
replace_close_mark [] h = refl
replace_close_mark (Item.opening ∷ is) h = rw (replace_close_mark is h)
replace_close_mark (Item.closing ∷ is) h = rw (replace_close_mark is h)
replace_close_mark (Item.byte c ∷ is) (f, h) =
    ground (arith, no_dash_close action_rest close_rest dashes is h, replace_close_mark is h)
