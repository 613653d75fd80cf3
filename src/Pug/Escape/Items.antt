-- ===== src/Pug/Escape/Items.antt =====
-- A text as template delimiters and other bytes, read from the left.
use pugtemplate.Common.{
  Text, lit, ℕ, false, ◌&&◌, List, [], ◌∷◌, ◌++◌, ◌==◌, if◌then◌else◌, ◌≡◌, refl, arith, Bool-cases,
  inl, inr,
}

pub data Item : Type 0 where
  opening closing : Item
  byte : ℕ → Item

unfoldable pub items : Text → List Item
items [] = []
items (c ∷ []) = Item.byte c ∷ []
items (c ∷ d ∷ s) =
    let after_pair = items s in
    let after_byte = Item.byte c ∷ items (d ∷ s) in
    if c == 123 && d == 123
    then Item.opening ∷ after_pair
    else if c == 125 && d == 125
    then Item.closing ∷ after_pair
    else after_byte

-- The text of items, by what stands for the two delimiters.
abbrev pub flat : Text → Text → List Item → Text
flat o c [] = []
flat o c (Item.opening ∷ is) = o ++ flat o c is
flat o c (Item.closing ∷ is) = c ++ flat o c is
flat o c (Item.byte b ∷ is) = b ∷ flat o c is

-- A byte that would form a delimiter with the next item does not stand before it.
abbrev pub Follows : ℕ → List Item → Type 0
Follows c [] = Unit
Follows c (Item.opening ∷ is) = (c == 123) ≡ false
Follows c (Item.closing ∷ is) = (c == 125) ≡ false
Follows c (Item.byte d ∷ is) = ((c == 123 && d == 123) ≡ false) × ((c == 125 && d == 125) ≡ false)

abbrev pub Separated : List Item → Type 0
Separated [] = Unit
Separated (Item.opening ∷ is) = Separated is
Separated (Item.closing ∷ is) = Separated is
Separated (Item.byte c ∷ is) = Follows c is × Separated is

items-Follows :
    (c d : ℕ) (s : Text)
    → (c == 123 && d == 123) ≡ false
    → (c == 125 && d == 125) ≡ false
    → Follows c (items (d ∷ s))
unfolding items
items-Follows c d [] h k = (h, k)
items-Follows c d (e ∷ s) h k = elim (Bool-cases (d == 123 && e == 123)) [
  | inl o ↦ rw o (ground arith)
  | inr no_open ↦ rw no_open (elim (Bool-cases (d == 125 && e == 125)) [
    | inl o ↦ rw o (ground arith)
    | inr no_close ↦ rw no_close (h, k)
  ])
]

pub items-Separated : (s : Text) → Separated (items s)
unfolding items
items-Separated [] = tt
items-Separated (c ∷ []) = (tt, tt)
items-Separated (c ∷ d ∷ s) = elim (Bool-cases (c == 123 && d == 123)) [
  | inl o ↦ rw o (items-Separated s)
  | inr no_open ↦ rw no_open (elim (Bool-cases (c == 125 && d == 125)) [
    | inl o ↦ rw o (items-Separated s)
    | inr no_close ↦ rw no_close (items-Follows c d s no_open no_close, items-Separated (d ∷ s))
  ])
]

-- The items of a text spell the text.
pub flat-items : (s : Text) → flat (lit "{{") (lit "}}") (items s) ≡ s
unfolding items lit
flat-items [] = refl
flat-items (c ∷ []) = refl
flat-items (c ∷ d ∷ s) = ground (arith, flat-items s, flat-items (d ∷ s))
