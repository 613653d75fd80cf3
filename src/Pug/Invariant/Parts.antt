-- ===== src/Pug/Invariant/Parts.antt =====
-- The parts of a template that is written line by line (pugjs/pug_parser.go).
use pugtemplate.Common.{
  Text, lit, text_eq, text_eq_iff, Bool, true, false, Bool-cases, List, [], ◌∷◌, ◌++◌, any, ◌≡◌,
  refl, sym, ap, ◌∙◌, subst, arith, append_assoc, append-nil, inl, inr,
}
use pugtemplate.Pug.Compile.{write_blocks, write_mixins}
use pugtemplate.Pug.State.{find}

-- A part of a text.
abbrev pub Inside : Text → Text → Type 0
Inside p w = (before : Text) × (after : Text) × (before ++ (p ++ after) ≡ w)

pub Inside-behind : (p v w : Text) → Inside p w → Inside p (v ++ w)
Inside-behind p v w (before, after, e) =
    (v ++ before, after, append_assoc v before (p ++ after) ∙ ap (λ t. v ++ t) e)

pub Inside-ahead : (p v w : Text) → Inside p v → Inside p (v ++ w)
Inside-ahead p v w (before, after, e) = (
  before,
  after ++ w,
  ap (λ t. before ++ t) (sym (append_assoc p after w))
      ∙ sym (append_assoc before (p ++ after) w)
      ∙ ap (λ t. t ++ w) e,
)

-- What is written on a line of its own.
Inside-line : (p w : Text) → Inside p (lit "\n" ++ (p ++ w))
Inside-line p w = (lit "\n", w, refl)

Inside-lines : (p line w : Text) → Inside p w → Inside p (lit "\n" ++ (line ++ w))
Inside-lines p line w h = Inside-behind p (lit "\n") (line ++ w) (Inside-behind p line w h)

pub write_mixins-Inside :
    (n : Text) (ns : List Text) (m : List (Text × Text))
    → any (text_eq n) ns ≡ true
    → Inside (find n m) (write_mixins ns m)
write_mixins-Inside n [] m h = absurd (ground (arith, h))
write_mixins-Inside n (k ∷ ns) m h = elim (Bool-cases (text_eq n k)) [
  | inl e ↦
      subst (λ j. Inside (find n m) (lit "\n" ++ (find j m ++ write_mixins ns m)))
        ((text_eq_iff n k).0 e) (Inside-line (find n m) (write_mixins ns m))
  | inr e ↦
      Inside-lines (find n m) (find k m) (write_mixins ns m)
        (write_mixins-Inside n ns m (ground (arith, e, h)))
]

pub write_blocks-Inside :
    (b : Text) (bs : List Text) → any (text_eq b) bs ≡ true → Inside b (write_blocks bs)
write_blocks-Inside b [] h = absurd (ground (arith, h))
write_blocks-Inside b (c ∷ bs) h = elim (Bool-cases (text_eq b c)) [
  | inl e ↦
      subst (λ d. Inside b (lit "\n" ++ (d ++ write_blocks bs))) ((text_eq_iff b c).0 e)
        (Inside-line b (write_blocks bs))
  | inr e ↦ Inside-lines b c (write_blocks bs) (write_blocks-Inside b bs (ground (arith, e, h)))
]

pub any-none :
    (p : Text → Bool) (n : Text) (xs : List Text)
    → any p xs ≡ false
    → any (text_eq n) xs ≡ true
    → p n ≡ false
any-none p n [] f h = absurd (ground (arith, h))
any-none p n (x ∷ xs) f h = elim (Bool-cases (text_eq n x)) [
  | inl e ↦ ap p ((text_eq_iff n x).0 e) ∙ ground (arith, f)
  | inr e ↦ any-none p n xs (ground (arith, f)) (ground (arith, e, h))
]

-- A part of a part.
pub Inside-Inside : (p v w : Text) → Inside p v → Inside v w → Inside p w
Inside-Inside p v w h (before, after, e) =
    subst (Inside p) e (Inside-behind p before (v ++ after) (Inside-ahead p v after h))

pub whole : (w : Text) → Inside w w
whole w = ([], [], append-nil w)
