-- ===== src/Template/Places.antt =====
-- A state at its place in the list, and a block that is found at its place (pugjs/tpl_exec.go).
use pugtemplate.Common.{
  Text, ℕ, zero, suc, ◌≤◌, ◌<◌, List, [], ◌∷◌, ◌++◌, none, some, length, get_elem?, All, ◌≡◌, sym,
  ap, ◌∙◌, arith, inl, inr, Option-cases, Bool-cases, text_eq,
}
use pugtemplate.Template.State.{State, BoundBlock}
use pugtemplate.Template.Variables.{put_state, or_empty, find_block, or_block}

-- A block is bound to one of so many states.
abbrev pub BoundBelow : ℕ → BoundBlock → Type 0
BoundBelow n b = b.scope < n

module _ {V : Type 0} (Q : State V → Type 0) where
  pub put-all :
      (s : ℕ) (x : State V) (xs : List (State V))
      → Q x
      → ((i : ℕ) → i < length xs → Q (or_empty (get_elem? xs i)))
      → (i : ℕ) → i < length xs
      → Q (or_empty (get_elem? (put_state s x xs) i))
  put-all s x [] q h i l = absurd (ground (arith, l))
  put-all zero x (y ∷ ys) q h zero l = q
  put-all zero x (y ∷ ys) q h (suc i) l = h (suc i) l
  put-all (suc s) x (y ∷ ys) q h zero l = h 0 l
  put-all (suc s) x (y ∷ ys) q h (suc i) l =
      put-all s x ys q (λ j k. h (suc j) (omega (arith, k))) i (omega (arith, l))

  pub last-all :
      (xs : List (State V)) (x : State V)
      → Q x
      → ((i : ℕ) → i < length xs → Q (or_empty (get_elem? xs i)))
      → (i : ℕ) → i < suc (length xs)
      → Q (or_empty (get_elem? (xs ++ (x ∷ [])) i))
  last-all [] x q h zero l = q
  last-all [] x q h (suc i) l = absurd (ground (arith, l))
  last-all (y ∷ ys) x q h zero l = h 0 (omega arith)
  last-all (y ∷ ys) x q h (suc i) l =
      last-all ys x q (λ j k. h (suc j) (omega (arith, k))) i (omega (arith, l))

pub below_mono :
    (n m : ℕ) (bs : List BoundBlock) → n ≤ m → All (BoundBelow n) bs → All (BoundBelow m) bs
below_mono n m [] l h = tt
below_mono n m (b ∷ bs) l h = (omega (arith, l, h.0), below_mono n m bs l h.1)

-- The place and the scope of a block that was found.
pub found-In :
    (k : ℕ) (n : Text) (bs : List BoundBlock) (i scope : ℕ)
    → All (BoundBelow k) bs
    → find_block n bs ≡ some (i, scope)
    → (i < length bs) × (scope < k)
unfolding find_block
found-In k n [] i scope h e = absurd (ground (arith, e))
found-In k n (b ∷ bs) i scope h e = elim (Option-cases (find_block n bs)) [
  | inl none_later ↦ here (ap (or_block n b) (sym none_later) ∙ e)
  | inr ((j, other), later) ↦
      let (inside, below) = found-In k n bs j other h.1 later in
      behind j other inside below (ap (or_block n b) (sym later) ∙ e)
]
  where
    here : or_block n b none ≡ some (i, scope) → (i < length (b ∷ bs)) × (scope < k)
    here e = elim (Bool-cases (text_eq b.name n)) [
      | inl t ↦ ground (arith, e, t, h)
      | inr t ↦ absurd (ground (arith, e, t))
    ]

    behind :
        (j other : ℕ)
        → j < length bs
        → other < k
        → or_block n b (some (j, other)) ≡ some (i, scope)
        → (i < length (b ∷ bs)) × (scope < k)
    behind j other inside below e = ground (arith, inside, below, e)
