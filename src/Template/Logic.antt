-- ===== src/Template/Logic.antt =====
-- The functions `__op__and`, `__op__or` and `__op__not` of pugjs/tpl_funcs.go, into which the
-- logical operators of JavaScript are translated.
use pugtemplate.Common.{
  Bool, true, false, not, List, [], ◌∷◌, all, any, ◌≡◌, ap, inl, inr, Bool-cases, if◌then◌else◌,
}
use pugtemplate.Runtime.Value.{Floats, Value}
use pugtemplate.Runtime.Builtins.{is_true}

module _ (fl : Floats) where
  -- `truth`: the invalid value is the absent one.
  unfoldable pub truth : Value fl → Bool
  unfolding is_true
  truth v = is_true fl v

  abbrev pub and_rest : Value fl → List (Value fl) → Value fl
  and_rest v [] = v
  and_rest v (w ∷ ws) = if truth w then and_rest w ws else w

  unfoldable pub op_and : Value fl → List (Value fl) → Value fl
  unfolding truth
  op_and v ws = if not (truth v) then v else and_rest v ws

  abbrev pub or_rest : Value fl → List (Value fl) → Value fl
  or_rest v [] = v
  or_rest v (w ∷ ws) = if truth w then w else or_rest w ws

  unfoldable pub op_or : Value fl → List (Value fl) → Value fl
  unfolding truth
  op_or v ws = if truth v then v else or_rest v ws

  unfoldable pub op_not : Value fl → Bool
  unfolding truth
  op_not v = not (truth v)

  -- The operands up to the result: `p` holds of all before it, and it fails for the result, or the
  -- result is the last operand.
  pub data Stops (p : Value fl → Bool) : List (Value fl) → Value fl → Type 0 where
    last : (v : Value fl) → Stops p (v ∷ []) v
    fails : (v : Value fl) (vs : List (Value fl)) → p v ≡ false → Stops p (v ∷ vs) v
    passes :
        (v w : Value fl) (vs : List (Value fl)) → p v ≡ true → Stops p vs w → Stops p (v ∷ vs) w

  and_rest-Stops :
      (v : Value fl) (ws : List (Value fl)) → truth v ≡ true → Stops truth (v ∷ ws) (and_rest v ws)
  and_rest-Stops v [] h = Stops.last v
  and_rest-Stops v (w ∷ ws) h = elim (Bool-cases (truth w)) [
    | inl e ↦ rw e (Stops.passes v (and_rest w ws) (w ∷ ws) h (and_rest-Stops w ws e))
    | inr e ↦ rw e (Stops.passes v w (w ∷ ws) h (Stops.fails w ws e))
  ]

  or_rest-Stops :
      (v : Value fl) (ws : List (Value fl)) → truth v ≡ false → Stops op_not (v ∷ ws) (or_rest v ws)
  unfolding op_not
  or_rest-Stops v [] h = Stops.last v
  or_rest-Stops v (w ∷ ws) h = elim (Bool-cases (truth w)) [
    | inl e ↦ rw e (Stops.passes v w (w ∷ ws) (ap not h) (Stops.fails w ws (ap not e)))
    | inr e ↦ rw e (Stops.passes v (or_rest w ws) (w ∷ ws) (ap not h) (or_rest-Stops w ws e))
  ]

  and_rest-truth :
      (v : Value fl) (ws : List (Value fl)) → truth v ≡ true → truth (and_rest v ws) ≡ all truth ws
  and_rest-truth v [] h = h
  and_rest-truth v (w ∷ ws) h = elim (Bool-cases (truth w)) [
    | inl e ↦ rw e (and_rest-truth w ws e)
    | inr e ↦ rw e e
  ]

  or_rest-truth :
      (v : Value fl) (ws : List (Value fl)) → truth v ≡ false → truth (or_rest v ws) ≡ any truth ws
  or_rest-truth v [] h = h
  or_rest-truth v (w ∷ ws) h = elim (Bool-cases (truth w)) [
    | inl e ↦ rw e e
    | inr e ↦ rw e (or_rest-truth w ws e)
  ]

  -- Of any operands `__op__and` returns the first that is false, else the last one, and `__op__or`
  -- the first that is true, else the last one. So the first is true exactly where all operands are,
  -- and the second exactly where one of them is.
  pub logic-Stops :
      (v : Value fl) (ws : List (Value fl))
      → Stops truth (v ∷ ws) (op_and v ws)
        × Stops op_not (v ∷ ws) (op_or v ws)
        × (truth (op_and v ws) ≡ all truth (v ∷ ws))
        × (truth (op_or v ws) ≡ any truth (v ∷ ws))
  unfolding op_and op_or op_not
  logic-Stops v ws = elim (Bool-cases (truth v)) [
    | inl e ↦ rw e (and_rest-Stops v ws e, Stops.fails v ws (ap not e), and_rest-truth v ws e, e)
    | inr e ↦ rw e (Stops.fails v ws e, or_rest-Stops v ws e, e, or_rest-truth v ws e)
  ]
