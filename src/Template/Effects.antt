-- ===== src/Template/Effects.antt =====
-- What the changes of variables, blocks and states (pugjs/tpl_exec.go) leave as it was.
use pugtemplate.Common.{
  Text, ℕ, zero, suc, ◌≤◌, List, [], ◌∷◌, Option, none, some, get_elem?, length, length-append, ◌≡◌,
  refl, ap, arith,
}
use pugtemplate.Template.State.{State, Store}
use pugtemplate.Template.Variables.{
  put_state, state_at, or_empty, push, set_var_value, set_found, freeze, enter, enter_found,
  find_index, find_block, vars_of, blocks_of,
}

-- States that differ in their variables.
pub record Similar {V : Type 0} (x y : State V) : Type 0 where
  pub depth : y.depth ≡ x.depth
  pub bound_blocks : y.bound_blocks ≡ x.bound_blocks

pub Similar-refl : {V : Type 0} (x : State V) → Similar x x
Similar-refl x = record { depth = refl; bound_blocks = refl }

module _ {V : Type 0} where
  pub length-put_state :
      (s : ℕ) (x : State V) (xs : List (State V)) → length (put_state s x xs) ≡ length xs
  length-put_state s x [] = refl
  length-put_state zero x (y ∷ ys) = refl
  length-put_state (suc s) x (y ∷ ys) = ap suc (length-put_state s x ys)

  pub state-put_state :
      (s i : ℕ) (x : State V) (xs : List (State V))
      → Similar (or_empty (get_elem? xs s)) x
      → Similar (or_empty (get_elem? xs i)) (or_empty (get_elem? (put_state s x xs) i))
  state-put_state s i x [] h = Similar-refl _
  state-put_state zero zero x (y ∷ ys) h = h
  state-put_state zero (suc i) x (y ∷ ys) h = Similar-refl _
  state-put_state (suc s) zero x (y ∷ ys) h = Similar-refl _
  state-put_state (suc s) (suc i) x (y ∷ ys) h = state-put_state s i x ys h

module _ {V W : Type 0} where
  -- A change of the variables of a state.
  pub record Changed (a b : Store V W) : Type 0 where
    pub grows : length a.states ≤ length b.states
    pub similar : (i : ℕ) → Similar (state_at i a) (state_at i b)
    pub output : b.output ≡ a.output

  pub push-Changed :
      (spare : ℕ → ℕ) (s : ℕ) (n : Text) (v : V) (st : Store V W) → Changed st (push spare s n v st)
  unfolding push
  push-Changed spare s n v st = record {
    grows = omega (arith, length-put_state s (record (state_at s st) { vars = _ }) st.states);
    similar = λ i. state-put_state s i _ st.states (record { depth = refl; bound_blocks = refl });
    output = refl;
  }

  set_found-Changed :
      (spare : ℕ → ℕ) (s : ℕ) (n : Text) (v : V) (o : Option ℕ) (st : Store V W)
      → Changed st (set_found spare s n v o st)
  set_found-Changed spare s n v none st = push-Changed spare s n v st
  set_found-Changed spare s n v (some i) st = record {
    grows = omega arith;
    similar = λ j. Similar-refl _;
    output = refl;
  }

  pub set_var_value-Changed :
      (spare : ℕ → ℕ) (s : ℕ) (n : Text) (v : V) (st : Store V W)
      → Changed st (set_var_value spare s n v st)
  unfolding set_var_value
  set_var_value-Changed spare s n v st =
      set_found-Changed spare s n v (find_index n (vars_of s st)) st

  -- The states that are there stay there, and so does the output.
  pub record Grown (a b : Store V W) : Type 0 where
    pub states : length a.states ≤ length b.states
    pub output : b.output ≡ a.output

  pub Changed-Grown : {a b : Store V W} → Changed a b → Grown a b
  Changed-Grown h = record { states = h.grows; output = h.output }

  pub freeze-Grown :
      (spare : ℕ → ℕ) (s : ℕ) (n : Text) (st : Store V W) → Grown st (freeze spare s n st)
  unfolding freeze
  freeze-Grown spare s n st = record {
    states =
        omega (arith, length-put_state s (record (state_at s st) { bound_blocks = _ }) st.states);
    output = refl;
  }

  enter_found-adds :
      (s : ℕ) (o : Option (ℕ × ℕ)) (st : Store V W)
      → (length (enter_found s o st).states ≡ suc (length st.states))
        × ((enter_found s o st).output ≡ st.output)
  enter_found-adds s none st = (
    omega (arith, length-append st.states (record (state_at s st) { vars = _; depth = _ } ∷ [])),
    refl,
  )
  enter_found-adds s (some (i, scope)) st = (
    omega (
      arith,
      length-put_state s (record (state_at s st) { bound_blocks = _ }) st.states,
      length-append (put_state s (record (state_at s st) { bound_blocks = _ }) st.states)
          (record (state_at scope st) { depth = _ } ∷ []),
    ),
    refl,
  )

  -- Entering a template adds one state.
  pub enter-adds :
      (s : ℕ) (n : Text) (st : Store V W)
      → (length (enter s n st).states ≡ suc (length st.states))
        × ((enter s n st).output ≡ st.output)
  unfolding enter
  enter-adds s n st = enter_found-adds s (find_block n (blocks_of s st)) st
