-- ===== src/Template/Variables.antt =====
-- The stack of variables of a state, and the blocks bound to it (pugjs/tpl_exec.go).
use pugtemplate.Common.{
  Text, text_eq, ℕ, zero, suc, List, [], ◌∷◌, ◌++◌, Option, none, some, get_elem?, if◌then◌else◌,
}
use pugtemplate.Template.Slices.{view, set_cell, make_copy, append, remove}
use pugtemplate.Template.State.{Variable, BoundBlock, State, Store}

-- The last block of a name, with its place.
abbrev pub or_block : Text → BoundBlock → Option (ℕ × ℕ) → Option (ℕ × ℕ)
or_block n b (some (i, scope)) = some (suc i, scope)
or_block n b none = if text_eq b.name n then some (0, b.scope) else none

unfoldable pub find_block : Text → List BoundBlock → Option (ℕ × ℕ)
find_block n [] = none
find_block n (b ∷ bs) = or_block n b (find_block n bs)

module _ {V : Type 0} where
  abbrev pub empty_state : State V
  empty_state = record {
    vars = record { array = 0; len = 0 };
    depth = 0;
    globals = [];
    bound_blocks = record { array = 0; len = 0 };
  }

  abbrev pub or_empty : Option (State V) → State V
  or_empty none = empty_state
  or_empty (some s) = s

  abbrev pub put_state : ℕ → State V → List (State V) → List (State V)
  put_state s x [] = []
  put_state zero x (y ∷ ys) = x ∷ ys
  put_state (suc s) x (y ∷ ys) = y ∷ put_state s x ys

  -- The last variable of a name counts: what was found later, else this one.
  abbrev pub or_this : Text → Variable V → Option V → Option V
  or_this n x (some v) = some v
  or_this n x none = if text_eq x.name n then some x.value else none

  unfoldable pub find_var : Text → List (Variable V) → Option V
  find_var n [] = none
  find_var n (x ∷ xs) = or_this n x (find_var n xs)

  abbrev pub or_index : Text → Variable V → Option ℕ → Option ℕ
  or_index n x (some i) = some (suc i)
  or_index n x none = if text_eq x.name n then some 0 else none

  unfoldable pub find_index : Text → List (Variable V) → Option ℕ
  find_index n [] = none
  find_index n (x ∷ xs) = or_index n x (find_index n xs)

  abbrev pub or_invalid : V → Option V → V
  or_invalid z none = z
  or_invalid z (some v) = v

module _ {V W : Type 0} where
  -- What the pointer to a state leads to; pointers are those of states that were made.
  abbrev pub state_at : ℕ → Store V W → State V
  state_at s st = or_empty (get_elem? st.states s)

  abbrev pub vars_of : ℕ → Store V W → List (Variable V)
  vars_of s st = view st.variables (state_at s st).vars

  -- `varValue`, with the invalid value of reflect.
  unfoldable pub var_value : V → ℕ → Text → Store V W → V
  unfolding find_var view
  var_value z s n st = or_invalid z (find_var n (vars_of s st))

  -- `push`, with Go's choice of the room for a new array.
  unfoldable pub push : (ℕ → ℕ) → ℕ → Text → V → Store V W → Store V W
  unfolding append
  push spare s n v st =
      let x = state_at s st in
      let (slice, arrays) = append spare (record { name = n; value = v }) x.vars st.variables in
      record st { states = put_state s (record x { vars = slice }) st.states; variables = arrays }

  abbrev pub set_found : (ℕ → ℕ) → ℕ → Text → V → Option ℕ → Store V W → Store V W
  set_found spare s n v none st = push spare s n v st
  set_found spare s n v (some i) st = record st {
    variables = set_cell i (record { name = n; value = v }) (state_at s st).vars st.variables;
  }

  -- `setVarValue`: where a variable of this name is found, it is written in place.
  unfoldable pub set_var_value : (ℕ → ℕ) → ℕ → Text → V → Store V W → Store V W
  unfolding push set_cell find_index view
  set_var_value spare s n v st = set_found spare s n v (find_index n (vars_of s st)) st

  -- `pop` drops nothing: its body is commented out.
  unfoldable pub pop : ℕ → Store V W → Store V W
  pop mark st = st

  abbrev pub blocks_of : ℕ → Store V W → List BoundBlock
  blocks_of s st = view st.blocks (state_at s st).bound_blocks

  -- The call of `__freeze` in evalCall: the block is bound to the state that calls.
  unfoldable pub freeze : (ℕ → ℕ) → ℕ → Text → Store V W → Store V W
  unfolding append
  freeze spare s n st =
      let x = state_at s st in
      let (slice, arrays) =
        append spare (record { name = n; scope = s }) x.bound_blocks st.blocks in
      record st {
        states = put_state s (record x { bound_blocks = slice }) st.states;
        blocks = arrays;
      }

  -- The new state of walkTemplate: a copy of the block's scope, made before the block is taken from
  -- the caller's list, or a copy of the caller with the globals for variables.
  abbrev pub enter_found : ℕ → Option (ℕ × ℕ) → Store V W → Store V W
  enter_found s (some (i, scope)) st =
      let x = state_at s st in
      let new = state_at scope st in
      let (slice, arrays) = remove i x.bound_blocks st.blocks in
      record st {
        states =
            put_state s (record x { bound_blocks = slice }) st.states
            ++ (record new { depth = suc new.depth } ∷ []);
        blocks = arrays;
      }
  enter_found s none st =
      let x = state_at s st in
      let (slice, arrays) = make_copy x.globals st.variables in
      record st {
        states = st.states ++ (record x { vars = slice; depth = suc x.depth } ∷ []);
        variables = arrays;
      }

  unfoldable pub enter : ℕ → Text → Store V W → Store V W
  unfolding find_block remove make_copy view
  enter s n st = enter_found s (find_block n (blocks_of s st)) st
