-- ===== src/Template/Visible.antt =====
-- Which variables a state sees, in a store that is in order (pugjs/tpl_exec.go).
use pugtemplate.Common.{Text, text_eq, ℕ, ◌<◌, none, some, length, ◌≡◌, false}
use pugtemplate.Template.State.{Store}
use pugtemplate.Template.Variables.{
  state_at, vars_of, blocks_of, find_index, find_block, var_value, set_var_value, enter,
}
use pugtemplate.Template.Places.{found-In}
use pugtemplate.Template.Valid.{IsValid, bound-scopes}
use pugtemplate.Template.Aliases.{var_value-set_inside}
use pugtemplate.Template.Blocks.{fresh_isolated, block-writes_inside}

module _ {V W : Type 0} (spare : ℕ → ℕ) (s : ℕ) (st : Store V W) (valid : IsValid st)
    (exists : s < length st.states) where
  -- In a store that is in order, a variable that is set in a state is read there with its new value,
  -- and one of another name with the value it had before.
  pub var_value-set_var_value :
      (n m : Text) (v z : V)
      → text_eq n m ≡ false
      → (var_value z s n (set_var_value spare s n v st) ≡ v)
        × (var_value z s m (set_var_value spare s n v st) ≡ var_value z s m st)
  var_value-set_var_value n m v z h =
      var_value-set_inside spare s n v st exists (valid.vars s exists) z m h

  -- In a store that is in order, a template that is called and bound to no block sees the globals of
  -- its caller and nothing else, and no state that was there sees a variable that it sets.
  pub template_isolated :
      (n x : Text) (v : V) (t : ℕ)
      → find_block n (blocks_of s st) ≡ none
      → t < length st.states
      → (vars_of (length st.states) (enter s n st) ≡ (state_at s st).globals)
        × (vars_of t (set_var_value spare (length st.states) x v (enter s n st)) ≡ vars_of t st)
  template_isolated n x v t unbound l =
      fresh_isolated spare s n st x v t unbound l (valid.vars t l).0

  -- In a store that is in order, a block that is called sees the variables of the state that it was
  -- bound in, its scope, and where it sets a variable that the scope has, the scope reads the new
  -- value.
  pub block-writes_through :
      (n x : Text) (i scope j : ℕ) (v z : V)
      → find_block n (blocks_of s st) ≡ some (i, scope)
      → find_index x (vars_of scope st) ≡ some j
      → (vars_of (length st.states) (enter s n st) ≡ vars_of scope st)
        × (var_value z scope x (set_var_value spare (length st.states) x v (enter s n st)) ≡ v)
  block-writes_through n x i scope j v z e found =
      let below =
        (found-In (length st.states) n (blocks_of s st) i scope (bound-scopes s st valid) e).1 in
      block-writes_inside spare s n st i scope j x v z e below (valid.vars scope below) found
