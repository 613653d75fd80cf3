-- ===== src/Template/Blocks.antt =====
-- The variables that a template sees (pugjs/tpl_exec.go): those of the scope of its block, or the
-- globals in an array of its own.
use pugtemplate.Common.{
  Text, ℕ, zero, suc, ◌<◌, List, [], ◌∷◌, ◌++◌, none, some, length, length-append, get_elem?, ◌≡◌,
  ◌≢◌, refl, sym, ap, ◌∙◌, subst, arith,
}
use pugtemplate.Template.Slices.{Array, view, make_copy, remove, Fits}
use pugtemplate.Template.Views.{get_elem?-at, get_elem?-before}
use pugtemplate.Template.Writes.{view-make_copy, view-make_copy_other}
use pugtemplate.Template.State.{State, Store}
use pugtemplate.Template.Variables.{
  state_at, put_state, or_empty, vars_of, find_index, var_value, set_var_value, enter, enter_found,
  find_block, blocks_of,
}
use pugtemplate.Template.Effects.{length-put_state}
use pugtemplate.Template.Aliases.{shared-sees, others-stay}

length_lt-append : {A : Type 0} (xs : List A) (x : A) → length xs < length (xs ++ (x ∷ []))
length_lt-append xs x = omega (arith, length-append xs (x ∷ []))

copy-Fits :
    {A : Type 0} (xs : List A) (arrays : List (Array A))
    → Fits (make_copy xs arrays).1 (make_copy xs arrays).0
unfolding make_copy
copy-Fits xs arrays = (
  length_lt-append arrays _,
  rw (get_elem?-at arrays (record { cells = xs; cap = length xs })) (omega arith),
  rw (get_elem?-at arrays (record { cells = xs; cap = length xs })) (omega arith),
)

module _ {V : Type 0} where
  pub vars-put :
      (s i : ℕ) (x : State V) (xs : List (State V))
      → x.vars ≡ (or_empty (get_elem? xs s)).vars
      → (or_empty (get_elem? (put_state s x xs) i)).vars ≡ (or_empty (get_elem? xs i)).vars
  vars-put s i x [] h = refl
  vars-put zero zero x (y ∷ ys) h = h
  vars-put zero (suc i) x (y ∷ ys) h = refl
  vars-put (suc s) zero x (y ∷ ys) h = refl
  vars-put (suc s) (suc i) x (y ∷ ys) h = vars-put s i x ys h

module _ {V W : Type 0} (spare : ℕ → ℕ) (s : ℕ) (n : Text) (st : Store V W) where
  abbrev fresh : Store V W
  fresh = enter_found s none st

  fresh_slice :
      (state_at (length st.states) fresh).vars ≡ (make_copy (state_at s st).globals st.variables).0
  fresh_slice = ap (λ o. (or_empty o).vars) (get_elem?-at st.states _)

  fresh_vars : vars_of (length st.states) fresh ≡ (state_at s st).globals
  fresh_vars =
      ap (view (make_copy (state_at s st).globals st.variables).1) fresh_slice
      ∙ view-make_copy (state_at s st).globals st.variables

  old_state : (t : ℕ) → t < length st.states → state_at t fresh ≡ state_at t st
  old_state t l = ap or_empty (get_elem?-before st.states _ t l)

  old_vars :
      (t : ℕ)
      → t < length st.states
      → (state_at t st).vars.array < length st.variables
      → vars_of t fresh ≡ vars_of t st
  old_vars t l k =
      ap (λ x. view (make_copy (state_at s st).globals st.variables).1 x.vars) (old_state t l)
      ∙ view-make_copy_other (state_at s st).globals st.variables (state_at t st).vars k

  not_seen :
      (x : Text) (v : V) (t : ℕ)
      → t < length st.states
      → (state_at t st).vars.array < length st.variables
      → vars_of t (set_var_value spare (length st.states) x v fresh) ≡ vars_of t st
  unfolding make_copy
  not_seen x v t l k =
      others-stay spare (length st.states) x v fresh (length_lt-append st.states _)
        (subst (Fits fresh.variables) (sym fresh_slice)
          (copy-Fits (state_at s st).globals st.variables))
        t (λ e. ground (arith, e, l))
        (rw (old_state t l) (
          omega (
            arith,
            k,
            length_lt-append st.variables (record { cells = (state_at s st).globals; cap = _ }),
          )))
        (rw (old_state t l, fresh_slice) (behind k))
      ∙ old_vars t l k
    where
      behind : {k m : ℕ} → k < m → k ≢ m
      behind h e = ground (arith, h, e)

  -- A template that is bound to no block, and a state whose array was there.
  pub fresh_isolated :
      (x : Text) (v : V) (t : ℕ)
      → find_block n (blocks_of s st) ≡ none
      → t < length st.states
      → (state_at t st).vars.array < length st.variables
      → (vars_of (length st.states) (enter s n st) ≡ (state_at s st).globals)
        × (vars_of t (set_var_value spare (length st.states) x v (enter s n st)) ≡ vars_of t st)
  unfolding enter
  fresh_isolated x v t unbound l k = rw unbound (fresh_vars, not_seen x v t l k)

at_end :
    {A : Type 0} (xs : List A) (x : A) (k : ℕ)
    → length xs ≡ k
    → get_elem? (xs ++ (x ∷ [])) k ≡ some x
at_end xs x k e = ap (get_elem? (xs ++ (x ∷ []))) (sym e) ∙ get_elem?-at xs x

module _ {V W : Type 0} (s i scope : ℕ) (st : Store V W) where
  abbrev bound : Store V W
  bound = enter_found s (some (i, scope)) st

  abbrev caller_changed : List (State V)
  caller_changed =
      put_state s
        (record (state_at s st) {
          bound_blocks = (remove i (state_at s st).bound_blocks st.blocks).0;
        })
        st.states

  same_count : length caller_changed ≡ length st.states
  same_count = length-put_state s _ st.states

  bound_slice : (state_at (length st.states) bound).vars ≡ (state_at scope st).vars
  bound_slice = ap (λ o. (or_empty o).vars) (at_end caller_changed _ (length st.states) same_count)

  scope_slice : scope < length st.states → (state_at scope bound).vars ≡ (state_at scope st).vars
  scope_slice l =
      ap (λ o. (or_empty o).vars)
        (get_elem?-before caller_changed _ scope (omega (arith, l, same_count)))
      ∙ vars-put s scope _ st.states refl

  pub bound_vars : vars_of (length st.states) bound ≡ vars_of scope st
  bound_vars = ap (view st.variables) bound_slice

  write_seen :
      (spare : ℕ → ℕ) (j : ℕ) (x : Text) (v z : V)
      → scope < length st.states
      → Fits st.variables (state_at scope st).vars
      → find_index x (vars_of scope st) ≡ some j
      → var_value z scope x (set_var_value spare (length st.states) x v bound) ≡ v
  write_seen spare j x v z l fits found =
      shared-sees spare (length st.states) x v bound
        (subst (λ k. k < length bound.states) same_count (length_lt-append caller_changed _))
        (subst (Fits st.variables) (sym bound_slice) fits) z scope j
        (ap (find_index x) bound_vars ∙ found) (scope_slice l ∙ sym bound_slice)

-- A block whose scope is there, with its slice within its array.
pub block-writes_inside :
    {V W : Type 0} (spare : ℕ → ℕ) (s : ℕ) (n : Text) (st : Store V W) (i scope j : ℕ) (x : Text)
    (v z : V)
    → find_block n (blocks_of s st) ≡ some (i, scope)
    → scope < length st.states
    → Fits st.variables (state_at scope st).vars
    → find_index x (vars_of scope st) ≡ some j
    → (vars_of (length st.states) (enter s n st) ≡ vars_of scope st)
      × (var_value z scope x (set_var_value spare (length st.states) x v (enter s n st)) ≡ v)
unfolding enter
block-writes_inside spare s n st i scope j x v z e l fits found =
    rw e (bound_vars s i scope st, write_seen s i scope st spare j x v z l fits found)
