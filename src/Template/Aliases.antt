-- ===== src/Template/Aliases.antt =====
-- Which states see a variable that is set (pugjs/tpl_exec.go).
use pugtemplate.Common.{
  Text, text_eq, ℕ, zero, suc, ◌<◌, List, [], ◌∷◌, ◌++◌, Option, none, some, length, get_elem?, ◌≡◌,
  ◌≢◌, refl, sym, ap, ◌∙◌, subst, arith, false,
}
use pugtemplate.Template.Slices.{view, append, set_cell, put_cell, Fits}
use pugtemplate.Template.Writes.{
  view-length, view-set_cell, view-set_other, view-append, view-append_other,
}
use pugtemplate.Template.State.{State, Store}
use pugtemplate.Template.Variables.{
  state_at, put_state, or_empty, vars_of, find_var, find_index, var_value, set_var_value, set_found,
  push, or_invalid,
}
use pugtemplate.Template.Scoping.{Written, variable, behind-Written, found-Written}

module _ {V : Type 0} where
  pub state-put :
      (s : ℕ) (x : State V) (xs : List (State V))
      → s < length xs
      → or_empty (get_elem? (put_state s x xs) s) ≡ x
  state-put s x [] h = absurd (ground (arith, h))
  state-put zero x (y ∷ ys) h = refl
  state-put (suc s) x (y ∷ ys) h = state-put s x ys (omega (arith, h))

  state-put_other :
      (s t : ℕ) (x : State V) (xs : List (State V))
      → t ≢ s
      → get_elem? (put_state s x xs) t ≡ get_elem? xs t
  state-put_other s t x [] h = refl
  state-put_other zero zero x (y ∷ ys) h = absurd (h refl)
  state-put_other zero (suc t) x (y ∷ ys) h = refl
  state-put_other (suc s) zero x (y ∷ ys) h = refl
  state-put_other (suc s) (suc t) x (y ∷ ys) h = state-put_other s t x ys λ e. h (ap suc e)

module _ {V W : Type 0} (spare : ℕ → ℕ) (s : ℕ) (n : Text) (v : V) (st : Store V W)
    (exists : s < length st.states) (fits : Fits st.variables (state_at s st).vars) where
  -- The list of variables of the state itself.
  found-vars :
      (i : ℕ)
      → find_index n (vars_of s st) ≡ some i
      → (t : ℕ) → (state_at t st).vars ≡ (state_at s st).vars
      → vars_of t (set_found spare s n v (some i) st) ≡ put_cell i (variable n v) (vars_of s st)
  unfolding set_cell
  found-vars i e t same =
      ap (view _) same
      ∙ view-set_cell i (variable n v) (state_at s st).vars st.variables fits (
          subst (λ k. i < k) (view-length st.variables _ fits)
            (found-Written n v (vars_of s st) i e).0)

  pushed-vars : vars_of s (push spare s n v st) ≡ vars_of s st ++ (variable n v ∷ [])
  unfolding push
  pushed-vars =
      ap (λ x. view (append spare (variable n v) (state_at s st).vars st.variables).1 x.vars)
        (state-put s _ st.states exists)
      ∙ view-append spare (variable n v) (state_at s st).vars st.variables fits

  set_found-Written :
      (o : Option ℕ)
      → find_index n (vars_of s st) ≡ o
      → Written n v (vars_of s st) (vars_of s (set_found spare s n v o st))
  set_found-Written none e =
      subst (Written n v (vars_of s st)) (sym pushed-vars) (behind-Written n v (vars_of s st))
  set_found-Written (some i) e =
      subst (Written n v (vars_of s st)) (sym (found-vars i e s refl))
        (found-Written n v (vars_of s st) i e).1

  -- In a state with its slice within its array.
  pub var_value-set_inside :
      (z : V) (m : Text)
      → text_eq n m ≡ false
      → (var_value z s n (set_var_value spare s n v st) ≡ v)
        × (var_value z s m (set_var_value spare s n v st) ≡ var_value z s m st)
  unfolding var_value set_var_value
  var_value-set_inside z m h =
      let w = set_found-Written (find_index n (vars_of s st)) refl in
      (ap (or_invalid z) w.here, ap (or_invalid z) (w.others m h))

  -- A state with the same slice sees the write to a variable that is there.
  pub shared-sees :
      (z : V) (t i : ℕ)
      → find_index n (vars_of s st) ≡ some i
      → (state_at t st).vars ≡ (state_at s st).vars
      → var_value z t n (set_var_value spare s n v st) ≡ v
  unfolding var_value set_var_value
  shared-sees z t i e same = rw e (
      ap (λ xs. or_invalid z (find_var n xs)) (found-vars i e t same)
      ∙ ap (or_invalid z) (found-Written n v (vars_of s st) i e).1.here)

  other_found :
      (t : ℕ) (o : Option ℕ)
      → t ≢ s
      → (state_at t st).vars.array < length st.variables
      → (state_at t st).vars.array ≢ (state_at s st).vars.array
      → vars_of t (set_found spare s n v o st) ≡ vars_of t st
  unfolding push set_cell
  other_found t none ne l h =
      ap
        (λ x.
          view (append spare (variable n v) (state_at s st).vars st.variables).1 (or_empty x).vars)
        (state-put_other s t _ st.states ne)
      ∙ view-append_other spare (variable n v) (state_at s st).vars (state_at t st).vars
          st.variables l h
  other_found t (some i) ne l h =
      view-set_other i (variable n v) (state_at s st).vars (state_at t st).vars st.variables h

  -- A state over another array keeps its variables.
  pub others-stay :
      (t : ℕ)
      → t ≢ s
      → (state_at t st).vars.array < length st.variables
      → (state_at t st).vars.array ≢ (state_at s st).vars.array
      → vars_of t (set_var_value spare s n v st) ≡ vars_of t st
  unfolding set_var_value
  others-stay t ne l h = other_found t (find_index n (vars_of s st)) ne l h
