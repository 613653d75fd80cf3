-- ===== src/Template/Valid.antt =====
-- The store of an execution stays in order (pugjs/tpl_exec.go): slices lie within their arrays, and
-- blocks are bound to states that are there.
use pugtemplate.Common.{
  Text, ℕ, ◌<◌, List, [], ◌∷◌, ◌++◌, Option, none, some, length, All, ◌≡◌, refl, sym, subst, arith,
  length-append,
}
use pugtemplate.Template.Slices.{Slice, Array, view, make_copy, Fits}
use pugtemplate.Template.Writes.{view-length}
use pugtemplate.Template.Fitting.{append-Fits, remove-Fits, set_cell-Fits, before-Fits, last-Fits}
use pugtemplate.Template.Cells.{Everywhere, append-Everywhere, remove-Everywhere, All-take}
use pugtemplate.Template.State.{State, Store, Variable, BoundBlock}
use pugtemplate.Template.Variables.{
  state_at, put_state, vars_of, blocks_of, find_index, find_block, push, set_found, set_var_value,
  freeze, enter, enter_found,
}
use pugtemplate.Template.Scoping.{found-Written}
use pugtemplate.Template.Effects.{length-put_state}
use pugtemplate.Template.Places.{BoundBelow, put-all, last-all, below_mono, found-In}

pub record IsValid {V W : Type 0} (st : Store V W) : Type 0 where
  pub vars : (i : ℕ) → i < length st.states → Fits st.variables (state_at i st).vars
  pub bound : (i : ℕ) → i < length st.states → Fits st.blocks (state_at i st).bound_blocks
  pub scopes : Everywhere (BoundBelow (length st.states)) st.blocks

module _ {V W : Type 0} where
  -- A state is changed, with the arrays.
  put-IsValid :
      (st : Store V W) (s : ℕ) (x : State V) (vs : List (Array (Variable V)))
      (bs : List (Array BoundBlock))
      → IsValid st
      → Fits vs x.vars
      → ((t : Slice) → Fits st.variables t → Fits vs t)
      → Fits bs x.bound_blocks
      → ((t : Slice) → Fits st.blocks t → Fits bs t)
      → Everywhere (BoundBelow (length st.states)) bs
      → IsValid (record st { states = put_state s x st.states; variables = vs; blocks = bs })
  put-IsValid st s x vs bs h new old bound olds scopes =
      let same = length-put_state s x st.states in
      record {
        vars = λ i k.
            put-all (λ y. Fits vs y.vars) s x st.states new (λ j m. old _ (h.vars j m)) i
              (subst (λ c. i < c) same k);
        bound = λ i k.
            put-all (λ y. Fits bs y.bound_blocks) s x st.states bound (λ j m. olds _ (h.bound j m))
              i (subst (λ c. i < c) same k);
        scopes = subst (λ c. Everywhere (BoundBelow c) bs) (sym same) scopes;
      }

  -- A state is added.
  add-IsValid :
      (st : Store V W) (x : State V) (vs : List (Array (Variable V)))
      → IsValid st
      → Fits vs x.vars
      → ((t : Slice) → Fits st.variables t → Fits vs t)
      → Fits st.blocks x.bound_blocks
      → IsValid (record st { states = st.states ++ (x ∷ []); variables = vs })
  add-IsValid st x vs h new old bound =
      let count = length-append st.states (x ∷ []) in
      record {
        vars = λ i k.
            last-all (λ y. Fits vs y.vars) st.states x new (λ j m. old _ (h.vars j m)) i
              (omega (arith, k, count));
        bound = λ i k.
            last-all (λ y. Fits st.blocks y.bound_blocks) st.states x bound h.bound i
              (omega (arith, k, count));
        scopes = λ j. below_mono (length st.states) _ _ (omega (arith, count)) (h.scopes j);
      }

  pub push-IsValid :
      (spare : ℕ → ℕ) (s : ℕ) (n : Text) (v : V) (st : Store V W)
      → s < length st.states
      → IsValid st
      → IsValid (push spare s n v st)
  unfolding push
  push-IsValid spare s n v st l h =
      let (new, old) =
        append-Fits spare (record { name = n; value = v }) (state_at s st).vars st.variables
          (h.vars s l) in
      put-IsValid st s _ _ st.blocks h new old (h.bound s l) (λ t k. k) h.scopes

  set_found-IsValid :
      (spare : ℕ → ℕ) (s : ℕ) (n : Text) (v : V) (st : Store V W) (o : Option ℕ)
      → find_index n (vars_of s st) ≡ o
      → s < length st.states
      → IsValid st
      → IsValid (set_found spare s n v o st)
  set_found-IsValid spare s n v st none e l h = push-IsValid spare s n v st l h
  set_found-IsValid spare s n v st (some i) e l h = record {
    vars = λ t k.
        set_cell-Fits i _ (state_at s st).vars (state_at t st).vars st.variables inside (h.vars s l)
          (h.vars t k);
    bound = h.bound;
    scopes = h.scopes;
  }
    where
      inside : i < (state_at s st).vars.len
      inside =
          subst (λ k. i < k) (view-length st.variables (state_at s st).vars (h.vars s l))
            (found-Written n v (vars_of s st) i e).0

  pub set_var_value-IsValid :
      (spare : ℕ → ℕ) (s : ℕ) (n : Text) (v : V) (st : Store V W)
      → s < length st.states
      → IsValid st
      → IsValid (set_var_value spare s n v st)
  unfolding set_var_value
  set_var_value-IsValid spare s n v st l h =
      set_found-IsValid spare s n v st (find_index n (vars_of s st)) refl l h

  pub freeze-IsValid :
      (spare : ℕ → ℕ) (s : ℕ) (n : Text) (st : Store V W)
      → s < length st.states
      → IsValid st
      → IsValid (freeze spare s n st)
  unfolding freeze
  freeze-IsValid spare s n st l h =
      let (new, old) =
        append-Fits spare (record { name = n; scope = s }) (state_at s st).bound_blocks st.blocks
          (h.bound s l) in
      put-IsValid st s _ st.variables _ h (h.vars s l) (λ t k. k) new old
        (append-Everywhere (BoundBelow (length st.states)) spare (record { name = n; scope = s })
          (state_at s st).bound_blocks st.blocks l h.scopes)

  -- The blocks that a state sees are bound to states that are there.
  pub bound-scopes :
      (s : ℕ) (st : Store V W) → IsValid st → All (BoundBelow (length st.states)) (blocks_of s st)
  unfolding view
  bound-scopes s st h =
      All-take (BoundBelow (length st.states)) (state_at s st).bound_blocks.len _
        (h.scopes (state_at s st).bound_blocks.array)

  enter_found-IsValid :
      (s : ℕ) (n : Text) (o : Option (ℕ × ℕ)) (st : Store V W)
      → find_block n (blocks_of s st) ≡ o
      → s < length st.states
      → IsValid st
      → IsValid (enter_found s o st)
  unfolding make_copy view
  enter_found-IsValid s n none st e l h =
      add-IsValid st _ _ h
        (last-Fits st.variables
          (record { cells = (state_at s st).globals; cap = length (state_at s st).globals })
          (length (state_at s st).globals) (omega arith) (omega arith))
        (before-Fits st.variables _) (h.bound s l)
  enter_found-IsValid s n (some (i, scope)) st e l h =
      let (inside, below) =
        found-In (length st.states) n (blocks_of s st) i scope (bound-scopes s st h) e in
      let (new, old) =
        remove-Fits i (state_at s st).bound_blocks st.blocks
          (subst (λ k. i < k) (view-length st.blocks _ (h.bound s l)) inside) (h.bound s l) in
      add-IsValid _ _ st.variables
        (put-IsValid st s _ st.variables _ h (h.vars s l) (λ t k. k) new old
          (remove-Everywhere (BoundBelow (length st.states)) i (state_at s st).bound_blocks
            st.blocks h.scopes))
        (h.vars scope below) (λ t k. k) (old _ (h.bound scope below))

  pub enter-IsValid :
      (s : ℕ) (n : Text) (st : Store V W)
      → s < length st.states
      → IsValid st
      → IsValid (enter s n st)
  unfolding enter
  enter-IsValid s n st l h = enter_found-IsValid s n (find_block n (blocks_of s st)) st refl l h
