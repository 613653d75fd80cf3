-- ===== src/Template/Binding.antt =====
-- A block that is bound by `__freeze` and then called (pugjs/tpl_exec.go).
use pugtemplate.Common.{
  Text, text_eq_refl, ℕ, suc, ◌-◌, ◌<◌, List, [], ◌∷◌, ◌++◌, some, length, length-append, get_elem?,
  take, take-append, take-take, length-take, ◌≡◌, refl, sym, ap, ◌∙◌, subst, arith,
}
use pugtemplate.Template.Slices.{Slice, Array, view, append, remove, cells_of, without, Fits}
use pugtemplate.Template.Views.{get_elem?-before, cells-change_array}
use pugtemplate.Template.Writes.{view-append, view-length}
use pugtemplate.Template.Fitting.{append-Fits}
use pugtemplate.Template.State.{BoundBlock, State, Store}
use pugtemplate.Template.Variables.{
  state_at, put_state, or_empty, vars_of, blocks_of, find_block, or_block, freeze, enter,
  enter_found,
}
use pugtemplate.Template.Effects.{length-put_state}
use pugtemplate.Template.Aliases.{state-put}
use pugtemplate.Template.Blocks.{bound_vars, vars-put}
use pugtemplate.Template.Valid.{IsValid}

-- The block that was added last is found first.
find_block-last :
    (n : Text) (scope : ℕ) (bs : List BoundBlock)
    → find_block n (bs ++ (record { name = n; scope = scope } ∷ [])) ≡ some (length bs, scope)
unfolding find_block
find_block-last n scope [] = rw (text_eq_refl n) refl
find_block-last n scope (b ∷ bs) = ap (or_block n b) (find_block-last n scope bs)

module _ {A : Type 0} where
  take-shorter : (n k : ℕ) (xs : List A) → n ≡ suc k → take k (take n xs) ≡ take k xs
  take-shorter n k xs e = ap (λ m. take k (take m xs)) e ∙ take-take k xs

  -- Without its last element a slice shows the elements before.
  view-remove_last :
      (k : ℕ) (s : Slice) (arrays : List (Array A))
      → Fits arrays s
      → s.len ≡ suc k
      → view (remove k s arrays).1 (remove k s arrays).0 ≡ take k (view arrays s)
  unfolding view remove
  view-remove_last k s arrays h e =
      let cells = cells_of (get_elem? arrays s.array) in
      ap (take (s.len - 1)) (cells-change_array s.array (without k s.len) arrays h.0).0
      ∙ ap (λ m. take m (without k s.len cells)) (omega (arith, e))
      ∙ take-append k (take k cells) _ (omega (arith, length-take k cells, h.1, e))
      ∙ sym (take-shorter s.len k cells e)

module _ {V W : Type 0} (spare : ℕ → ℕ) (s : ℕ) (n : Text) (st : Store V W) (valid : IsValid st)
    (exists : s < length st.states) where
  abbrev block : BoundBlock
  block = record { name = n; scope = s }

  abbrev frozen : Store V W
  frozen = freeze spare s n st

  abbrev grown : Slice × List (Array BoundBlock)
  grown = append spare block (state_at s st).bound_blocks st.blocks

  -- The state that binds, after it has bound.
  binder : state_at s frozen ≡ record (state_at s st) { bound_blocks = grown.0 }
  unfolding freeze
  binder = state-put s _ st.states exists

  blocks-freeze : blocks_of s frozen ≡ blocks_of s st ++ (block ∷ [])
  unfolding freeze
  blocks-freeze =
      ap (λ x. view grown.1 x.bound_blocks) binder
      ∙ view-append spare block (state_at s st).bound_blocks st.blocks (valid.bound s exists)

  found-freeze : find_block n (blocks_of s frozen) ≡ some (length (blocks_of s st), s)
  found-freeze = ap (find_block n) blocks-freeze ∙ find_block-last n s (blocks_of s st)

  count-freeze : length frozen.states ≡ length st.states
  unfolding freeze
  count-freeze = length-put_state s _ st.states

  abbrev called : Store V W
  called = enter_found s (some (length (blocks_of s st), s)) frozen

  called_vars : vars_of (length st.states) called ≡ vars_of s st
  unfolding freeze
  called_vars =
      subst (λ c. vars_of c called ≡ vars_of s frozen) count-freeze
        (bound_vars s (length (blocks_of s st)) s frozen)
      ∙ ap (view st.variables) (vars-put s s _ st.states refl)

  abbrev bound_slice : Slice
  bound_slice = (state_at s frozen).bound_blocks

  bound_slice-Fits : Fits frozen.blocks bound_slice
  unfolding freeze
  bound_slice-Fits =
      subst (λ x. Fits grown.1 x.bound_blocks) (sym binder)
        (append-Fits spare block (state_at s st).bound_blocks st.blocks (valid.bound s exists)).0

  length-bound_slice : bound_slice.len ≡ suc (length (blocks_of s st))
  length-bound_slice = omega (
    arith,
    view-length frozen.blocks bound_slice bound_slice-Fits,
    ap length blocks-freeze,
    length-append (blocks_of s st) (block ∷ []),
  )

  caller : State V
  caller = record (state_at s frozen) {
    bound_blocks = (remove (length (blocks_of s st)) bound_slice frozen.blocks).0;
  }

  caller-called : state_at s called ≡ caller
  unfolding caller
  caller-called =
      ap or_empty (
        get_elem?-before (put_state s caller frozen.states) _ s
          (omega (arith, exists, count-freeze, length-put_state s caller frozen.states)))
      ∙ state-put s caller frozen.states (omega (arith, exists, count-freeze))

  -- The caller's list of blocks is as it was before the block was bound.
  called_blocks : blocks_of s called ≡ blocks_of s st
  unfolding caller
  called_blocks =
      ap (λ x. view called.blocks x.bound_blocks) caller-called
      ∙ view-remove_last (length (blocks_of s st)) bound_slice frozen.blocks bound_slice-Fits
          length-bound_slice
      ∙ ap (take (length (blocks_of s st))) blocks-freeze
      ∙ take-append (length (blocks_of s st)) (blocks_of s st) (block ∷ []) refl

  -- In a store that is in order, a block that a state binds and calls next sees the variables of
  -- that state, whichever blocks of the same name the state had bound before, and then the state
  -- has the blocks that it had before it bound this one.
  pub enter-freeze :
      (vars_of (length st.states) (enter s n (freeze spare s n st)) ≡ vars_of s st)
      × (blocks_of s (enter s n (freeze spare s n st)) ≡ blocks_of s st)
  unfolding enter
  enter-freeze = rw found-freeze (called_vars, called_blocks)
