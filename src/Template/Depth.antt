-- ===== src/Template/Depth.antt =====
-- The depth of nested templates, where no blocks are bound (pugjs/tpl_exec.go).
use pugtemplate.Common.{
  Text, lit, ℕ, zero, suc, ◌+◌, ◌≤◌, ◌<◌, ◌==◌, List, [], ◌∷◌, ◌++◌, Option, none, some, length,
  length-append, take, get_elem?, ◌≡◌, ◌≢◌, refl, ap, ◌∙◌, arith, false,
}
use pugtemplate.Template.Slices.{view, cells_of, make_copy}
use pugtemplate.Template.Syntax.{Nodes}
use pugtemplate.Template.Names.{NodesOk}
use pugtemplate.Template.State.{Store, State}
use pugtemplate.Template.Variables.{enter, enter_found, state_at, or_empty, blocks_of, find_block}
use pugtemplate.Template.Views.{get_elem?-before, get_elem?-at}
use pugtemplate.Template.Reflection.{Reflection}
use pugtemplate.Template.Control.{max_exec_depth}
use pugtemplate.Template.Walk.{run_template}
use pugtemplate.Template.Effects.{Changed, push-Changed, set_var_value-Changed}
use pugtemplate.Template.Frame.{After, Frame, after-After}
use pugtemplate.Template.Frame.Walk.{walk_list-Keeps}

-- No block is bound, to any state.
abbrev pub NoBlocks : {V W : Type 0} → Store V W → Type 0
NoBlocks st = (i : ℕ) → (state_at i st).bound_blocks.len ≡ 0

-- A name that does not bind a block.
abbrev pub BindsNone : Text → Type 0
BindsNone n = n ≢ lit "__freeze"

shallow_lt :
    (k d : ℕ) → k ≡ d → (k == max_exec_depth) ≡ false → d ≤ max_exec_depth → suc d ≤ max_exec_depth
shallow_lt k d e shallow deep = ground (arith, e, shallow, deep)

-- The states that are there keep their depths, and no block is bound.
pub record Unbound {V W : Type 0} (a b : Store V W) : Type 0 where
  pub states : length a.states ≤ length b.states
  pub depths : (i : ℕ) → i < length a.states → (state_at i b).depth ≡ (state_at i a).depth
  pub none_bound : NoBlocks a → NoBlocks b

-- A state at a depth.
pub record At {V W : Type 0} (d s : ℕ) (st : Store V W) : Type 0 where
  pub exists : s < length st.states
  pub depth : (state_at s st).depth ≡ d
  pub none_bound : NoBlocks st

module _ {V : Type 0} where
  length_le-append : (xs ys : List (State V)) → length xs ≤ length (xs ++ ys)
  length_le-append xs ys = omega (arith, length-append xs ys)

  length_lt-append : (xs : List (State V)) (x : State V) → length xs < length (xs ++ (x ∷ []))
  length_lt-append xs x = omega (arith, length-append xs (x ∷ []))

  -- A state behind the others.
  behind :
      (xs : List (State V)) (x : State V) (i : ℕ)
      → (or_empty (get_elem? xs i)).bound_blocks.len ≡ 0
      → x.bound_blocks.len ≡ 0
      → (or_empty (get_elem? (xs ++ (x ∷ [])) i)).bound_blocks.len ≡ 0
  behind [] x zero h k = k
  behind [] x (suc i) h k = refl
  behind (y ∷ xs) x zero h k = h
  behind (y ∷ xs) x (suc i) h k = behind xs x i h k

module _ {V W : Type 0} where
  Unbound-trans : (a b c : Store V W) → Unbound a b → Unbound b c → Unbound a c
  Unbound-trans a b c h k = record {
    states = omega (arith, h.states, k.states);
    depths = λ i l. k.depths i (omega (arith, l, h.states)) ∙ h.depths i l;
    none_bound = λ n. k.none_bound (h.none_bound n);
  }

  Unbound-same : (a b : Store V W) → b.states ≡ a.states → Unbound a b
  Unbound-same a b e = record {
    states = rw e (omega arith);
    depths = λ i l. rw e refl;
    none_bound = λ n i. rw e (n i);
  }

  pub Changed-Unbound : (a b : Store V W) → Changed a b → Unbound a b
  Changed-Unbound a b h = record {
    states = h.grows;
    depths = λ i l. (h.similar i).depth;
    none_bound = λ n i. ap (λ b. b.len) (h.similar i).bound_blocks ∙ n i;
  }

  pub At-Unbound : (d s : ℕ) (a b : Store V W) → At d s a → Unbound a b → At d s b
  At-Unbound d s a b h k = record {
    exists = omega (arith, h.exists, k.states);
    depth = k.depths s h.exists ∙ h.depth;
    none_bound = k.none_bound h.none_bound;
  }

  unbound_list : (s : ℕ) (st : Store V W) → NoBlocks st → blocks_of s st ≡ []
  unfolding view
  unbound_list s st h =
      ap (λ k. take k (cells_of (get_elem? st.blocks (state_at s st).bound_blocks.array))) (h s)

  -- Without blocks, a template is entered one level deeper.
  entered-At :
      (d s : ℕ) (n : Text) (st : Store V W)
      → At d s st
      → Unbound st (enter s n st) × At (suc d) (length st.states) (enter s n st)
  unfolding enter find_block make_copy
  entered-At d s n st h = rw (unbound_list s st h.none_bound) (grown, new)
    where
      grown : Unbound st (enter_found s none st)
      grown = record {
        states = length_le-append st.states _;
        depths = λ i l. ap (λ x. (or_empty x).depth) (get_elem?-before st.states _ i l);
        none_bound = λ k i. behind st.states _ i (k i) (k s);
      }

      new : At (suc d) (length st.states) (enter_found s none st)
      new = record {
        exists = length_lt-append st.states _;
        depth = ap (λ x. (or_empty x).depth) (get_elem?-at st.states _) ∙ ap suc h.depth;
        none_bound = grown.none_bound h.none_bound;
      }

module _ {V W C : Type 0} (r : Reflection V W C) where
  depth_frame : ℕ → Frame r
  depth_frame d = record {
    U = ⊥;
    P = At d;
    R = Unbound;
    Ok = BindsNone;
    same = λ st. Unbound-same st st refl;
    trans = Unbound-trans;
    keep = At-Unbound d;
    worlds = λ st w. Unbound-same st _ refl;
    outputs = λ st t. Unbound-same st _ refl;
    sets = λ s n v st p. Changed-Unbound st _ (set_var_value-Changed r.spare s n v st);
    pushes = λ s n v st p. Changed-Unbound st _ (push-Changed r.spare s n v st);
    freezes = λ s n st ok p. absurd (ok refl);
  }

  module _ (templates : Text → Option (Nodes C))
      (unbinding : (n : Text) (ns : Nodes C) → templates n ≡ some ns → NodesOk BindsNone ns) where
    pub levels-End :
        (fuel d s : ℕ) (dot : V) (root : Nodes C) (st : Store V W)
        → NodesOk BindsNone root
        → max_exec_depth < d + fuel
        → d ≤ max_exec_depth
        → At d s st
        → After ⊥ Unbound st (run_template r templates fuel s dot root st)
    unfolding run_template depth_frame
    levels-End zero d s dot root st ok more deep h = absurd (ground (arith, more, deep))
    levels-End (suc fuel) d s dot root st ok more deep h =
        (walk_list-Keeps (depth_frame d) s templates (run_template r templates fuel)
            (λ n body v before now e p shallow q.
              let (grown, new) = entered-At d s n now q in
              after-After (depth_frame d) now (enter s n now) _ grown (
                levels-End fuel (suc d) (length now.states) v body (enter s n now)
                  (unbinding n body e) (omega (arith, more)) (below p shallow) new))
            dot root ok).run
          st h
      where
        below :
            {before : Store V W}
            → At d s before
            → ((state_at s before).depth == max_exec_depth) ≡ false
            → suc d ≤ max_exec_depth
        below p shallow = shallow_lt _ d p.depth shallow deep
