-- ===== src/Template/Consistent.antt =====
-- The execution of a template leaves its store in order (pugjs/tpl_exec.go).
use pugtemplate.Common.{
  Text, ℕ, zero, suc, ◌≤◌, ◌<◌, List, [], ◌∷◌, Option, none, some, length, arith,
}
use pugtemplate.Template.Syntax.{Nodes}
use pugtemplate.Template.AllNames.{nodes_names}
use pugtemplate.Template.State.{Store, Variable, Outcome}
use pugtemplate.Template.Slices.{Fits}
use pugtemplate.Template.Cells.{Everywhere}
use pugtemplate.Template.Variables.{enter, state_at}
use pugtemplate.Template.Reflection.{Reflection}
use pugtemplate.Template.Walk.{run_template}
use pugtemplate.Template.Execute.{Data, globals_of, first_store, push_globals, start_store, execute}
use pugtemplate.Template.Effects.{
  Grown, Changed-Grown, push-Changed, set_var_value-Changed, freeze-Grown, enter-adds,
}
use pugtemplate.Template.Places.{BoundBelow}
use pugtemplate.Template.Valid.{
  IsValid, push-IsValid, set_var_value-IsValid, freeze-IsValid, enter-IsValid,
}
use pugtemplate.Template.Frame.{After, Frame, after-After}
use pugtemplate.Template.Frame.Walk.{walk_list-Keeps}

-- The store that a run leaves, whether it returns or panics.
abbrev pub Leaves : {V W A : Type 0} → (Store V W → Type 0) → Outcome V W A → Type 0
Leaves Q (Outcome.returned st a) = Q st
Leaves Q (Outcome.panicked st p) = Q st
Leaves Q Outcome.out_of_fuel = Unit

-- No state is lost, and the store stays in order.
record Ordered {V W : Type 0} (a b : Store V W) : Type 0 where
  pub states : length a.states ≤ length b.states
  pub valid : IsValid a → IsValid b

record Present {V W : Type 0} (s : ℕ) (st : Store V W) : Type 0 where
  pub exists : s < length st.states
  pub valid : IsValid st

module _ {V W : Type 0} where
  Grown-Ordered : (a b : Store V W) → Grown a b → (IsValid a → IsValid b) → Ordered a b
  Grown-Ordered a b h k = record { states = h.states; valid = k }

  same-IsValid :
      (st : Store V W) (w : W) (t : Text)
      → IsValid st
      → IsValid (record st { world = w; output = t })
  same-IsValid st w t h = record { vars = h.vars; bound = h.bound; scopes = h.scopes }

module _ {V W C : Type 0} (r : Reflection V W C) where
  order_frame : Frame r
  order_frame = record {
    U = Unit;
    P = Present;
    R = Ordered;
    Ok = λ n. Unit;
    same = λ st. record { states = omega arith; valid = λ h. h };
    trans = λ a b c h k. record {
      states = omega (arith, h.states, k.states);
      valid = λ v. k.valid (h.valid v);
    };
    keep =
        λ s a b p h. record { exists = omega (arith, p.exists, h.states); valid = h.valid p.valid };
    worlds = λ st w. record { states = omega arith; valid = same-IsValid st w st.output };
    outputs = λ st t. record { states = omega arith; valid = same-IsValid st st.world _ };
    sets = λ s n v st p.
        Grown-Ordered st _ (Changed-Grown (set_var_value-Changed r.spare s n v st))
          (set_var_value-IsValid r.spare s n v st p.exists);
    pushes = λ s n v st p.
        Grown-Ordered st _ (Changed-Grown (push-Changed r.spare s n v st))
          (push-IsValid r.spare s n v st p.exists);
    freezes = λ s n st ok p.
        Grown-Ordered st _ (freeze-Grown r.spare s n st) (freeze-IsValid r.spare s n st p.exists);
  }

  run_template-Ordered :
      (templates : Text → Option (Nodes C)) (fuel s : ℕ) (dot : V) (root : Nodes C) (st : Store V W)
      → Present s st
      → After Unit Ordered st (run_template r templates fuel s dot root st)
  unfolding run_template order_frame
  run_template-Ordered templates zero s dot root st p = tt
  run_template-Ordered templates (suc fuel) s dot root st p =
      (walk_list-Keeps order_frame s templates (run_template r templates fuel)
          (λ n body v before now e q deep k.
            let (count, same) = enter-adds s n now in
            after-After order_frame now (enter s n now) _
              (record { states = omega (arith, count); valid = enter-IsValid s n now k.exists })
              (run_template-Ordered templates fuel (length now.states) v body (enter s n now)
                (record {
                  exists = omega (arith, count);
                  valid = enter-IsValid s n now k.exists k.valid;
                })))
          dot root (nodes_names root)).run
        st p

  pub first-IsValid :
      (v : V) (globals : List (Variable V)) (w : W) → IsValid (first_store r v globals w)
  unfolding first_store
  first-IsValid v globals w = record { vars = vars; bound = bound; scopes = scopes }
    where
      first : Store V W
      first = first_store r v globals w

      vars : (i : ℕ) → i < 1 → Fits first.variables (state_at i first).vars
      vars zero k = (omega arith, omega arith, omega arith)
      vars (suc i) k = absurd (ground (arith, k))

      bound : (i : ℕ) → i < 1 → Fits first.blocks (state_at i first).bound_blocks
      bound zero k = (omega arith, omega arith, omega arith)
      bound (suc i) k = absurd (ground (arith, k))

      scopes : Everywhere (BoundBelow 1) first.blocks
      scopes zero = tt
      scopes (suc j) = tt

  one_state :
      (v : V) (globals : List (Variable V)) (w : W) → 0 < length (first_store r v globals w).states
  unfolding first_store
  one_state v globals w = omega arith

  globals-Present :
      (xs : List (Variable V)) (st : Store V W) → Present 0 st → Present 0 (push_globals r xs st)
  unfolding push_globals
  globals-Present [] st h = h
  globals-Present (x ∷ xs) st h = globals-Present xs _ (record {
    exists = omega (arith, h.exists, (push-Changed r.spare 0 x.name x.value st).grows);
    valid = push-IsValid r.spare 0 x.name x.value st h.exists h.valid;
  })

  Ordered-Leaves :
      (st : Store V W) (o : Outcome V W (Unit {0}))
      → IsValid st
      → After Unit Ordered st o
      → Leaves IsValid o
  Ordered-Leaves st (Outcome.returned st' a) v h = h.valid v
  Ordered-Leaves st (Outcome.panicked st' p) v h = h.valid v
  Ordered-Leaves st Outcome.out_of_fuel v h = tt

  -- The execution of a template, when it returns or panics, leaves a store in which every slice of
  -- variables and of blocks lies within its array, every array within its room, and every block is
  -- bound to a state that is there, whatever the templates and the functions do.
  pub execute-IsValid :
      (lower_first : Text → Text) (templates : Text → Option (Nodes C)) (fuel : ℕ)
      (root : Option (Nodes C)) (d : Data V) (w : W)
      → Leaves IsValid (execute r lower_first templates fuel root d w)
  unfolding execute
  execute-IsValid lower_first templates fuel none d w = first-IsValid d.value [] w
  execute-IsValid lower_first templates fuel (some root) d w =
      let start =
        globals-Present (globals_of lower_first d)
          (first_store r d.value (globals_of lower_first d) w)
          (record {
            exists = one_state d.value (globals_of lower_first d) w;
            valid = first-IsValid d.value (globals_of lower_first d) w;
          }) in
      Ordered-Leaves (start_store r lower_first d w) _ start.valid
        (run_template-Ordered templates fuel 0 d.value root (start_store r lower_first d w) start)
