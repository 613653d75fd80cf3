-- ===== src/Template/Output.antt =====
-- What a template has written stays written (pugjs/tpl_exec.go).
use pugtemplate.Common.{
  Text, ℕ, zero, suc, ◌≤◌, [], ◌++◌, append_assoc, append-nil, Option, length, ◌≡◌, refl, sym, ap,
  ◌∙◌, arith,
}
use pugtemplate.Template.Syntax.{Nodes}
use pugtemplate.Template.AllNames.{nodes_names}
use pugtemplate.Template.State.{Store}
use pugtemplate.Template.Variables.{enter}
use pugtemplate.Template.Reflection.{Reflection}
use pugtemplate.Template.Walk.{run_template}
use pugtemplate.Template.Effects.{
  Grown, Changed-Grown, push-Changed, set_var_value-Changed, freeze-Grown, enter-adds,
}
use pugtemplate.Template.Frame.{After, Frame, after-After}
use pugtemplate.Template.Frame.Walk.{walk_list-Keeps}

-- The output goes on, and no state is lost.
pub record Continues {V W : Type 0} (a b : Store V W) : Type 0 where
  pub states : length a.states ≤ length b.states
  pub more : Text
  pub output : b.output ≡ a.output ++ more

module _ {V W : Type 0} where
  Continues-refl : (a : Store V W) → Continues a a
  Continues-refl a = record { states = omega arith; more = []; output = sym (append-nil a.output) }

  Continues-trans : (a b c : Store V W) → Continues a b → Continues b c → Continues a c
  Continues-trans a b c h k = record {
    states = omega (arith, h.states, k.states);
    more = h.more ++ k.more;
    output = k.output ∙ ap (λ t. t ++ k.more) h.output ∙ append_assoc a.output h.more k.more;
  }

  Grown-Continues : (a b : Store V W) → Grown a b → Continues a b
  Grown-Continues a b h = record {
    states = h.states;
    more = [];
    output = h.output ∙ sym (append-nil a.output);
  }

module _ {V W C : Type 0} (r : Reflection V W C) where
  output_frame : Frame r
  output_frame = record {
    U = Unit;
    P = λ s st. Unit;
    R = Continues;
    Ok = λ n. Unit;
    same = Continues-refl;
    trans = Continues-trans;
    keep = λ s a b p h. tt;
    worlds =
        λ st w. record { states = omega arith; more = []; output = sym (append-nil st.output) };
    outputs = λ st t. record { states = omega arith; more = t; output = refl };
    sets =
        λ s n v st p. Grown-Continues st _ (Changed-Grown (set_var_value-Changed r.spare s n v st));
    pushes = λ s n v st p. Grown-Continues st _ (Changed-Grown (push-Changed r.spare s n v st));
    freezes = λ s n st ok p. Grown-Continues st _ (freeze-Grown r.spare s n st);
  }

  enter-Continues : (s : ℕ) (n : Text) (st : Store V W) → Continues st (enter s n st)
  enter-Continues s n st =
      let (count, same) = enter-adds s n st in
      record {
        states = omega (arith, count);
        more = [];
        output = same ∙ sym (append-nil st.output);
      }

  -- After the run of a template the output is the one before with something behind it, and no state
  -- is lost, whether the run returns or panics; nothing is said of a run out of fuel.
  pub run_template-Continues :
      (templates : Text → Option (Nodes C)) (fuel s : ℕ) (dot : V) (root : Nodes C) (st : Store V W)
      → After Unit Continues st (run_template r templates fuel s dot root st)
  unfolding run_template output_frame
  run_template-Continues templates zero s dot root st = tt
  run_template-Continues templates (suc fuel) s dot root st =
      (walk_list-Keeps output_frame s templates (run_template r templates fuel)
          (λ n body v before now e p deep q.
            after-After output_frame now (enter s n now) _ (enter-Continues s n now)
              (run_template-Continues templates fuel (length now.states) v body (enter s n now)))
          dot root (nodes_names root)).run
        st tt
