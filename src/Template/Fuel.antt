-- ===== src/Template/Fuel.antt =====
-- More fuel does not change how a template runs (pugjs/tpl_exec.go).
use pugtemplate.Common.{
  Text, lit, ℕ, zero, suc, ◌==◌, ◌≤◌, arith, Option, none, some, length, ◌≡◌, ◌≢◌, refl, sym, inl,
  inr,
}
use pugtemplate.Template.Syntax.{Pipeline, Node, Nodes}
use pugtemplate.Template.State.{Store, Outcome, Panic, M, modify, gets, panic, with_world}
use pugtemplate.Template.Variables.{enter, state_at}
use pugtemplate.Template.Reflection.{Reflection}
use pugtemplate.Template.Eval.{eval_pipeline}
use pugtemplate.Template.Control.{max_exec_depth, declared, set_range_vars, push_all}
use pugtemplate.Template.Walk.{
  template_name, template_dot, enter_and_run, run_found, walk_template, walk, walk_list,
  run_template,
}
use pugtemplate.Template.Extends.{
  Extends, same-Extends, bind-Extends, then-Extends, if-Extends, range_over-Extends,
  try_catch-Extends, if_true-Extends,
}

module _ {V W C : Type 0} (r : Reflection V W C) where
  module _ (templates : Text → Option (Nodes C)) (run more : ℕ → V → Nodes C → M V W (Unit {0}))
      (runs : (s : ℕ) (dot : V) (root : Nodes C) → Extends (run s dot root) (more s dot root)) where
    entered-Extends :
        (s : ℕ) (n : Text) (root : Nodes C) (v : V)
        → Extends
            (enter_and_run r templates run s n root v)
            (enter_and_run r templates more s n root v)
    entered-Extends s n root v =
        then-Extends (gets λ st. length st.states)
          λ new. then-Extends (modify (enter s n)) λ u. runs new v root

    run_found-Extends :
        (s : ℕ) (dot : V) (n : Text) (p : Option (Pipeline C)) (o : Option (Nodes C))
        → Extends (run_found r templates run s dot n p o) (run_found r templates more s dot n p o)
    run_found-Extends s dot n p none = same-Extends _
    run_found-Extends s dot n p (some root) =
        then-Extends (gets λ st. (state_at s st).depth == max_exec_depth) λ deep.
          if-Extends deep (panic (Panic.exec_error (lit "exceeded maximum template depth (%v)")))
            (then-Extends (template_dot r templates run s dot p) (entered-Extends s n root))

    walk_template-Extends :
        (s : ℕ) (dot : V) (n : Text) (p : Option (Pipeline C))
        → Extends
            (walk_template r templates run s dot n p)
            (walk_template r templates more s dot n p)
    unfolding walk_template
    walk_template-Extends s dot n p =
        then-Extends (template_name r templates run s n)
          λ m. run_found-Extends s dot m p (templates m)

    mutual
      unfolding walk

      walk-Extends :
          (s : ℕ) (dot : V) (n : Node C)
          → Extends (walk r templates run s dot n) (walk r templates more s dot n)
      walk-Extends s dot (Node.action p) = same-Extends _
      walk-Extends s dot (Node.if_else p ns ms) =
          then-Extends (eval_pipeline r s dot p) λ v.
            if_true-Extends r v _ _ _ _ (walk_list-Extends s dot ns) (walk_list-Extends s dot ms)
      walk-Extends s dot (Node.with_else p ns ms) =
          then-Extends (eval_pipeline r s dot p)
            λ v. if_true-Extends r v _ _ _ _ (walk_list-Extends s v ns) (walk_list-Extends s dot ms)
      walk-Extends s dot (Node.range p ns ms) = then-Extends (push_all r s (declared p)) λ u.
          then-Extends (eval_pipeline r s dot p) λ v. then-Extends (with_world (r.ranged v)) λ x.
            range_over-Extends r _ _
              (λ index elem.
                then-Extends (set_range_vars r s (declared p) index elem)
                  λ w. walk_list-Extends s elem ns)
              (eval_pipeline r s dot p) _ _ x (walk_list-Extends s dot ms)
      walk-Extends s dot (Node.list ns) = walk_list-Extends s dot ns
      walk-Extends s dot (Node.template n p) = walk_template-Extends s dot n p
      walk-Extends s dot (Node.text t) = same-Extends _
      walk-Extends s dot (Node.try ns x ms) =
          try_catch-Extends r s x _ _ _ _ (walk_list-Extends s dot ns) (walk_list-Extends s dot ms)

      walk_list-Extends :
          (s : ℕ) (dot : V) (ns : Nodes C)
          → Extends (walk_list r templates run s dot ns) (walk_list r templates more s dot ns)
      walk_list-Extends s dot Nodes.end = same-Extends _
      walk_list-Extends s dot (Nodes.node n ns) =
          bind-Extends (walk-Extends s dot n) λ u. walk_list-Extends s dot ns

  run_template-Extends :
      (templates : Text → Option (Nodes C)) (fuel larger s : ℕ) (dot : V) (root : Nodes C)
      → fuel ≤ larger
      → Extends
          (run_template r templates fuel s dot root)
          (run_template r templates larger s dot root)
  unfolding run_template
  run_template-Extends templates zero larger s dot root h = record { run = λ st. inl refl }
  run_template-Extends templates (suc fuel) zero s dot root h = absurd (ground (arith, h))
  run_template-Extends templates (suc fuel) (suc larger) s dot root h = record {
    run = λ st.
        (walk_list-Extends templates (run_template r templates fuel)
            (run_template r templates larger)
            (λ t v ns. run_template-Extends templates fuel larger t v ns (omega (arith, h))) s dot
            root).run
          st;
  }

  -- A template that runs with some fuel, so that it returns or panics, runs the same with more.
  pub run_template-more_fuel :
      (templates : Text → Option (Nodes C)) (fuel larger s : ℕ) (dot : V) (root : Nodes C)
      (st : Store V W)
      → fuel ≤ larger
      → run_template r templates fuel s dot root st ≢ Outcome.out_of_fuel
      → run_template r templates larger s dot root st ≡ run_template r templates fuel s dot root st
  run_template-more_fuel templates fuel larger s dot root st h ends =
      elim ((run_template-Extends templates fuel larger s dot root h).run st) [
        | inl e ↦ absurd (ends e)
        | inr e ↦ sym e
      ]
