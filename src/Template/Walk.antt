-- ===== src/Template/Walk.antt =====
-- The walk over the nodes of a template (pugjs/tpl_exec.go).
use pugtemplate.Common.{
  Text, lit, ℕ, zero, suc, ◌==◌, [], ◌∷◌, Option, none, some, length, if◌then◌else◌,
}
use pugtemplate.Template.Syntax.{Pipeline, Node, Nodes}
use pugtemplate.Template.State.{
  Outcome, Panic, M, ◌>>=◌, ◌>>◌, pure, panic, gets, modify, errorf, with_world,
}
use pugtemplate.Template.Variables.{var_value, enter, state_at, push, set_var_value}
use pugtemplate.Template.Reflection.{Reflection}
use pugtemplate.Template.Eval.{eval_pipeline}
use pugtemplate.Template.Control.{
  max_exec_depth, declared, write, print_value, print_undeclared, set_range_vars, push_all,
  range_over, try_catch, if_true,
}

module _ {V W C : Type 0} (r : Reflection V W C) where
  -- The templates by name, and the run of one in a state with a dot.
  module _ (templates : Text → Option (Nodes C)) (run : ℕ → V → Nodes C → M V W (Unit {0})) where
    -- The name of a template may stand in a variable.
    abbrev pub template_name : ℕ → Text → M V W Text
    template_name s [] = panic Panic.runtime_error
    template_name s (c ∷ n) =
        if c == 36
        then gets (λ st. r.text_of st.world (var_value r.zero s (c ∷ n) st))
        else pure (c ∷ n)

    abbrev pub template_dot : ℕ → V → Option (Pipeline C) → M V W V
    template_dot s dot none = pure r.zero
    template_dot s dot (some p) = eval_pipeline r s dot p

    abbrev pub enter_and_run : ℕ → Text → Nodes C → V → M V W (Unit {0})
    enter_and_run s n root v =
        gets (λ st. length st.states) >>= (λ new. modify (enter s n) >> run new v root)

    abbrev pub run_found : ℕ → V → Text → Option (Pipeline C) → Option (Nodes C) → M V W (Unit {0})
    run_found s dot n p none = pure tt
    run_found s dot n p (some root) =
        gets (λ st. (state_at s st).depth == max_exec_depth) >>= (λ deep.
          if deep
          then errorf (lit "exceeded maximum template depth (%v)")
          else template_dot s dot p >>= enter_and_run s n root)

    -- `walkTemplate`.
    unfoldable pub walk_template : ℕ → V → Text → Option (Pipeline C) → M V W (Unit {0})
    unfolding ◌>>=◌ pure panic gets modify lit var_value enter eval_pipeline
    walk_template s dot name p = template_name s name >>= (λ n. run_found s dot n p (templates n))

    -- `walk`, for a node and for a list.
    unfoldable mutual
      unfolding ◌>>=◌ pure gets modify with_world eval_pipeline print_value write if_true range_over
          try_catch walk_template push set_var_value

      pub walk : ℕ → V → Node C → M V W (Unit {0})
      walk s dot (Node.action p) = eval_pipeline r s dot p >>= print_undeclared r p (declared p)
      walk s dot (Node.if_else p taken orelse) =
          let then_walk = walk_list s dot taken in
          let else_walk = walk_list s dot orelse in
          eval_pipeline r s dot p >>= (λ v. if_true r v then_walk else_walk)
      walk s dot (Node.with_else p taken orelse) =
          let else_walk = walk_list s dot orelse in
          eval_pipeline r s dot p >>= (λ v. if_true r v (walk_list s v taken) else_walk)
      walk s dot (Node.range p body orelse) =
          let else_walk = walk_list s dot orelse in
          let round = λ (index elem : V).
            set_range_vars r s (declared p) index elem >> walk_list s elem body in
          let condition = eval_pipeline r s dot p in
          push_all r s (declared p)
          >> (condition
              >>= (λ v. with_world (r.ranged v) >>= range_over r round condition else_walk))
      walk s dot (Node.list ns) = walk_list s dot ns
      walk s dot (Node.template n p) = walk_template s dot n p
      walk s dot (Node.text t) = write r t
      walk s dot (Node.try body x handler) =
          let tried = walk_list s dot body in
          let caught = walk_list s dot handler in try_catch r s x tried caught

      pub walk_list : ℕ → V → Nodes C → M V W (Unit {0})
      walk_list s dot Nodes.end = pure tt
      walk_list s dot (Nodes.node n ns) =
          let first = walk s dot n in let others = walk_list s dot ns in first >> others

  -- The run of a template, on fuel for the templates that are nested.
  unfoldable pub run_template : (Text → Option (Nodes C)) → ℕ → ℕ → V → Nodes C → M V W (Unit {0})
  unfolding walk_list
  run_template templates zero s dot root st = Outcome.out_of_fuel
  run_template templates (suc fuel) s dot root st =
      let run = run_template templates fuel in walk_list templates run s dot root st
