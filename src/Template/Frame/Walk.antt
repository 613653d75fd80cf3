-- ===== src/Template/Frame/Walk.antt =====
-- The walk over a template (pugjs/tpl_exec.go) keeps what the single changes keep, if the runs of
-- the templates it enters do.
use pugtemplate.Common.{
  Text, ℕ, ◌==◌, false, [], ◌∷◌, Option, none, some, length, ◌≡◌, Bool-cases, Option-cases, inl,
  inr,
}
use pugtemplate.Template.Syntax.{Pipeline, Node, Nodes}
use pugtemplate.Template.Names.{NodeOk, NodesOk, DotOk}
use pugtemplate.Template.State.{Store, M, modify, ◌>>=◌, gets}
use pugtemplate.Template.Variables.{enter, state_at}
use pugtemplate.Template.Reflection.{Reflection}
use pugtemplate.Template.Control.{max_exec_depth, declared}
use pugtemplate.Template.Walk.{
  template_name, template_dot, enter_and_run, run_found, walk_template, walk, walk_list,
}
use pugtemplate.Template.Frame.{
  After, Frame, Keeps, bind-Keeps, pure-Keeps, panic-Keeps, gets-Keeps, with_world-Keeps,
}
use pugtemplate.Template.Frame.Eval.{eval_pipeline-Keeps}
use pugtemplate.Template.Frame.Control.{
  write-Keeps, print_undeclared-Keeps, set_range_vars-Keeps, push_all-Keeps, range_over-Keeps,
  try_catch-Keeps, if_true-Keeps,
}

module _ {V W C : Type 0} {r : Reflection V W C} (F : Frame r) (s : ℕ)
    (templates : Text → Option (Nodes C)) (run : ℕ → V → Nodes C → M V W (Unit {0}))
    (entered : (n : Text) (root : Nodes C) (v : V) (before st : Store V W)
      → templates n ≡ some root
      → F.P s before
      → ((state_at s before).depth == max_exec_depth) ≡ false
      → F.P s st
      → After F.U F.R st (run (length st.states) v root (enter s n st))) where
  template_name-Keeps : (n : Text) → Keeps F s (template_name r templates run s n)
  template_name-Keeps [] = panic-Keeps F _
  template_name-Keeps (c ∷ n) = elim (Bool-cases (c == 36)) [
    | inl e ↦ rw e (gets-Keeps F _)
    | inr e ↦ rw e (pure-Keeps F _)
  ]

  template_dot-Keeps :
      (dot : V) (p : Option (Pipeline C))
      → DotOk F.Ok p
      → Keeps F s (template_dot r templates run s dot p)
  template_dot-Keeps dot none ok = pure-Keeps F _
  template_dot-Keeps dot (some p) ok = eval_pipeline-Keeps F s dot p ok

  entered-Keeps :
      (n : Text) (root : Nodes C) (v : V) (before : Store V W)
      → templates n ≡ some root
      → F.P s before
      → ((state_at s before).depth == max_exec_depth) ≡ false
      → Keeps F s (enter_and_run r templates run s n root v)
  unfolding ◌>>=◌ gets modify
  entered-Keeps n root v before e p deep = record {
    run = λ st q. entered n root v before st e p deep q;
  }

  found-Keeps :
      (dot : V) (n : Text) (p : Option (Pipeline C)) (root : Nodes C)
      → templates n ≡ some root
      → DotOk F.Ok p
      → Keeps F s (run_found r templates run s dot n p (some root))
  unfolding ◌>>=◌ gets
  found-Keeps dot n p root e ok = record {
    run = λ st q. elim (Bool-cases ((state_at s st).depth == max_exec_depth)) [
      | inl deep ↦ rw deep ((panic-Keeps F _).run st q)
      | inr deep ↦ rw deep (
          (bind-Keeps F (template_dot-Keeps dot p ok) λ v. entered-Keeps n root v st e q deep).run
            st q)
    ];
  }

  walk_template-Keeps :
      (dot : V) (n : Text) (p : Option (Pipeline C))
      → DotOk F.Ok p
      → Keeps F s (walk_template r templates run s dot n p)
  unfolding walk_template
  walk_template-Keeps dot n p ok = bind-Keeps F (template_name-Keeps n) λ m.
      elim (Option-cases (templates m)) [
        | inl e ↦ rw e (pure-Keeps F tt)
        | inr (root, e) ↦ rw e (found-Keeps dot m p root e ok)
      ]

  mutual
    unfolding walk NodeOk

    walk-Keeps : (dot : V) (n : Node C) → NodeOk F.Ok n → Keeps F s (walk r templates run s dot n)
    walk-Keeps dot (Node.action p) ok =
        bind-Keeps F (eval_pipeline-Keeps F s dot p ok) (print_undeclared-Keeps F s p (declared p))
    walk-Keeps dot (Node.if_else p ns ms) ok =
        bind-Keeps F (eval_pipeline-Keeps F s dot p ok.0)
          λ v. if_true-Keeps F s v _ _ (walk_list-Keeps dot ns ok.1) (walk_list-Keeps dot ms ok.2)
    walk-Keeps dot (Node.with_else p ns ms) ok =
        bind-Keeps F (eval_pipeline-Keeps F s dot p ok.0)
          λ v. if_true-Keeps F s v _ _ (walk_list-Keeps v ns ok.1) (walk_list-Keeps dot ms ok.2)
    walk-Keeps dot (Node.range p ns ms) ok = bind-Keeps F (push_all-Keeps F s (declared p)) λ u.
        bind-Keeps F (eval_pipeline-Keeps F s dot p ok.0) λ v.
          bind-Keeps F (with_world-Keeps F (r.ranged v)) λ x.
            range_over-Keeps F s _
              (λ index elem.
                bind-Keeps F (set_range_vars-Keeps F s (declared p) index elem)
                  λ w. walk_list-Keeps elem ns ok.1)
              _ _ x (eval_pipeline-Keeps F s dot p ok.0) (walk_list-Keeps dot ms ok.2)
    walk-Keeps dot (Node.list ns) ok = walk_list-Keeps dot ns ok
    walk-Keeps dot (Node.template n p) ok = walk_template-Keeps dot n p ok
    walk-Keeps dot (Node.text t) ok = write-Keeps F s t
    walk-Keeps dot (Node.try ns x ms) ok =
        try_catch-Keeps F s x _ _ (walk_list-Keeps dot ns ok.0) (walk_list-Keeps dot ms ok.1)

    pub walk_list-Keeps :
        (dot : V) (ns : Nodes C) → NodesOk F.Ok ns → Keeps F s (walk_list r templates run s dot ns)
    walk_list-Keeps dot Nodes.end ok = pure-Keeps F tt
    walk_list-Keeps dot (Nodes.node n ns) ok =
        bind-Keeps F (walk-Keeps dot n ok.0) λ u. walk_list-Keeps dot ns ok.1
