-- ===== src/Template/Ends.antt =====
-- Templates that bind no blocks end (pugjs/tpl_exec.go): the depth of nested templates is limited.
use pugtemplate.Common.{Text, zero, suc, List, [], ◌∷◌, Option, none, some, ◌≡◌, refl, arith}
use pugtemplate.Template.Syntax.{Nodes}
use pugtemplate.Template.Names.{NodesOk}
use pugtemplate.Template.State.{Store, Variable, Outcome}
use pugtemplate.Template.Reflection.{Reflection}
use pugtemplate.Template.Control.{max_exec_depth}
use pugtemplate.Template.Execute.{Data, globals_of, first_store, push_globals, start_store, execute}
use pugtemplate.Template.Effects.{push-Changed}
use pugtemplate.Template.Frame.{After}
use pugtemplate.Template.Depth.{
  NoBlocks, BindsNone, Unbound, At, Changed-Unbound, At-Unbound, levels-End,
}

-- The run did not stop for want of fuel.
abbrev pub Ended : {V W A : Type 0} → Outcome V W A → Type 0
Ended (Outcome.returned st a) = Unit
Ended (Outcome.panicked st p) = Unit
Ended Outcome.out_of_fuel = ⊥

abbrev pub RootBindsNone : {C : Type 0} → Option (Nodes C) → Type 0
RootBindsNone none = Unit
RootBindsNone (some root) = NodesOk BindsNone root

After-Ended : {V W A : Type 0} (st : Store V W) (o : Outcome V W A) → After ⊥ Unbound st o → Ended o
After-Ended st (Outcome.returned st' a) h = tt
After-Ended st (Outcome.panicked st' p) h = tt
After-Ended st Outcome.out_of_fuel h = h

module _ {V W C : Type 0} (r : Reflection V W C) where
  first-At : (v : V) (globals : List (Variable V)) (w : W) → At 0 0 (first_store r v globals w)
  unfolding first_store
  first-At v globals w = record { exists = omega arith; depth = refl; none_bound = none_bound }
    where
      none_bound : NoBlocks (first_store r v globals w)
      none_bound zero = refl
      none_bound (suc i) = refl

  globals-At : (xs : List (Variable V)) (st : Store V W) → At 0 0 st → At 0 0 (push_globals r xs st)
  unfolding push_globals
  globals-At [] st h = h
  globals-At (x ∷ xs) st h =
      globals-At xs _
        (At-Unbound 0 0 st _ h (Changed-Unbound st _ (push-Changed r.spare 0 x.name x.value st)))

  -- The execution of a template ends: one more unit of fuel than the limit of the depth is enough,
  -- if neither its nodes nor those of the other templates name `__freeze`, which binds a block.
  pub execute-Ended :
      (lower_first : Text → Text) (templates : Text → Option (Nodes C)) (root : Option (Nodes C))
      (d : Data V) (w : W)
      → RootBindsNone root
      → ((n : Text) (ns : Nodes C) → templates n ≡ some ns → NodesOk BindsNone ns)
      → Ended (execute r lower_first templates (suc max_exec_depth) root d w)
  unfolding execute
  execute-Ended lower_first templates none d w ok unbinding = tt
  execute-Ended lower_first templates (some root) d w ok unbinding =
      After-Ended (start_store r lower_first d w) _ (
        levels-End r templates unbinding (suc max_exec_depth) 0 0 d.value root
          (start_store r lower_first d w) ok (omega arith) (omega arith)
          (globals-At (globals_of lower_first d) _ (first-At d.value (globals_of lower_first d) w)))
