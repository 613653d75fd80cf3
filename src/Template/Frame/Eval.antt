-- ===== src/Template/Frame/Eval.antt =====
-- The evaluation of a pipeline (pugjs/tpl_exec.go) keeps what the single changes keep.
use pugtemplate.Common.{Text, ℕ, suc, List, [], ◌∷◌, Option, none, some}
use pugtemplate.Template.Syntax.{Arg, Args, Commands, Pipeline}
use pugtemplate.Template.Names.{ArgOk, ArgsOk, CommandsOk, PipelineOk}
use pugtemplate.Template.State.{M}
use pugtemplate.Template.Reflection.{Reflection, Parameter}
use pugtemplate.Template.Calls.{Arguments, no_arguments, has_arguments}
use pugtemplate.Template.Eval.{
  or_error, eval_arg, some_value, eval_untyped, plain, declare, eval_word, eval_args, eval_commands,
  eval_pipeline,
}
use pugtemplate.Template.Frame.{
  Frame, Keeps, bind-Keeps, pure-Keeps, panic-Keeps, set_var_value-Keeps, if-Keeps,
}
use pugtemplate.Template.Frame.Calls.{
  ArgumentsKeep, guard-Keeps, validate_type-Keeps, no_arguments-Keep, eval_field_chain-Keeps,
  eval_variable-Keeps, eval_function-Keeps,
}

module _ {V W C : Type 0} {r : Reflection V W C} (F : Frame r) (s : ℕ) where
  or_error-Keeps : (format : Text) (o : Option V) → Keeps F s (or_error r format o)
  or_error-Keeps format none = panic-Keeps F _
  or_error-Keeps format (some v) = pure-Keeps F v

  eval_arg-Keeps :
      (p : Parameter V W C) (x : Arg C) (m : M V W V) → Keeps F s m → Keeps F s (eval_arg r p x m)
  unfolding eval_arg
  eval_arg-Keeps p Arg.nil m h = or_error-Keeps _ p.nil_value
  eval_arg-Keeps p (Arg.constant c) m h = or_error-Keeps _ (p.constant c)
  eval_arg-Keeps p _ m h = bind-Keeps F h (validate_type-Keeps F s p)

  some_value-Keeps : (v : V) → Keeps F s (some_value r v)
  some_value-Keeps v = if-Keeps F (r.is_valid v) (pure-Keeps F v) (panic-Keeps F _)

  eval_untyped-Keeps : (x : Arg C) (m : M V W V) → Keeps F s m → Keeps F s (eval_untyped r x m)
  unfolding eval_untyped
  eval_untyped-Keeps Arg.nil m h = panic-Keeps F _
  eval_untyped-Keeps (Arg.constant c) m h = panic-Keeps F _
  eval_untyped-Keeps _ m h = bind-Keeps F h some_value-Keeps

  plain-Keeps : (a : Arguments r) (m : M V W V) → Keeps F s m → Keeps F s (plain r a m)
  plain-Keeps a m h = guard-Keeps F s (has_arguments r a) _ h

  declare-Keeps : (xs : List Text) (v : V) → Keeps F s (declare r s xs v)
  unfolding declare
  declare-Keeps [] v = pure-Keeps F v
  declare-Keeps (x ∷ xs) v = bind-Keeps F (set_var_value-Keeps F x v) λ u. declare-Keeps xs v

  mutual
    unfolding eval_word ArgOk

    eval_word-Keeps :
        (dot : V) (x : Arg C) (a : Arguments r)
        → ArgOk F.Ok x
        → ArgumentsKeep F s a
        → Keeps F s (eval_word r s dot x a)
    eval_word-Keeps dot Arg.dot a ok h = plain-Keeps a _ (pure-Keeps F dot)
    eval_word-Keeps dot Arg.nil a ok h = plain-Keeps a _ (panic-Keeps F _)
    eval_word-Keeps dot (Arg.constant c) a ok h = plain-Keeps a _ (or_error-Keeps _ (r.ideal c))
    eval_word-Keeps dot (Arg.identifier n) a ok h = eval_function-Keeps F s n a ok h
    eval_word-Keeps dot (Arg.field ns) a ok h = eval_field_chain-Keeps F s ns a dot ok h
    eval_word-Keeps dot (Arg.variable x ns) a ok h = eval_variable-Keeps F s x ns a ok h
    eval_word-Keeps dot (Arg.chain x []) a ok h = panic-Keeps F _
    eval_word-Keeps dot (Arg.chain x (n ∷ ns)) a ok h =
        bind-Keeps F
          (eval_untyped-Keeps x _
            (eval_word-Keeps dot x (no_arguments r) ok.0 (no_arguments-Keep F s)))
          λ v. eval_field_chain-Keeps F s (n ∷ ns) a v ok.1 h
    eval_word-Keeps dot (Arg.pipe p) a ok h = eval_pipeline-Keeps dot p ok

    eval_args-Keeps :
        (dot : V) (xs : Args C) (i : ℕ) (ps : ℕ → Parameter V W C)
        → ArgsOk F.Ok xs
        → Keeps F s (eval_args r s dot xs i ps)
    eval_args-Keeps dot Args.end i ps ok = pure-Keeps F []
    eval_args-Keeps dot (Args.arg x xs) i ps ok =
        bind-Keeps F
          (eval_arg-Keeps (ps i) x _
            (eval_word-Keeps dot x (no_arguments r) ok.0 (no_arguments-Keep F s)))
          λ v. bind-Keeps F (eval_args-Keeps dot xs (suc i) ps ok.1) λ vs. pure-Keeps F (v ∷ vs)

    eval_commands-Keeps :
        (dot : V) (cs : Commands C) (v : V)
        → CommandsOk F.Ok cs
        → Keeps F s (eval_commands r s dot cs v)
    eval_commands-Keeps dot Commands.done v ok = pure-Keeps F v
    eval_commands-Keeps dot (Commands.command x xs cs) v ok =
        bind-Keeps F
          (eval_word-Keeps dot x _ ok.0
            (record { evaluates = λ ps. eval_args-Keeps dot xs 0 ps ok.1 }))
          λ w. eval_commands-Keeps dot cs w ok.2

    pub eval_pipeline-Keeps :
        (dot : V) (p : Pipeline C) → PipelineOk F.Ok p → Keeps F s (eval_pipeline r s dot p)
    eval_pipeline-Keeps dot (Pipeline.pipeline cs xs) ok =
        bind-Keeps F (eval_commands-Keeps dot cs r.zero ok) (declare-Keeps xs)
