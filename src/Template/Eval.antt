-- ===== src/Template/Eval.antt =====
-- The evaluation of pipelines (pugjs/tpl_exec.go), in the state at a place of the store.
use pugtemplate.Common.{Text, lit, ℕ, suc, List, [], ◌∷◌, Option, none, some, if◌then◌else◌}
use pugtemplate.Template.Syntax.{Arg, Args, Commands, Pipeline}
use pugtemplate.Template.State.{Panic, M, ◌>>=◌, ◌>>◌, pure, panic, modify, errorf}
use pugtemplate.Template.Variables.{set_var_value}
use pugtemplate.Template.Reflection.{Reflection, Parameter}
use pugtemplate.Template.Calls.{
  Arguments, no_arguments, has_arguments, validate_type, eval_field_chain, eval_variable,
  eval_function,
}

module _ {V W C : Type 0} (r : Reflection V W C) where
  abbrev pub or_error : Text → Option V → M V W V
  or_error format none = errorf format
  or_error format (some v) = pure v

  -- `evalArg`, with the word's value where it is no constant.
  unfoldable pub eval_arg : Parameter V W C → Arg C → M V W V → M V W V
  unfolding ◌>>=◌ pure panic lit validate_type
  eval_arg p Arg.nil m = or_error (lit "cannot assign nil to %s") p.nil_value
  eval_arg p (Arg.constant c) m = or_error (lit "can'e handle %s for arg of type %s") (p.constant c)
  eval_arg p _ m = m >>= validate_type r p

  -- `evalArg` without a type: reflect panics for an invalid value, and Go for a constant.
  abbrev pub some_value : V → M V W V
  some_value v = if r.is_valid v then pure v else panic Panic.runtime_error

  unfoldable pub eval_untyped : Arg C → M V W V → M V W V
  unfolding ◌>>=◌ pure panic lit
  eval_untyped Arg.nil m = errorf (lit "indirection through explicit nil in %s")
  eval_untyped (Arg.constant c) m = panic Panic.runtime_error
  eval_untyped _ m = m >>= some_value

  abbrev pub plain : Arguments r → M V W V → M V W V
  plain a m = if has_arguments r a then errorf (lit "can'e give argument to non-function %s") else m

  abbrev pub args_count : Args C → ℕ
  args_count Args.end = 0
  args_count (Args.arg x xs) = suc (args_count xs)

  -- The variables that a pipeline declares.
  unfoldable pub declare : ℕ → List Text → V → M V W V
  unfolding ◌>>=◌ pure modify set_var_value
  declare s [] v = pure v
  declare s (x ∷ xs) v = do modify (set_var_value r.spare s x v); declare s xs v

  -- `evalCommand` by its first word, and `evalPipeline`. Interface values stand for what is in them.
  unfoldable mutual
    unfolding ◌>>=◌ pure panic lit eval_arg eval_untyped eval_function eval_field_chain
        eval_variable declare no_arguments

    pub eval_word : ℕ → V → Arg C → Arguments r → M V W V
    eval_word s dot Arg.dot a = plain a (pure dot)
    eval_word s dot Arg.nil a = plain a (errorf (lit "nil is not a command"))
    eval_word s dot (Arg.constant c) a = plain a (or_error (lit "%s overflows int") (r.ideal c))
    eval_word s dot (Arg.identifier n) a = eval_function r s n a
    eval_word s dot (Arg.field ns) a = eval_field_chain r s ns a dot
    eval_word s dot (Arg.variable x ns) a = eval_variable r s x ns a
    eval_word s dot (Arg.chain x []) a = errorf (lit "internal error: no fields in evalChainNode")
    eval_word s dot (Arg.chain x (n ∷ ns)) a =
        eval_untyped x (eval_word s dot x (no_arguments r)) >>= eval_field_chain r s (n ∷ ns) a
    eval_word s dot (Arg.pipe p) a = eval_pipeline s dot p

    pub eval_args : ℕ → V → Args C → ℕ → (ℕ → Parameter V W C) → M V W (List V)
    eval_args s dot Args.end i ps = pure []
    eval_args s dot (Args.arg x xs) i ps = do
      v ← eval_arg (ps i) x (eval_word s dot x (no_arguments r))
      vs ← eval_args s dot xs (suc i) ps
      pure (v ∷ vs)

    pub eval_commands : ℕ → V → Commands C → V → M V W V
    eval_commands s dot Commands.done v = pure v
    eval_commands s dot (Commands.command x xs cs) v = do
      w ←
          eval_word s dot x
            (record { count = args_count xs; evaluate = eval_args s dot xs 0; final = v })
      eval_commands s dot cs w

    pub eval_pipeline : ℕ → V → Pipeline C → M V W V
    eval_pipeline s dot (Pipeline.pipeline cs xs) = eval_commands s dot cs r.zero >>= declare s xs
