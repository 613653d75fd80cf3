-- ===== src/Template/Frame/Calls.antt =====
-- Calls, fields and variables in a template (pugjs/tpl_exec.go) keep what the single changes keep.
use pugtemplate.Common.{
  Text, lit, text_eq, text_eq_iff, ℕ, Bool, true, false, not, Bool-cases, inl, inr, List, [], ◌∷◌,
  Option, none, some, All, subst, if◌then◌else◌,
}
use pugtemplate.Template.State.{M, modify, errorf}
use pugtemplate.Template.Variables.{freeze}
use pugtemplate.Template.Reflection.{
  Reflection, Function, Parameter, Member, Native, GoFields, Receiver, Called,
}
use pugtemplate.Template.Calls.{
  Arguments, no_arguments, has_arguments, accepted, validate_type, add_final, call_result,
  freeze_first, apply, right_count, eval_call, or_title, struct_field, native_field, use_member,
  field_of, eval_field, eval_field_chain, eval_variable, eval_function, map_key,
}
use pugtemplate.Template.Frame.{
  Frame, Keeps, bind-Keeps, pure-Keeps, panic-Keeps, gets-Keeps, with_world-Keeps, set_world-Keeps,
  if-Keeps,
}

module _ {V W C : Type 0} {r : Reflection V W C} (F : Frame r) (s : ℕ) where
  -- The arguments of a command keep it too.
  pub record ArgumentsKeep (a : Arguments r) : Type 0 where
    pub evaluates : (ps : ℕ → Parameter V W C) → Keeps F s (a.evaluate ps)

  pub guard-Keeps :
      (b : Bool) (format : Text) {m : M V W V}
      → Keeps F s m
      → Keeps F s (if b then errorf format else m)
  guard-Keeps true format h = panic-Keeps F _
  guard-Keeps false format h = h

  accepted-Keeps : (o : Option V) → Keeps F s (accepted r o)
  accepted-Keeps none = panic-Keeps F _
  accepted-Keeps (some v) = pure-Keeps F v

  pub validate_type-Keeps : (p : Parameter V W C) (v : V) → Keeps F s (validate_type r p v)
  unfolding validate_type
  validate_type-Keeps p v = bind-Keeps F (gets-Keeps F _) accepted-Keeps

  add_final-Keeps :
      (f : Function V W C) (a : Arguments r) (vs : List V) → Keeps F s (add_final r f a vs)
  add_final-Keeps f a vs =
      if-Keeps F (r.is_valid a.final)
        (bind-Keeps F (validate_type-Keeps (f.parameters a.count) a.final) λ v. pure-Keeps F _)
        (pure-Keeps F vs)

  call_result-Keeps : (c : Called V W) → Keeps F s (call_result r c)
  call_result-Keeps (Called.returned w v) = bind-Keeps F (set_world-Keeps F w) λ u. pure-Keeps F _
  call_result-Keeps (Called.failed w e) = bind-Keeps F (set_world-Keeps F w) λ u. panic-Keeps F _
  call_result-Keeps (Called.panicked w e) = bind-Keeps F (set_world-Keeps F w) λ u. panic-Keeps F _

  freeze-Keeps :
      (v : V)
      → F.Ok (lit "__freeze")
      → Keeps F s (modify λ st. freeze r.spare s (r.text_of st.world v) st)
  unfolding modify
  freeze-Keeps v ok = record { run = λ st p. F.freezes s (r.text_of st.world v) st ok p }

  freeze_first-Keeps : (vs : List V) → F.Ok (lit "__freeze") → Keeps F s (freeze_first r s vs)
  freeze_first-Keeps [] ok = panic-Keeps F _
  freeze_first-Keeps (v ∷ vs) ok = bind-Keeps F (freeze-Keeps v ok) λ u. pure-Keeps F _

  apply-Keeps :
      (n : Text) (f : Function V W C) (vs : List V) → F.Ok n → Keeps F s (apply r s n f vs)
  apply-Keeps n f vs ok = elim (Bool-cases (text_eq n (lit "__freeze"))) [
    | inl e ↦ rw e (freeze_first-Keeps vs (subst F.Ok ((text_eq_iff n _).0 e) ok))
    | inr e ↦ rw e (bind-Keeps F (gets-Keeps F _) call_result-Keeps)
  ]

  pub eval_call-Keeps :
      (n : Text) (f : Function V W C) (a : Arguments r)
      → F.Ok n
      → ArgumentsKeep a
      → Keeps F s (eval_call r s n f a)
  unfolding eval_call
  eval_call-Keeps n f a ok h = if-Keeps F (text_eq n (lit "null")) (pure-Keeps F _) (
      guard-Keeps (not (right_count r f a)) (lit "wrong number of args for %s: want %d got %d") (
        guard-Keeps (not f.good_results) (lit "can'e call method/function %q with %d results") (
          bind-Keeps F (h.evaluates f.parameters)
            λ vs. bind-Keeps F (add_final-Keeps f a vs) λ ws. apply-Keeps n f ws ok)))

  pub no_arguments-Keep : ArgumentsKeep (no_arguments r)
  unfolding no_arguments
  no_arguments-Keep = record { evaluates = λ ps. pure-Keeps F [] }

  struct_field-Keeps :
      (is_nil : Bool) (a : Arguments r) (o : Option (Bool × V))
      → Keeps F s (struct_field r is_nil a o)
  struct_field-Keeps is_nil a none = panic-Keeps F _
  struct_field-Keeps is_nil a (some (exported, v)) =
      guard-Keeps is_nil (lit "nil pointer evaluating %s.%s") (
        guard-Keeps (not exported) (lit "%s is an unexported field of struct type %s") (
          guard-Keeps (has_arguments r a) (lit "%s has arguments but cannot be invoked as function")
            (pure-Keeps F v)))

  native_field-Keeps :
      (x : Native V W C) (fs : GoFields V) (n : Text) (a : Arguments r)
      → Keeps F s (native_field r x fs n a)
  native_field-Keeps x (GoFields.structure get) n a =
      struct_field-Keeps x.is_nil a (or_title r get n)
  native_field-Keeps x (GoFields.dictionary by_string get) n a =
      guard-Keeps x.is_nil (lit "nil pointer evaluating %s.%s") (
        guard-Keeps (not by_string) (lit "can'e evaluate field %s in type %s") (
          guard-Keeps (has_arguments r a) (lit "%s is not a method but has arguments")
            (pure-Keeps F (map_key r get n))))
  native_field-Keeps x GoFields.other n a = panic-Keeps F _

  use_member-Keeps :
      (n : Text) (a : Arguments r) (m : Member V W C)
      → F.Ok n
      → ArgumentsKeep a
      → Keeps F s (use_member r s n a m)
  use_member-Keeps n a (Member.value v) ok h = pure-Keeps F v
  use_member-Keeps n a (Member.func f) ok h = eval_call-Keeps n f a ok h

  native-Keeps :
      (n : Text) (a : Arguments r) (x : Native V W C) (o : Option (Function V W C))
      → F.Ok n
      → ArgumentsKeep a
      → Keeps F {A = V} s
          (elim o [ some f ↦ eval_call r s n f a | none ↦ native_field r x x.fields n a ])
  native-Keeps n a x none ok h = native_field-Keeps x x.fields n a
  native-Keeps n a x (some f) ok h = eval_call-Keeps n f a ok h

  field_of-Keeps :
      (n : Text) (a : Arguments r) (x : Receiver V W C)
      → F.Ok n
      → ArgumentsKeep a
      → Keeps F s (field_of r s n a x)
  field_of-Keeps n a Receiver.invalid ok h = pure-Keeps F _
  field_of-Keeps n a (Receiver.object member) ok h =
      bind-Keeps F (with_world-Keeps F (member n)) λ m. use_member-Keeps n a m ok h
  field_of-Keeps n a (Receiver.native x) ok h = native-Keeps n a x (or_title r x.method n) ok h

  eval_field-Keeps :
      (n : Text) (a : Arguments r) (v : V)
      → F.Ok n
      → ArgumentsKeep a
      → Keeps F s (eval_field r s n a v)
  unfolding eval_field
  eval_field-Keeps n a v ok h =
      bind-Keeps F (gets-Keeps F λ st. r.receiver st.world v) λ x. field_of-Keeps n a x ok h

  pub eval_field_chain-Keeps :
      (ns : List Text) (a : Arguments r) (v : V)
      → All F.Ok ns
      → ArgumentsKeep a
      → Keeps F s (eval_field_chain r s ns a v)
  unfolding eval_field_chain
  eval_field_chain-Keeps [] a v ok h = panic-Keeps F _
  eval_field_chain-Keeps (n ∷ []) a v ok h = eval_field-Keeps n a v ok.0 h
  eval_field_chain-Keeps (n ∷ m ∷ ns) a v ok h =
      bind-Keeps F (eval_field-Keeps n (no_arguments r) v ok.0 no_arguments-Keep)
        λ w. eval_field_chain-Keeps (m ∷ ns) a w ok.1 h

  pub eval_variable-Keeps :
      (x : Text) (ns : List Text) (a : Arguments r)
      → All F.Ok ns
      → ArgumentsKeep a
      → Keeps F s (eval_variable r s x ns a)
  unfolding eval_variable
  eval_variable-Keeps x [] a ok h = bind-Keeps F (gets-Keeps F _) λ v.
      guard-Keeps (has_arguments r a) (lit "can'e give argument to non-function %s")
        (pure-Keeps F v)
  eval_variable-Keeps x (n ∷ ns) a ok h =
      bind-Keeps F (gets-Keeps F _) λ v. eval_field_chain-Keeps (n ∷ ns) a v ok h

  function-Keeps :
      (n : Text) (a : Arguments r) (o : Option (Function V W C))
      → F.Ok n
      → ArgumentsKeep a
      → Keeps F {A = V} s (elim o [
        | some f ↦ eval_call r s n f a
        | none ↦ errorf (lit "%q is not a defined function")
      ])
  function-Keeps n a none ok h = panic-Keeps F _
  function-Keeps n a (some f) ok h = eval_call-Keeps n f a ok h

  pub eval_function-Keeps :
      (n : Text) (a : Arguments r) → F.Ok n → ArgumentsKeep a → Keeps F s (eval_function r s n a)
  unfolding eval_function
  eval_function-Keeps n a ok h = function-Keeps n a (r.functions n) ok h
