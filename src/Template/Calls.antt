-- ===== src/Template/Calls.antt =====
-- Calls, fields and variables in the evaluation of a template (pugjs/tpl_exec.go), in the state at
-- a place of the store.
use pugtemplate.Common.{
  Text, lit, text_eq, to_lower, take, ltb, ℕ, ◌+◌, ◌==◌, Bool, not, ◌||◌, List, [], ◌∷◌, ◌++◌,
  Option, none, some, if◌then◌else◌,
}
use pugtemplate.Template.State.{
  Panic, M, ◌>>=◌, ◌>>◌, pure, panic, gets, modify, errorf, with_world,
}
use pugtemplate.Template.Variables.{var_value, freeze}
use pugtemplate.Template.Reflection.{
  Reflection, Function, Parameter, Member, Native, GoFields, Receiver, Called,
}

module _ {V W C : Type 0} (r : Reflection V W C) where
  -- The words after the first one, how they are evaluated for the parameters of a function, and
  -- the value piped in.
  pub record Arguments : Type 0 where
    pub count : ℕ
    pub evaluate : (ℕ → Parameter V W C) → M V W (List V)
    pub final : V

  unfoldable pub no_arguments : Arguments
  unfolding pure
  no_arguments = record { count = 0; evaluate = λ ps. pure []; final = r.zero }

  abbrev pub has_arguments : Arguments → Bool
  has_arguments a = ltb 0 a.count || r.is_valid a.final

  abbrev pub accepted : Option V → M V W V
  accepted none = errorf (lit "wrong type for value; expected %s; got %s")
  accepted (some v) = pure v

  -- `validateType`.
  unfoldable pub validate_type : Parameter V W C → V → M V W V
  unfolding ◌>>=◌ gets lit pure panic
  validate_type p v = do st ← gets λ st. p.accept st.world v; accepted st

  -- The value piped in, as the last argument.
  abbrev pub add_final : Function V W C → Arguments → List V → M V W (List V)
  add_final f a vs =
      if r.is_valid a.final
      then validate_type (f.parameters a.count) a.final >>= (λ v. pure (vs ++ (v ∷ [])))
      else pure vs

  abbrev pub call_result : Called V W → M V W V
  call_result (Called.returned w v) = do
    modify λ st. record st { world = w }
    pure (if r.is_valid v then r.convert w v else v)
  call_result (Called.failed w e) = do
    modify λ st. record st { world = w }
    errorf (lit "error calling %s: %s")
  call_result (Called.panicked w e) = do
    modify λ st. record st { world = w }
    panic (Panic.raised e)

  abbrev pub freeze_first : ℕ → List V → M V W V
  freeze_first s [] = panic Panic.runtime_error
  freeze_first s (v ∷ vs) = do modify λ st. freeze r.spare s (r.text_of st.world v) st; pure r.nil

  abbrev pub invoke : Function V W C → List V → M V W V
  invoke f vs = do called ← gets λ st. f.run st.world vs; call_result called

  abbrev pub apply : ℕ → Text → Function V W C → List V → M V W V
  apply s name f vs = if text_eq name (lit "__freeze") then freeze_first s vs else invoke f vs

  abbrev pub right_count : Function V W C → Arguments → Bool
  right_count f a =
      let given = a.count + (if r.is_valid a.final then 1 else 0) in
      if f.variadic then not (ltb given f.fixed) else given == f.fixed

  -- `evalCall`.
  unfoldable pub eval_call : ℕ → Text → Function V W C → Arguments → M V W V
  unfolding ◌>>=◌ gets modify pure panic lit freeze validate_type
  eval_call s name f a =
      if text_eq name (lit "null")
      then pure r.nil
      else if not (right_count f a)
      then errorf (lit "wrong number of args for %s: want %d got %d")
      else if not f.good_results
      then errorf (lit "can'e call method/function %q with %d results")
      else a.evaluate f.parameters >>= (λ vs. add_final f a vs >>= apply s name f)

  -- The first byte in lower case.
  abbrev lower_byte : Text → Text
  lower_byte n = to_lower (take 1 n)

  -- A key of a Go map: as it is, with a small first byte, and as a title.
  abbrev pub map_key : (Text → Option V) → Text → V
  map_key get [] = elim (get []) [ some v ↦ v | none ↦ r.zero ]
  map_key get (c ∷ n) = elim (get (c ∷ n)) [
    | some v ↦ v
    | none ↦ elim (get (to_lower (c ∷ []) ++ n)) [
      | some v ↦ v
      | none ↦ elim (get (r.title (c ∷ n))) [ some v ↦ v | none ↦ r.zero ]
    ]
  ]

  abbrev pub or_title {ℓ} : {A : Type ℓ} → (Text → Option A) → Text → Option A
  or_title get n = elim (get n) [ some v ↦ some v | none ↦ get (r.title n) ]

  abbrev bad_field : M V W V
  bad_field = errorf (lit "can'e evaluate field %s in type %s")

  abbrev nil_pointer : M V W V
  nil_pointer = errorf (lit "nil pointer evaluating %s.%s")

  abbrev pub struct_field : Bool → Arguments → Option (Bool × V) → M V W V
  struct_field is_nil a none = bad_field
  struct_field is_nil a (some (exported, v)) =
      if is_nil
      then nil_pointer
      else if not exported
      then errorf (lit "%s is an unexported field of struct type %s")
      else if has_arguments a
      then errorf (lit "%s has arguments but cannot be invoked as function")
      else pure v

  abbrev pub native_field : Native V W C → GoFields V → Text → Arguments → M V W V
  native_field x (GoFields.structure get) n a = struct_field x.is_nil a (or_title get n)
  native_field x (GoFields.dictionary by_string get) n a =
      if x.is_nil
      then nil_pointer
      else if not by_string
      then bad_field
      else if has_arguments a
      then errorf (lit "%s is not a method but has arguments")
      else pure (map_key get n)
  native_field x GoFields.other n a = bad_field

  abbrev pub use_member : ℕ → Text → Arguments → Member V W C → M V W V
  use_member s n a (Member.value v) = pure v
  use_member s n a (Member.func f) = eval_call s n f a

  abbrev pub field_of : ℕ → Text → Arguments → Receiver V W C → M V W V
  field_of s n a Receiver.invalid = pure r.zero
  field_of s n a (Receiver.object member) = do m ← with_world (member n); use_member s n a m
  field_of s n a (Receiver.native x) = elim (or_title x.method n) [
    | some f ↦ eval_call s n f a
    | none ↦ native_field x x.fields n a
  ]

  -- `evalField`, with the value before the dot.
  unfoldable pub eval_field : ℕ → Text → Arguments → V → M V W V
  unfolding eval_call ◌>>=◌ gets with_world pure panic lit
  eval_field s n a v = do x ← gets λ st. r.receiver st.world v; field_of s n a x

  -- `evalFieldChain`: the arguments are for the last field.
  unfoldable pub eval_field_chain : ℕ → List Text → Arguments → V → M V W V
  unfolding eval_field ◌>>=◌ pure no_arguments panic
  eval_field_chain s [] a v = panic Panic.runtime_error
  eval_field_chain s (n ∷ []) a v = eval_field s n a v
  eval_field_chain s (n ∷ m ∷ ns) a v = do
    w ← eval_field s n no_arguments v
    eval_field_chain s (m ∷ ns) a w

  -- `evalVariableNode`.
  unfoldable pub eval_variable : ℕ → Text → List Text → Arguments → M V W V
  unfolding eval_field_chain ◌>>=◌ gets pure panic lit
  eval_variable s x [] a = do
    v ← gets (var_value r.zero s x)
    if has_arguments a then errorf (lit "can'e give argument to non-function %s") else pure v
  eval_variable s x (n ∷ ns) a = do v ← gets (var_value r.zero s x); eval_field_chain s (n ∷ ns) a v

  -- `evalFunction`.
  unfoldable pub eval_function : ℕ → Text → Arguments → M V W V
  unfolding eval_call panic lit
  eval_function s n a = elim (r.functions n) [
    | some f ↦ eval_call s n f a
    | none ↦ errorf (lit "%q is not a defined function")
  ]
