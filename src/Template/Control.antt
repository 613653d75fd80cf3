-- ===== src/Template/Control.antt =====
-- What the walk over a template does with values and branches (pugjs/tpl_exec.go). The writer does not fail: the engine
-- gives a buffer.
use pugtemplate.Common.{
  Text, lit, ℕ, zero, suc, Bool, true, false, List, [], ◌∷◌, ◌++◌, Option, none, some,
}
use pugtemplate.Template.Syntax.{Pipeline}
use pugtemplate.Template.State.{
  Panic, Outcome, M, ◌>>=◌, ◌>>◌, pure, panic, gets, modify, errorf, with_world,
}
use pugtemplate.Template.Variables.{set_var_value, push}
use pugtemplate.Template.Reflection.{Reflection, Ranged, Printed}

abbrev pub max_exec_depth : ℕ
max_exec_depth = 100000

-- The rounds of a while loop after which it is stopped.
abbrev pub max_rounds : ℕ
max_rounds = 10001

abbrev pub declared : {C : Type 0} → Pipeline C → List Text
declared (Pipeline.pipeline cs xs) = xs

module _ {V W C : Type 0} (r : Reflection V W C) where
  unfoldable pub write : Text → M V W (Unit {0})
  unfolding modify
  write t = modify λ st. record st { output = st.output ++ t }

  abbrev pub print_as : Pipeline C → V → Printed → M V W (Unit {0})
  print_as p v Printed.refused = errorf (lit "can'e print %s of type %s")
  print_as p v Printed.missing =
      gets (λ st. r.print_missing p st.world v) >>= λ t. write (lit "ERR" ++ t)
  print_as p v (Printed.text t) = write t

  -- `printValue`.
  unfoldable pub print_value : Pipeline C → V → M V W (Unit {0})
  unfolding ◌>>=◌ gets panic lit write
  print_value p v = gets (λ st. r.print st.world v) >>= print_as p v

  -- An action that declares variables prints nothing.
  abbrev pub print_undeclared : Pipeline C → List Text → V → M V W (Unit {0})
  print_undeclared p [] v = print_value p v
  print_undeclared p (x ∷ xs) v = pure tt

  -- The variables of a range, for one element.
  abbrev pub set_range_vars : ℕ → List Text → V → V → M V W (Unit {0})
  set_range_vars s [] index elem = pure tt
  set_range_vars s (x ∷ []) index elem = modify (set_var_value r.spare s x elem)
  set_range_vars s (x ∷ y ∷ ys) index elem =
      modify (set_var_value r.spare s x index) >> modify (set_var_value r.spare s y elem)

  abbrev pub push_all : ℕ → List Text → M V W (Unit {0})
  push_all s [] = pure tt
  push_all s (x ∷ xs) = modify (push r.spare s x r.zero) >> push_all s xs

  -- The loops of walkRange, with what is done for an index and an element.
  module _ (body : V → V → M V W (Unit {0})) where
    unfoldable pub each_index : ℕ → ℕ → (ℕ → W → V) → M V W (Unit {0})
    unfolding ◌>>=◌ gets pure
    each_index zero i get = pure tt
    each_index (suc left) i get =
        gets (λ st. get i st.world) >>= (λ v. body (r.int i) v >> each_index left (suc i) get)

    abbrev pub member_round : Text → (Text → W → V × W) → Bool → M V W (Unit {0})
    member_round k member false = pure tt
    member_round k member true = with_world (member k) >>= body (r.string k)

    unfoldable pub each_member :
        List Text → (Text → W → Bool × W) → (Text → W → V × W) → M V W (Unit {0})
    unfolding ◌>>=◌ with_world pure
    each_member [] has member = pure tt
    each_member (k ∷ ks) has member =
        with_world (has k) >>= member_round k member >> each_member ks has member

    unfoldable pub each_key : List V → (V → W → V) → M V W (Unit {0})
    unfolding ◌>>=◌ gets pure
    each_key [] get = pure tt
    each_key (k ∷ ks) get = gets (λ st. get k st.world) >>= body k >> each_key ks get

    unfoldable pub each_received : ℕ → List V → M V W (Unit {0})
    unfolding ◌>>=◌ pure
    each_received i [] = pure tt
    each_received i (v ∷ vs) = body (r.int i) v >> each_received (suc i) vs

    abbrev pub while_round : Option Bool → M V W (Unit {0}) → M V W (Unit {0})
    while_round none again = panic Panic.runtime_error
    while_round (some false) again = pure tt
    while_round (some true) again = again

    unfoldable pub while_true : ℕ → ℕ → M V W V → V → M V W (Unit {0})
    unfolding ◌>>=◌ pure panic lit
    while_true zero i condition v = errorf (lit "max iteration of 10000 in while loop")
    while_true (suc left) i condition v =
        let next = while_true left (suc i) condition in
        while_round (r.bool_of v) (body (r.int i) v >> (condition >>= next))

    -- The iteration, and the else branch where there is nothing to go over.
    unfoldable pub range_over : M V W V → M V W (Unit {0}) → Ranged V W → M V W (Unit {0})
    unfolding ◌>>=◌ pure panic lit each_index each_member each_key each_received while_true
    range_over condition orelse Ranged.invalid = orelse
    range_over condition orelse (Ranged.slice zero get) = orelse
    range_over condition orelse (Ranged.slice (suc n) get) = each_index (suc n) 0 get
    range_over condition orelse (Ranged.ordered k ks has member) = each_member (k ∷ ks) has member
    range_over condition orelse (Ranged.keys [] get) = orelse
    range_over condition orelse (Ranged.keys (k ∷ ks) get) = each_key (k ∷ ks) get
    range_over condition orelse (Ranged.channel []) = orelse
    range_over condition orelse (Ranged.channel (x ∷ xs)) = each_received 0 (x ∷ xs)
    range_over condition orelse (Ranged.bool b) = while_true max_rounds 0 condition b
    range_over condition orelse Ranged.other = errorf (lit "range can'e iterate over %v")

  -- `recover` in walkTry, with what the catch clause does.
  abbrev pub recover : ℕ → Text → M V W (Unit {0}) → Outcome V W (Unit {0}) → Outcome V W (Unit {0})
  recover s x handler (Outcome.returned st u) = Outcome.returned st u
  recover s [] handler (Outcome.panicked st p) = handler st
  recover s (c ∷ x) handler (Outcome.panicked st p) =
      (modify (set_var_value r.spare s (lit "$" ++ (c ∷ x)) (r.exception p)) >> handler) st
  recover s x handler Outcome.out_of_fuel = Outcome.out_of_fuel

  unfoldable pub try_catch : ℕ → Text → M V W (Unit {0}) → M V W (Unit {0}) → M V W (Unit {0})
  unfolding ◌>>=◌ modify set_var_value lit
  try_catch s x body handler st = recover s x handler (body st)

  abbrev pub branch : Option Bool → M V W (Unit {0}) → M V W (Unit {0}) → M V W (Unit {0})
  branch none taken orelse = errorf (lit "if/with can'e use %v")
  branch (some true) taken orelse = taken
  branch (some false) taken orelse = orelse

  -- The truth of a value decides.
  unfoldable pub if_true : V → M V W (Unit {0}) → M V W (Unit {0}) → M V W (Unit {0})
  unfolding ◌>>=◌ gets panic lit
  if_true v taken orelse = gets (λ st. r.is_true st.world v) >>= (λ t. branch t taken orelse)
