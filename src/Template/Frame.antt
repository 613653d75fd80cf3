-- ===== src/Template/Frame.antt =====
-- What the execution of a template (pugjs/tpl_exec.go) keeps of the store: relations between the
-- store before and after, that the single changes respect, hold of whole runs.
pub mod Calls
pub mod Eval
pub mod Control
pub mod Walk
use pugtemplate.Common.{
  Text, lit, ℕ, Bool, true, false, Option, none, some, ◌++◌, if◌then◌else◌, ◌≡◌,
}
use pugtemplate.Template.State.{
  Store, Panic, Outcome, M, continue, ◌>>=◌, ◌>>◌, pure, panic, gets, modify, with_world,
}
use pugtemplate.Template.Variables.{push, set_var_value, freeze}
use pugtemplate.Template.Reflection.{Reflection}

module _ {V W A : Type 0} where
  -- The store after a run that returned or panicked; `U` is what is known of one out of fuel.
  abbrev pub After : Type 0 → (Store V W → Store V W → Type 0) → Store V W → Outcome V W A → Type 0
  After U R st (Outcome.returned st' a) = R st st'
  After U R st (Outcome.panicked st' p) = R st st'
  After U R st Outcome.out_of_fuel = U

module _ {V W C : Type 0} where
  -- `P` is what a run in a state relies on, `R` relates the stores before and after, and `Ok` holds
  -- of the names that may be called.
  pub record Frame (r : Reflection V W C) : Type 1 where
    pub U : Type 0
    pub P : ℕ → Store V W → Type 0
    pub R : Store V W → Store V W → Type 0
    pub Ok : Text → Type 0
    pub same : (st : Store V W) → R st st
    pub trans : (a b c : Store V W) → R a b → R b c → R a c
    pub keep : (s : ℕ) (a b : Store V W) → P s a → R a b → P s b
    pub worlds : (st : Store V W) (w : W) → R st (record st { world = w })
    pub outputs : (st : Store V W) (t : Text) → R st (record st { output = st.output ++ t })
    pub sets :
        (s : ℕ) (n : Text) (v : V) (st : Store V W) → P s st → R st (set_var_value r.spare s n v st)
    pub pushes : (s : ℕ) (n : Text) (v : V) (st : Store V W) → P s st → R st (push r.spare s n v st)
    pub freezes :
        (s : ℕ) (n : Text) (st : Store V W)
        → Ok (lit "__freeze")
        → P s st
        → R st (freeze r.spare s n st)

  module _ {r : Reflection V W C} (F : Frame r) where
    pub record Keeps {A : Type 0} (s : ℕ) (m : M V W A) : Type 0 where
      pub run : (st : Store V W) → F.P s st → After F.U F.R st (m st)

    pub after-After :
        {A : Type 0} (a b : Store V W) (o : Outcome V W A)
        → F.R a b
        → After F.U F.R b o
        → After F.U F.R a o
    after-After a b (Outcome.returned c x) h k = F.trans a b c h k
    after-After a b (Outcome.panicked c p) h k = F.trans a b c h k
    after-After a b Outcome.out_of_fuel h k = k

    pub continue-After :
        {A B : Type 0} (s : ℕ) (st : Store V W) (o : Outcome V W A) (k : A → M V W B)
        → F.P s st
        → After F.U F.R st o
        → ((a : A) → Keeps s (k a))
        → After F.U F.R st (continue o k)
    continue-After s st (Outcome.returned st' a) k p h ks =
        after-After st st' (k a st') h ((ks a).run st' (F.keep s st st' p h))
    continue-After s st (Outcome.panicked st' e) k p h ks = h
    continue-After s st Outcome.out_of_fuel k p h ks = h

    pub bind-Keeps :
        {A B : Type 0} {s : ℕ} {m : M V W A} {k : A → M V W B}
        → Keeps s m
        → ((a : A) → Keeps s (k a))
        → Keeps s (m >>= k)
    unfolding ◌>>=◌
    bind-Keeps {s = s} {m = m} {k = k} h ks = record {
      run = λ st p. continue-After s st (m st) k p (h.run st p) ks;
    }

    pub pure-Keeps : {A : Type 0} {s : ℕ} (a : A) → Keeps s (pure a)
    unfolding pure
    pure-Keeps a = record { run = λ st p. F.same st }

    pub panic-Keeps : {A : Type 0} {s : ℕ} (e : Panic V) → Keeps {A = A} s (panic e)
    unfolding panic
    panic-Keeps e = record { run = λ st p. F.same st }

    pub gets-Keeps : {A : Type 0} {s : ℕ} (f : Store V W → A) → Keeps s (gets f)
    unfolding gets
    gets-Keeps f = record { run = λ st p. F.same st }

    pub with_world-Keeps : {A : Type 0} {s : ℕ} (f : W → A × W) → Keeps s (with_world f)
    unfolding with_world
    with_world-Keeps f = record { run = λ st p. F.worlds st (f st.world).1 }

    pub set_world-Keeps :
        {s : ℕ} (w : W) → Keeps s (modify λ (st : Store V W). record st { world = w })
    unfolding modify
    set_world-Keeps w = record { run = λ st p. F.worlds st w }

    pub set_var_value-Keeps :
        {s : ℕ} (n : Text) (v : V) → Keeps s (modify (set_var_value r.spare s n v))
    unfolding modify
    set_var_value-Keeps {s = s} n v = record { run = λ st p. F.sets s n v st p }

    pub push-Keeps : {s : ℕ} (n : Text) (v : V) → Keeps s (modify (push r.spare s n v))
    unfolding modify
    push-Keeps {s = s} n v = record { run = λ st p. F.pushes s n v st p }

    pub if-Keeps :
        {A : Type 0} {s : ℕ} (b : Bool) {m n : M V W A}
        → Keeps s m
        → Keeps s n
        → Keeps s (if b then m else n)
    if-Keeps true h k = h
    if-Keeps false h k = k
