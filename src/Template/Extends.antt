-- ===== src/Template/Extends.antt =====
-- Runs that differ only where one stops for want of fuel: the branches and loops of a template
-- (pugjs/tpl_exec.go) over such runs.
use pugtemplate.Common.{
  Text, lit, ℕ, zero, suc, Bool, true, false, List, [], ◌∷◌, ◌++◌, Option, none, some, ◌≡◌, refl,
  ap, ◌∙◌, if◌then◌else◌, ◌⊎◌, inl, inr,
}
use pugtemplate.Template.State.{Store, Outcome, M, continue, modify, ◌>>=◌, gets, with_world}
use pugtemplate.Template.Variables.{set_var_value}
use pugtemplate.Template.Reflection.{Reflection, Ranged}
use pugtemplate.Template.Control.{
  max_rounds, each_index, member_round, each_member, each_key, each_received, while_round,
  while_true, range_over, recover, try_catch, branch, if_true,
}

module _ {V W : Type 0} where
  -- Wherever the first run does not stop for want of fuel, the second one is the same.
  pub record Extends {A : Type 0} (m n : M V W A) : Type 0 where
    pub run : (st : Store V W) → (m st ≡ Outcome.out_of_fuel) ⊎ (m st ≡ n st)

  pub same-Extends : {A : Type 0} (m : M V W A) → Extends m m
  same-Extends m = record { run = λ st. inr refl }

  after-Extends :
      {A B : Type 0} (o : Outcome V W A) (k l : A → M V W B)
      → ((a : A) → Extends (k a) (l a))
      → (continue o k ≡ Outcome.out_of_fuel) ⊎ (continue o k ≡ continue o l)
  after-Extends (Outcome.returned st a) k l h = (h a).run st
  after-Extends (Outcome.panicked st p) k l h = inr refl
  after-Extends Outcome.out_of_fuel k l h = inr refl

  pub bind-Extends :
      {A B : Type 0} {m n : M V W A} {k l : A → M V W B}
      → Extends m n
      → ((a : A) → Extends (k a) (l a))
      → Extends (m >>= k) (n >>= l)
  unfolding ◌>>=◌
  bind-Extends {m = m} {n = n} {k = k} {l = l} h hs = record {
    run = λ st. elim (h.run st) [
      | inl e ↦ inl (ap (λ o. continue o k) e)
      | inr e ↦ rw e (after-Extends (n st) k l hs)
    ];
  }

  pub then-Extends :
      {A B : Type 0} (m : M V W A) {k l : A → M V W B}
      → ((a : A) → Extends (k a) (l a))
      → Extends (m >>= k) (m >>= l)
  then-Extends m h = bind-Extends (same-Extends m) h

  pub if-Extends :
      {A : Type 0} (b : Bool) (m : M V W A) {k l : M V W A}
      → Extends k l
      → Extends (if b then m else k) (if b then m else l)
  if-Extends true m h = same-Extends m
  if-Extends false m h = h

module _ {V W C : Type 0} (r : Reflection V W C) where
  module _ (body more : V → V → M V W (Unit {0}))
      (bodies : (index elem : V) → Extends (body index elem) (more index elem)) where
    each_index-Extends :
        (left i : ℕ) (get : ℕ → W → V)
        → Extends (each_index r body left i get) (each_index r more left i get)
    unfolding each_index
    each_index-Extends zero i get = same-Extends _
    each_index-Extends (suc left) i get =
        then-Extends (gets λ st. get i st.world)
          λ v. bind-Extends (bodies (r.int i) v) λ u. each_index-Extends left (suc i) get

    member_round-Extends :
        (k : Text) (member : Text → W → V × W) (b : Bool)
        → Extends (member_round r body k member b) (member_round r more k member b)
    member_round-Extends k member false = same-Extends _
    member_round-Extends k member true = then-Extends (with_world (member k)) (bodies (r.string k))

    each_member-Extends :
        (ks : List Text) (has : Text → W → Bool × W) (member : Text → W → V × W)
        → Extends (each_member r body ks has member) (each_member r more ks has member)
    unfolding each_member
    each_member-Extends [] has member = same-Extends _
    each_member-Extends (k ∷ ks) has member =
        bind-Extends (then-Extends (with_world (has k)) (member_round-Extends k member))
          λ u. each_member-Extends ks has member

    each_key-Extends :
        (ks : List V) (get : V → W → V) → Extends (each_key r body ks get) (each_key r more ks get)
    unfolding each_key
    each_key-Extends [] get = same-Extends _
    each_key-Extends (k ∷ ks) get =
        bind-Extends (then-Extends (gets λ st. get k st.world) (bodies k))
          λ u. each_key-Extends ks get

    each_received-Extends :
        (i : ℕ) (vs : List V) → Extends (each_received r body i vs) (each_received r more i vs)
    unfolding each_received
    each_received-Extends i [] = same-Extends _
    each_received-Extends i (v ∷ vs) =
        bind-Extends (bodies (r.int i) v) λ u. each_received-Extends (suc i) vs

    while_round-Extends :
        (b : Option Bool) {k l : M V W (Unit {0})}
        → Extends k l
        → Extends (while_round r body b k) (while_round r more b l)
    while_round-Extends none h = same-Extends _
    while_round-Extends (some false) h = same-Extends _
    while_round-Extends (some true) h = h

    while_true-Extends :
        (left i : ℕ) (condition : M V W V) (v : V)
        → Extends (while_true r body left i condition v) (while_true r more left i condition v)
    unfolding while_true
    while_true-Extends zero i condition v = same-Extends _
    while_true-Extends (suc left) i condition v = while_round-Extends (r.bool_of v) (
        bind-Extends (bodies (r.int i) v)
          λ u. then-Extends condition (while_true-Extends left (suc i) condition))

    pub range_over-Extends :
        (condition : M V W V) (k l : M V W (Unit {0})) (x : Ranged V W)
        → Extends k l
        → Extends (range_over r body condition k x) (range_over r more condition l x)
    unfolding range_over
    range_over-Extends condition k l Ranged.invalid h = h
    range_over-Extends condition k l (Ranged.slice zero get) h = h
    range_over-Extends condition k l (Ranged.slice (suc n) get) h = each_index-Extends (suc n) 0 get
    range_over-Extends condition k l (Ranged.ordered x xs has member) h =
        each_member-Extends (x ∷ xs) has member
    range_over-Extends condition k l (Ranged.keys [] get) h = h
    range_over-Extends condition k l (Ranged.keys (x ∷ xs) get) h = each_key-Extends (x ∷ xs) get
    range_over-Extends condition k l (Ranged.channel []) h = h
    range_over-Extends condition k l (Ranged.channel (x ∷ xs)) h = each_received-Extends 0 (x ∷ xs)
    range_over-Extends condition k l (Ranged.bool b) h = while_true-Extends max_rounds 0 condition b
    range_over-Extends condition k l Ranged.other h = same-Extends _

  recover-Extends :
      (s : ℕ) (x : Text) (k l : M V W (Unit {0})) (o : Outcome V W (Unit {0}))
      → Extends k l
      → (recover r s x k o ≡ Outcome.out_of_fuel) ⊎ (recover r s x k o ≡ recover r s x l o)
  recover-Extends s x k l (Outcome.returned st u) h = inr refl
  recover-Extends s [] k l (Outcome.panicked st p) h = h.run st
  recover-Extends s (c ∷ x) k l (Outcome.panicked st p) h =
      (then-Extends (modify (set_var_value r.spare s (lit "$" ++ (c ∷ x)) (r.exception p)))
          λ u. h).run
        st
  recover-Extends s [] k l Outcome.out_of_fuel h = inr refl
  recover-Extends s (c ∷ x) k l Outcome.out_of_fuel h = inr refl

  recover-stops :
      (s : ℕ) (x : Text) (k : M V W (Unit {0}))
      → recover r s x k Outcome.out_of_fuel ≡ Outcome.out_of_fuel
  recover-stops s [] k = refl
  recover-stops s (c ∷ x) k = refl

  pub try_catch-Extends :
      (s : ℕ) (x : Text) (m n k l : M V W (Unit {0}))
      → Extends m n
      → Extends k l
      → Extends (try_catch r s x m k) (try_catch r s x n l)
  unfolding try_catch
  try_catch-Extends s x m n k l h hs = record {
    run = λ st. elim (h.run st) [
      | inl e ↦ inl (ap (recover r s x k) e ∙ recover-stops s x k)
      | inr e ↦ rw e (recover-Extends s x k l (n st) hs)
    ];
  }

  branch-Extends :
      (b : Option Bool) {m n k l : M V W (Unit {0})}
      → Extends m n
      → Extends k l
      → Extends (branch r b m k) (branch r b n l)
  branch-Extends none h hs = same-Extends _
  branch-Extends (some true) h hs = h
  branch-Extends (some false) h hs = hs

  pub if_true-Extends :
      (v : V) (m n k l : M V W (Unit {0}))
      → Extends m n
      → Extends k l
      → Extends (if_true r v m k) (if_true r v n l)
  unfolding if_true
  if_true-Extends v m n k l h hs =
      then-Extends (gets λ st. r.is_true st.world v) λ t. branch-Extends t h hs
