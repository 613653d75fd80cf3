-- ===== src/Engine/Counts.antt =====
-- How many tasks hold an entry of the channel, and how many are under the lock.
use pugtemplate.Common.{
  ℕ, ◌+◌, ◌≤◌, Bool, true, false, List, [], ◌∷◌, ◌++◌, Option, none, some, ◌≡◌, ◌==◌, ltb,
  if◌then◌else◌, arith, refl, Bool-cases, inl, inr, ◌&&◌, Text,
}
use pugtemplate.Engine.State.{
  Engine, Templates, Call, Task, Choice, Caller, Answer, move, enter, check_loaded, begin_load,
  finish_load, look_up, release, leave, go_on, find_template, is_empty,
}

abbrev pub request_holds : Caller → ℕ
request_holds (Caller.request n) = 1
request_holds Caller.startup = 0

-- The entries that a task will take out when it returns.
abbrev pub holds : Task → ℕ
holds (Task.arrived n) = 0
holds (Task.admitted n) = 1
holds (Task.wants_load k filter) = request_holds k
holds (Task.loading k) = request_holds k
holds (Task.ready n) = 1
holds (Task.executing t) = 1
holds (Task.finished a) = 0

abbrev pub writes : Task → ℕ
writes (Task.loading k) = 1
writes _ = 0

abbrev pub count : (Task → ℕ) → List Task → ℕ
count f [] = 0
count f (t ∷ ts) = f t + count f ts

pub count-at :
    (f : Task → ℕ) (before : List Task) (t : Task) (after : List Task)
    → count f (before ++ (t ∷ after)) ≡ f t + (count f before + count f after)
count-at f [] t after = omega arith
count-at f (b ∷ before) t after = omega (arith, count-at f before t after)

abbrev pub bit : Bool → ℕ
bit true = 1
bit false = 0

-- What a step of a task does to the counts: the limit stays, the entries and the lock follow the
-- task that moved.
pub record IsBalanced (e : Engine) (t : Task) (e' : Engine) (t' : Task) : Type 0 where
  pub limit : e'.rate_limit ≡ e.rate_limit
  pub entries : (e.rate_limit == 0) ≡ false → e'.tokens + holds t ≡ e.tokens + holds t'
  pub bounded : e.tokens ≤ e.rate_limit → e'.tokens ≤ e.rate_limit
  pub writers : bit e'.locked + writes t ≡ bit e.locked + writes t'

abbrev pub Balances : Engine → Task → Engine × Task → Type 0
Balances e t r = IsBalanced e t r.0 r.1

abbrev pub BalancesIf : Engine → Task → Option (Engine × Task) → Type 0
BalancesIf e t none = Unit
BalancesIf e t (some r) = Balances e t r

-- A request leaves.
release-IsBalanced :
    (e : Engine) (t : Task) (a : Answer)
    → holds t ≡ 1
    → writes t ≡ 0
    → ((e.rate_limit == 0) ≡ false → 1 ≤ e.tokens)
    → IsBalanced e t (release e) (Task.finished a)
unfolding release
release-IsBalanced e t a o w h = record {
  limit = ground arith;
  entries = λ z. ground (arith, h z);
  bounded = λ b. ground arith;
  writers = ground arith;
}

-- A step that changes neither the entries nor the lock.
still-IsBalanced :
    (e : Engine) (t t' : Task) → holds t ≡ holds t' → writes t ≡ writes t' → IsBalanced e t e t'
still-IsBalanced e t t' o w = record {
  limit = refl;
  entries = λ z. omega (arith, o);
  bounded = λ b. b;
  writers = omega (arith, w);
}

enter-BalancesIf :
    (c : Choice) (n : Text) (e : Engine) → BalancesIf e (Task.arrived n) (enter c n e)
unfolding enter
enter-BalancesIf c n e = elim (Bool-cases (e.rate_limit == 0)) [
  | inl z ↦ rw z (record {
    limit = refl;
    entries = λ f. absurd (ground (arith, z, f));
    bounded = λ b. b;
    writers = refl;
  })
  | inr z ↦ rw z (elim (Bool-cases c.done) [
    | inl d ↦ rw d (still-IsBalanced e _ _ refl refl)
    | inr d ↦ rw d (elim (Bool-cases (ltb e.tokens e.rate_limit)) [
      | inl l ↦ rw l (record {
        limit = refl;
        entries = λ f. omega arith;
        bounded = λ b. ground (arith, l);
        writers = refl;
      })
      | inr l ↦ rw l tt
    ])
  ])
]

check_loaded-IsBalanced :
    (n : Text) (e : Engine) → IsBalanced e (Task.admitted n) e (check_loaded n e)
unfolding check_loaded
check_loaded-IsBalanced n e = still-IsBalanced e _ (check_loaded n e) (ground arith) (ground arith)

if-BalancesIf :
    (e : Engine) (t : Task) (b : Bool) (x y : Option (Engine × Task))
    → BalancesIf e t x
    → (b ≡ false → BalancesIf e t y)
    → BalancesIf e t (if b then x else y)
if-BalancesIf e t true x y h k = h
if-BalancesIf e t false x y h k = k refl

leave-Balances :
    (k : Caller) (filter : Text) (e : Engine)
    → ((e.rate_limit == 0) ≡ false → request_holds k ≤ e.tokens)
    → Balances e (Task.wants_load k filter) (leave k Answer.loaded_before e)
unfolding leave
leave-Balances (Caller.request n) filter e h =
    release-IsBalanced e (Task.wants_load (Caller.request n) filter) _ refl refl h
leave-Balances Caller.startup filter e h = still-IsBalanced e _ _ refl refl

begin_load-BalancesIf :
    (k : Caller) (filter : Text) (e : Engine)
    → ((e.rate_limit == 0) ≡ false → request_holds k ≤ e.tokens)
    → BalancesIf e (Task.wants_load k filter) (begin_load k filter e)
unfolding begin_load
begin_load-BalancesIf k filter e h = if-BalancesIf e _ e.locked _ _ tt λ l.
    if-BalancesIf e _ (e.templates_loaded && is_empty filter) _ _ (leave-Balances k filter e h) λ b.
      record { limit = refl; entries = λ f. refl; bounded = λ f. f; writers = ground (arith, l) }

finish_load-Balances :
    (k : Caller) (o : Call (Option Templates)) (e : Engine)
    → ((e.rate_limit == 0) ≡ false → request_holds k ≤ e.tokens)
    → 1 ≤ bit e.locked
    → Balances e (Task.loading k) (finish_load k o e)
unfolding finish_load leave go_on release
finish_load-Balances (Caller.request n) Call.panics e h l = record {
  limit = ground arith;
  entries = λ z. ground (arith, h z);
  bounded = λ b. ground arith;
  writers = ground (arith, l);
}
finish_load-Balances Caller.startup Call.panics e h l = record {
  limit = refl;
  entries = λ z. refl;
  bounded = λ b. b;
  writers = ground (arith, l);
}
finish_load-Balances (Caller.request n) (Call.returns none) e h l = record {
  limit = ground arith;
  entries = λ z. ground (arith, h z);
  bounded = λ b. ground arith;
  writers = ground (arith, l);
}
finish_load-Balances Caller.startup (Call.returns none) e h l = record {
  limit = refl;
  entries = λ z. refl;
  bounded = λ b. b;
  writers = ground (arith, l);
}
finish_load-Balances (Caller.request n) (Call.returns (some ts)) e h l = record {
  limit = refl;
  entries = λ z. refl;
  bounded = λ b. b;
  writers = ground (arith, l);
}
finish_load-Balances Caller.startup (Call.returns (some ts)) e h l = record {
  limit = refl;
  entries = λ z. refl;
  bounded = λ b. b;
  writers = ground (arith, l);
}

look_up-Balances :
    (n : Text) (o : Option Text) (e : Engine)
    → ((e.rate_limit == 0) ≡ false → 1 ≤ e.tokens)
    → Balances e (Task.ready n) (look_up o e)
unfolding look_up
look_up-Balances n none e h = release-IsBalanced e (Task.ready n) _ refl refl h
look_up-Balances n (some t) e h = still-IsBalanced e _ _ refl refl

-- Every step of every task keeps the balance, if the task has its entry and its lock.
pub move-BalancesIf :
    (c : Choice) (e : Engine) (t : Task)
    → ((e.rate_limit == 0) ≡ false → holds t ≤ e.tokens)
    → writes t ≤ bit e.locked
    → BalancesIf e t (move c e t)
unfolding move
move-BalancesIf c e (Task.arrived n) h w = enter-BalancesIf c n e
move-BalancesIf c e (Task.admitted n) h w = check_loaded-IsBalanced n e
move-BalancesIf c e (Task.wants_load k filter) h w = begin_load-BalancesIf k filter e h
move-BalancesIf c e (Task.loading k) h w = finish_load-Balances k c.compiled e h w
move-BalancesIf c e (Task.ready n) h w =
    if-BalancesIf e _ e.locked _ _ tt λ l. look_up-Balances n (find_template n e.templates) e h
move-BalancesIf c e (Task.executing t) h w = release-IsBalanced e (Task.executing t) _ refl refl h
move-BalancesIf c e (Task.finished a) h w = tt
