-- ===== src/Engine/Progress.antt =====
-- No interleaving blocks the engine.
use pugtemplate.Common.{
  ℤ, Text, Bool, true, false, ◌&&◌, List, [], ◌∷◌, ◌++◌, Option, none, some, ◌≡◌, ◌⊎◌, inl, inr,
  ◌==◌, ltb, if◌then◌else◌, arith, refl, subst, All, Bool-cases, Option-cases,
}
use pugtemplate.Engine.State.{
  Engine, Task, Caller, System, Choice, Reachable, move, enter, begin_load, is_empty, inject,
  new_engine,
}
use pugtemplate.Engine.Counts.{holds, writes, count, bit}
use pugtemplate.Engine.Limit.{Reachable-IsSound}

abbrev pub IsFinished : Task → Type 0
IsFinished (Task.finished a) = Unit
IsFinished _ = ⊥

-- A task that stands before the limit or has returned.
abbrev IsOutside : Task → Type 0
IsOutside (Task.arrived n) = Unit
IsOutside (Task.finished a) = Unit
IsOutside _ = ⊥

-- A task can go on without its context being done, whatever compileDir and the execution come to.
abbrev pub CanMove : Engine → Task → Type 0
CanMove e t = (c : Choice) → c.done ≡ false → (r : Engine × Task) × (move c e t ≡ some r)

-- One that has a property among several, or all have the other.
abbrev pub Somewhere : (Task → Type 0) → List Task → Type 0
Somewhere P ts =
    (before : List Task) × (t : Task) × (after : List Task) × (before ++ (t ∷ after) ≡ ts) × P t

module _ {P Q : Task → Type 0} (either : (t : Task) → P t ⊎ Q t) where
  search_tasks : (ts : List Task) → Somewhere P ts ⊎ All Q ts
  search_tasks [] = inr tt
  search_tasks (t ∷ ts) = elim (either t) [
    | inl p ↦ inl ([], t, ts, refl, p)
    | inr q ↦ elim (search_tasks ts) [
      | inl (before, u, after, e, p) ↦ inl (t ∷ before, u, after, rw e refl, p)
      | inr qs ↦ inr (q, qs)
    ]
  ]

-- Under the lock, the one that holds it can go on.
abbrev IsWriter : Task → Type 0
IsWriter t = (k : Caller) × (t ≡ Task.loading k)

IsWriter-or_not : (t : Task) → IsWriter t ⊎ (writes t ≡ 0)
IsWriter-or_not (Task.arrived n) = inr refl
IsWriter-or_not (Task.admitted n) = inr refl
IsWriter-or_not (Task.wants_load k f) = inr refl
IsWriter-or_not (Task.loading k) = inl (k, refl)
IsWriter-or_not (Task.ready n) = inr refl
IsWriter-or_not (Task.executing t) = inr refl
IsWriter-or_not (Task.finished a) = inr refl

no_writers : (ts : List Task) → All (λ t. writes t ≡ 0) ts → count writes ts ≡ 0
no_writers [] h = refl
no_writers (t ∷ ts) (h, hs) = omega (arith, h, no_writers ts hs)

abbrev IsSome : Option (Engine × Task) → Type 0
IsSome none = ⊥
IsSome (some r) = Unit

either-IsSome : (b : Bool) (x y : Engine × Task) → IsSome (if b then some x else some y)
either-IsSome true x y = tt
either-IsSome false x y = tt

-- A free lock is taken; a free place in the channel is taken.
begin_load-IsSome :
    (k : Caller) (f : Text) (e : Engine) → e.locked ≡ false → IsSome (begin_load k f e)
unfolding begin_load
begin_load-IsSome k f e l = rw l (either-IsSome (e.templates_loaded && is_empty f) _ _)

enter-IsSome :
    (c : Choice) (n : Text) (e : Engine)
    → c.done ≡ false
    → ((e.rate_limit == 0) ≡ false → e.tokens ≡ 0)
    → IsSome (enter c n e)
unfolding enter
enter-IsSome c n e d h = elim (Bool-cases (e.rate_limit == 0)) [
  | inl z ↦ rw z tt
  | inr z ↦
      let free : ltb e.tokens e.rate_limit ≡ true = ground (arith, h z, z) in rw (z, d, free) tt
]

IsSome-CanMove :
    (e : Engine) (t : Task) → ((c : Choice) → c.done ≡ false → IsSome (move c e t)) → CanMove e t
IsSome-CanMove e t h c d = elim (Option-cases (move c e t)) [
  | inl n ↦ absurd (subst IsSome n (h c d))
  | inr found ↦ found
]

writer-CanMove : (e : Engine) (t : Task) → IsWriter t → CanMove e t
unfolding move
writer-CanMove e t (k, h) = IsSome-CanMove e t λ c d. rw h tt

locked-progress :
    (e : Engine) (ts : List Task)
    → count writes ts ≡ bit e.locked
    → e.locked ≡ true
    → Somewhere (CanMove e) ts
locked-progress e ts w l = elim (search_tasks {Q = λ t. writes t ≡ 0} IsWriter-or_not ts) [
  | inl (before, t, after, h, p) ↦ (before, t, after, h, writer-CanMove e t p)
  | inr none_writes ↦ absurd (ground (arith, no_writers ts none_writes))
]

-- Without the lock, every task past the limit can go on.
CanMove-or_IsOutside : (e : Engine) → e.locked ≡ false → (t : Task) → CanMove e t ⊎ IsOutside t
unfolding move
CanMove-or_IsOutside e l (Task.arrived n) = inr tt
CanMove-or_IsOutside e l (Task.admitted n) = inl λ c d. (_, refl)
CanMove-or_IsOutside e l (Task.wants_load k f) =
    inl (IsSome-CanMove e (Task.wants_load k f) λ c d. begin_load-IsSome k f e l)
CanMove-or_IsOutside e l (Task.loading k) = inl λ c d. (_, refl)
CanMove-or_IsOutside e l (Task.ready n) = inl (IsSome-CanMove e (Task.ready n) λ c d. rw l tt)
CanMove-or_IsOutside e l (Task.executing t) = inl λ c d. (_, refl)
CanMove-or_IsOutside e l (Task.finished a) = inr tt

outside_holds : (ts : List Task) → All IsOutside ts → count holds ts ≡ 0
outside_holds [] h = refl
outside_holds (Task.arrived n ∷ ts) (h, hs) = omega (arith, outside_holds ts hs)
outside_holds (Task.finished a ∷ ts) (h, hs) = omega (arith, outside_holds ts hs)
outside_holds (Task.admitted n ∷ ts) (h, hs) = absurd h
outside_holds (Task.wants_load k f ∷ ts) (h, hs) = absurd h
outside_holds (Task.loading k ∷ ts) (h, hs) = absurd h
outside_holds (Task.ready n ∷ ts) (h, hs) = absurd h
outside_holds (Task.executing t ∷ ts) (h, hs) = absurd h

IsOutside-or_IsFinished :
    (t : Task) → IsOutside t → ((n : Text) × (t ≡ Task.arrived n)) ⊎ IsFinished t
IsOutside-or_IsFinished (Task.arrived n) h = inl (n, refl)
IsOutside-or_IsFinished (Task.finished a) h = inr tt
IsOutside-or_IsFinished (Task.admitted n) h = absurd h
IsOutside-or_IsFinished (Task.wants_load k f) h = absurd h
IsOutside-or_IsFinished (Task.loading k) h = absurd h
IsOutside-or_IsFinished (Task.ready n) h = absurd h
IsOutside-or_IsFinished (Task.executing t) h = absurd h

-- With an empty channel a request can enter.
arrived-CanMove :
    (e : Engine) (n : Text)
    → ((e.rate_limit == 0) ≡ false → e.tokens ≡ 0)
    → CanMove e (Task.arrived n)
unfolding move
arrived-CanMove e n h = IsSome-CanMove e (Task.arrived n) λ c d. enter-IsSome c n e d h

outside-progress :
    (e : Engine) (ts : List Task)
    → ((e.rate_limit == 0) ≡ false → e.tokens ≡ 0)
    → All IsOutside ts
    → All IsFinished ts ⊎ Somewhere (CanMove e) ts
outside-progress e [] h all = inl tt
outside-progress e (t ∷ ts) h (o, os) = elim (IsOutside-or_IsFinished t o) [
  | inl (n, a) ↦ inr ([], t, ts, refl, rw a (arrived-CanMove e n h))
  | inr f ↦ elim (outside-progress e ts h os) [
    | inl fs ↦ inl (f, fs)
    | inr (before, u, after, m, p) ↦ inr (t ∷ before, u, after, rw m refl, p)
  ]
]

unlocked-progress :
    (e : Engine) (ts : List Task)
    → ((e.rate_limit == 0) ≡ false → e.tokens ≡ count holds ts)
    → e.locked ≡ false
    → All IsFinished ts ⊎ Somewhere (CanMove e) ts
unlocked-progress e ts o l = elim (search_tasks {Q = IsOutside} (CanMove-or_IsOutside e l) ts) [
  | inl found ↦ inr found
  | inr outside ↦
      elim (outside-progress e ts (λ z. omega (arith, o z, outside_holds ts outside)) outside) [
        | inl fs ↦ inl fs
        | inr found ↦ inr found
      ]
]

-- No deadlock: in whatever state the engine is after some interleaving of requests and startup,
-- every goroutine has returned, or there is one that can go on without its context being done,
-- whatever compileDir and the executions come to.
pub Reachable-progress :
    (limit : ℤ) (debug : Bool) (s : System)
    → Reachable (inject limit (new_engine debug)) s
    → All IsFinished s.tasks ⊎ Somewhere (CanMove s.engine) s.tasks
Reachable-progress limit debug s h =
    let p = Reachable-IsSound limit debug s h in
    elim (Bool-cases s.engine.locked) [
      | inl l ↦ inr (locked-progress s.engine s.tasks p.writers l)
      | inr l ↦ unlocked-progress s.engine s.tasks p.entries l
    ]
