-- ===== src/Engine/Settles.antt =====
-- Every state of the engine comes to rest (pugjs/engine.go).
use pugtemplate.Common.{
  ℤ, ℕ, zero, suc, ◌<◌, Bool, false, List, [], ◌∷◌, ◌++◌, some, ◌≡◌, ◌==◌, All, arith, refl, sym,
  subst, inl, inr,
}
use pugtemplate.Engine.State.{
  Engine, Task, System, Choice, moves, Reachable, steps, move, inject, new_engine,
}
use pugtemplate.Engine.Counts.{holds, writes, count, bit}
use pugtemplate.Engine.Limit.{Reachable-IsSound}
use pugtemplate.Engine.Ends.{steps_left, Step-descends}
use pugtemplate.Engine.Progress.{IsFinished, CanMove, Reachable-progress}

-- Every goroutine has returned, the lock is free and the channel is empty.
pub record AtRest (s : System) : Type 0 where
  pub finished : All IsFinished s.tasks
  pub unlocked : s.engine.locked ≡ false
  pub empty : (s.engine.rate_limit == 0) ≡ false → s.engine.tokens ≡ 0

-- A state that is at rest, or in which some goroutine can go on without its context being done,
-- and whatever compileDir and the execution come to, the state after it settles.
pub data Settles : System → Type 0 where
  at_rest : (s : System) → AtRest s → Settles s
  goes_on :
      (e : Engine) (before : List Task) (t : Task) (after : List Task)
      → CanMove e t
      → ((c : Choice) (r : Engine × Task)
          → c.done ≡ false
          → move c e t ≡ some r
          → Settles (record { engine = r.0; tasks = before ++ (r.1 ∷ after) }))
      → Settles (record { engine = e; tasks = before ++ (t ∷ after) })

finished-count :
    (f : Task → ℕ) (ts : List Task)
    → ((t : Task) → IsFinished t → f t ≡ 0)
    → All IsFinished ts
    → count f ts ≡ 0
finished-count f [] z h = refl
finished-count f (t ∷ ts) z (h, hs) = omega (arith, z t h, finished-count f ts z hs)

finished_holds : (t : Task) → IsFinished t → holds t ≡ 0
finished_holds (Task.finished a) h = refl
finished_holds (Task.arrived n) h = absurd h
finished_holds (Task.admitted n) h = absurd h
finished_holds (Task.wants_load k f) h = absurd h
finished_holds (Task.loading k) h = absurd h
finished_holds (Task.ready n) h = absurd h
finished_holds (Task.executing t) h = absurd h

finished_writes : (t : Task) → IsFinished t → writes t ≡ 0
finished_writes (Task.finished a) h = refl
finished_writes (Task.arrived n) h = absurd h
finished_writes (Task.admitted n) h = absurd h
finished_writes (Task.wants_load k f) h = absurd h
finished_writes (Task.loading k) h = absurd h
finished_writes (Task.ready n) h = absurd h
finished_writes (Task.executing t) h = absurd h

module _ (limit : ℤ) (debug : Bool) where
  abbrev Starts : System → Type 0
  Starts s = Reachable (inject limit (new_engine debug)) s

  finished-AtRest : (s : System) → Starts s → All IsFinished s.tasks → AtRest s
  finished-AtRest s h fs =
      let p = Reachable-IsSound limit debug s h in
      record {
        finished = fs;
        unlocked =
            free s.engine.locked
              (omega (arith, p.writers, finished-count writes s.tasks finished_writes fs));
        empty = λ z. omega (arith, p.entries z, finished-count holds s.tasks finished_holds fs);
      }
    where
      free : (b : Bool) → bit b ≡ 0 → b ≡ false
      free b e = ground (arith, e)

  -- What a step of one of the tasks leads to.
  stepped :
      (s : System) (before : List Task) (t : Task) (after : List Task)
      → before ++ (t ∷ after) ≡ s.tasks
      → Starts s
      → (c : Choice) (r : Engine × Task) → move c s.engine t ≡ some r
      → Starts (record { engine = r.0; tasks = before ++ (r.1 ∷ after) })
        × (count steps_left (before ++ (r.1 ∷ after)) < count steps_left s.tasks)
  stepped s before t after m h c r mv =
      let step = moves c s.engine r.0 t r.1 before after (mv) in
      let now = subst (λ ts. Starts (record { engine = s.engine; tasks = ts })) (sym m) h in
      (
        steps _ _ now step,
        subst (λ ts. count steps_left (before ++ (r.1 ∷ after)) < count steps_left ts) m
            (Step-descends _ _ step),
      )

  Settles-within : (n : ℕ) (s : System) → count steps_left s.tasks < n → Starts s → Settles s
  Settles-within zero s l h = absurd (omega (arith, l))
  Settles-within (suc n) s l h = elim (Reachable-progress limit debug s h) [
    | inl fs ↦ Settles.at_rest s (finished-AtRest s h fs)
    | inr (before, t, after, m, can) ↦
        subst (λ ts. Settles (record { engine = s.engine; tasks = ts })) m
          (Settles.goes_on s.engine before t after can λ c r d mv.
            let (next, less) = stepped s before t after m h c r mv in
            Settles-within n _ (omega (arith, l, less)) next)
  ]

-- Every state comes to rest: from whatever state the engine is in after some interleaving of
-- requests and startup, there is always a goroutine that can go on without its context being done,
-- whatever compileDir and the executions come to, panics included, until all have returned; and
-- then the lock is free and the channel of the rate limit is empty.
pub Reachable-Settles :
    (limit : ℤ) (debug : Bool) (s : System)
    → Reachable (inject limit (new_engine debug)) s
    → Settles s
Reachable-Settles limit debug s h =
    Settles-within limit debug (suc (count steps_left s.tasks)) s (omega arith) h
