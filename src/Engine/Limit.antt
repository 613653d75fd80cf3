-- ===== src/Engine/Limit.antt =====
-- The rate limit and the lock, over all interleavings.
use pugtemplate.Common.{
  ℤ, ℕ, ◌≤◌, Bool, false, List, [], ◌∷◌, ◌++◌, some, ◌≡◌, ◌==◌, arith, refl, subst, ◌∙◌,
}
use pugtemplate.Engine.State.{
  Engine, Task, System, Choice, moves, Reachable, new, arrives, steps, IsFresh, render,
  load_templates, move, inject, new_engine,
}
use pugtemplate.Engine.Counts.{
  holds, writes, count, count-at, bit, IsBalanced, BalancesIf, move-BalancesIf,
}

-- A limit that is not positive is no limit.
abbrev pub capacity : ℤ → ℕ
capacity (ℤ.pos n) = n
capacity (ℤ.negsuc n) = 0

-- The channel holds one entry for each request past the limit, and never more than its capacity;
-- the lock is held by the one task under it.
pub record IsSound (limit : ℤ) (e : Engine) (tasks : List Task) : Type 0 where
  pub configured : e.rate_limit ≡ capacity limit
  pub entries : (e.rate_limit == 0) ≡ false → e.tokens ≡ count holds tasks
  pub bounded : e.tokens ≤ e.rate_limit
  pub writers : count writes tasks ≡ bit e.locked

start-IsSound : (limit : ℤ) (debug : Bool) → IsSound limit (inject limit (new_engine debug)) []
start-IsSound (ℤ.pos n) debug = record {
  configured = refl;
  entries = λ z. refl;
  bounded = omega arith;
  writers = refl;
}
start-IsSound (ℤ.negsuc n) debug = record {
  configured = refl;
  entries = λ z. refl;
  bounded = omega arith;
  writers = refl;
}

arrives-IsSound :
    (limit : ℤ) (e : Engine) (tasks : List Task) (t : Task)
    → IsFresh t
    → IsSound limit e tasks
    → IsSound limit e (t ∷ tasks)
arrives-IsSound limit e tasks t (render n) p = record {
  configured = p.configured;
  entries = λ z. omega (arith, p.entries z);
  bounded = p.bounded;
  writers = omega (arith, p.writers);
}
arrives-IsSound limit e tasks t load_templates p = record {
  configured = p.configured;
  entries = λ z. omega (arith, p.entries z);
  bounded = p.bounded;
  writers = omega (arith, p.writers);
}

balanced-IsSound :
    (limit : ℤ) (e e' : Engine) (t t' : Task) (before after : List Task)
    → IsSound limit e (before ++ (t ∷ after))
    → IsBalanced e t e' t'
    → IsSound limit e' (before ++ (t' ∷ after))
balanced-IsSound limit e e' t t' before after p b = record {
  configured = b.limit ∙ p.configured;
  entries = λ z. omega (
    arith,
    p.entries (ground (arith, z, b.limit)),
    b.entries (ground (arith, z, b.limit)),
    count-at holds before t after,
    count-at holds before t' after,
  );
  bounded = omega (arith, b.bounded p.bounded, b.limit);
  writers = omega (
    arith,
    p.writers,
    b.writers,
    count-at writes before t after,
    count-at writes before t' after,
  );
}

moves-IsSound :
    (limit : ℤ) (e e' : Engine) (t t' : Task) (before after : List Task) (c : Choice)
    → move c e t ≡ some (e', t')
    → IsSound limit e (before ++ (t ∷ after))
    → IsSound limit e' (before ++ (t' ∷ after))
moves-IsSound limit e e' t t' before after c h p = balanced-IsSound limit e e' t t' before after p (
    subst (BalancesIf e t) h (
      move-BalancesIf c e t (λ z. omega (arith, p.entries z, count-at holds before t after))
        (omega (arith, p.writers, count-at writes before t after))))

pub Reachable-IsSound :
    (limit : ℤ) (debug : Bool) (s : System)
    → Reachable (inject limit (new_engine debug)) s
    → IsSound limit s.engine s.tasks
Reachable-IsSound limit debug s new = start-IsSound limit debug
Reachable-IsSound limit debug s (arrives r t f h) =
    arrives-IsSound limit r.engine r.tasks t f (Reachable-IsSound limit debug r h)
Reachable-IsSound limit debug s (steps r s' h (moves c e e' t t' before after m)) =
    moves-IsSound limit e e' t t' before after c m (Reachable-IsSound limit debug r h)

-- Whatever requests arrive and however they interleave with each other and with the startup: where
-- a limit is configured, no more requests than it are past it at once, and never is more than one
-- goroutine under the lock.
pub Reachable-limit :
    (limit : ℤ) (debug : Bool) (s : System)
    → Reachable (inject limit (new_engine debug)) s
    → ((capacity limit == 0) ≡ false → count holds s.tasks ≤ capacity limit)
      × count writes s.tasks ≤ 1
Reachable-limit limit debug s h =
    let p = Reachable-IsSound limit debug s h in
    (
      λ z. omega (arith, p.entries (ground (arith, z, p.configured)), p.bounded, p.configured),
      ground (arith, p.writers),
    )
