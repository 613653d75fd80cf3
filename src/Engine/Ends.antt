-- ===== src/Engine/Ends.antt =====
-- Every step of a goroutine brings it nearer to its return.
use pugtemplate.Common.{
  Text, ℕ, ◌<◌, ◌&&◌, Option, none, some, ◌≡◌, inl, inr, ◌==◌, ltb, arith, refl, subst, Bool-cases,
}
use pugtemplate.Engine.State.{
  Engine, Templates, Call, Task, Caller, Answer, System, Choice, Step, moves, move, enter,
  check_loaded, begin_load, leave, finish_load, go_on, look_up, find_template, is_empty,
}
use pugtemplate.Engine.Counts.{count, count-at}

-- The steps that a task has left, at most.
abbrev pub steps_left : Task → ℕ
steps_left (Task.arrived n) = 6
steps_left (Task.admitted n) = 5
steps_left (Task.wants_load k f) = 4
steps_left (Task.loading k) = 3
steps_left (Task.ready n) = 2
steps_left (Task.executing t) = 1
steps_left (Task.finished a) = 0

abbrev Descends : Task → Option (Engine × Task) → Type 0
Descends t none = Unit
Descends t (some r) = steps_left r.1 < steps_left t

enter-Descends : (c : Choice) (n : Text) (e : Engine) → Descends (Task.arrived n) (enter c n e)
unfolding enter
enter-Descends c n e = elim (Bool-cases (e.rate_limit == 0)) [
  | inl z ↦ rw z (omega arith)
  | inr z ↦ rw z (elim (Bool-cases c.done) [
    | inl d ↦ rw d (omega arith)
    | inr d ↦ rw d (elim (Bool-cases (ltb e.tokens e.rate_limit)) [
      | inl l ↦ rw l (omega arith)
      | inr l ↦ rw l tt
    ])
  ])
]

check_loaded-descends : (n : Text) (e : Engine) → steps_left (check_loaded n e) < 5
unfolding check_loaded
check_loaded-descends n e = ground arith

leave-descends : (k : Caller) (a : Answer) (e : Engine) → steps_left (leave k a e).1 ≡ 0
unfolding leave
leave-descends (Caller.request n) a e = refl
leave-descends Caller.startup a e = refl

begin_load-Descends :
    (k : Caller) (f : Text) (e : Engine) → Descends (Task.wants_load k f) (begin_load k f e)
unfolding begin_load
begin_load-Descends k f e = elim (Bool-cases e.locked) [
  | inl l ↦ rw l tt
  | inr l ↦ rw l (elim (Bool-cases (e.templates_loaded && is_empty f)) [
    | inl b ↦ rw b (omega (arith, leave-descends k Answer.loaded_before _))
    | inr b ↦ rw b (omega arith)
  ])
]

finish_load-descends :
    (k : Caller) (o : Call (Option Templates)) (e : Engine) → steps_left (finish_load k o e).1 < 3
unfolding finish_load go_on
finish_load-descends k Call.panics e = omega (arith, leave-descends k Answer.panicked _)
finish_load-descends k (Call.returns none) e = omega (arith, leave-descends k Answer.load_failed _)
finish_load-descends (Caller.request n) (Call.returns (some ts)) e = omega arith
finish_load-descends Caller.startup (Call.returns (some ts)) e = omega arith

look_up-descends : (o : Option Text) (e : Engine) → steps_left (look_up o e).1 < 2
unfolding look_up
look_up-descends none e = omega arith
look_up-descends (some t) e = omega arith

move-Descends : (c : Choice) (e : Engine) (t : Task) → Descends t (move c e t)
unfolding move
move-Descends c e (Task.arrived n) = enter-Descends c n e
move-Descends c e (Task.admitted n) = check_loaded-descends n e
move-Descends c e (Task.wants_load k f) = begin_load-Descends k f e
move-Descends c e (Task.loading k) = finish_load-descends k c.compiled e
move-Descends c e (Task.ready n) = elim (Bool-cases e.locked) [
  | inl l ↦ rw l tt
  | inr l ↦ rw l (look_up-descends (find_template n e.templates) _)
]
move-Descends c e (Task.executing t) = omega arith
move-Descends c e (Task.finished a) = tt

-- Every step of the engine makes the steps that its goroutines have left fewer, of which each has
-- six at most.
pub Step-descends :
    (s s' : System) → Step s s' → count steps_left s'.tasks < count steps_left s.tasks
Step-descends s s' (moves c e e' t t' before after m) = omega (
  arith,
  subst (Descends t) m (move-Descends c e t),
  count-at steps_left before t after,
  count-at steps_left before t' after,
)
