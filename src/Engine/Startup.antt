-- ===== src/Engine/Startup.antt =====
-- The processes at startup (pugjs/startup.go), with the subscriber that starts and finishes them
-- (Notify in pugjs/engine.go) and the controller that reports them (controllers/ready.go).
use pugtemplate.Common.{
  ℕ, suc, ◌-◌, Bool, true, false, List, [], ◌∷◌, Option, none, some, if◌then◌else◌, ◌≡◌,
}

-- What a group of goroutines goes through: one is started, or one ends, with its error or none.
pub data Event (E : Type 0) : Type 0 where
  started : Event E
  ended : Option E → Event E

-- errgroup.Group. `wait` is none as long as Wait blocks, and else what it returns.
pub record Errgroup (E : Type 0) : Type 1 where
  pub Group : Type 0
  pub new : Group
  pub on : Event E → Group → Group
  pub wait : Group → Option (Option E)

-- Where the goroutine of Finish is: not yet started, in Wait, in the send of the error, before it
-- closes `done`, before it closes the channel of errors, and ended.
pub data Stage (E : Type 0) : Type 0 where
  adding waiting : Stage E
  sending : E → Stage E
  closing closing_errors finished : Stage E

module _ {E : Type 0} where
  -- The processes that have not ended.
  abbrev pub running : List (Event E) → ℕ
  running [] = 0
  running (Event.started ∷ es) = suc (running es)
  running (Event.ended r ∷ es) = running es - 1

module _ {E : Type 0} (g : Errgroup E) where
  -- `received` is what the receiver of the channel took from it; `events` is what happened to the
  -- group, the last first.
  pub record Startup : Type 0 where
    pub eg : g.Group
    pub stage : Stage E
    pub received : Option E
    pub events : List (Event E)

  -- `Inject`.
  abbrev pub inject_startup : Startup
  inject_startup = record { eg = g.new; stage = Stage.adding; received = none; events = [] }

  abbrev pub happens : Event E → Startup → Startup
  happens e s = record s { eg = g.on e s.eg; events = e ∷ s.events }

  abbrev pub at_stage : Stage E → Startup → Startup
  at_stage t s = record s { stage = t }

  -- `IsFinished`: `done` is closed.
  abbrev pub is_finished : Startup → Bool
  is_finished s = elim s.stage [ Stage.closing_errors ↦ true | Stage.finished ↦ true | _ ↦ false ]

  -- AddProcess before Finish, as its documentation asks; a process ends; Finish; and what its
  -- goroutine does: Wait returns, the error is received, the channels are closed.
  pub data Step : Startup → Startup → Type 0 where
    add_process : (s : Startup) → s.stage ≡ Stage.adding → Step s (happens Event.started s)
    process_ends :
        (s : Startup) (r : Option E) (n : ℕ)
        → running s.events ≡ suc n
        → Step s (happens (Event.ended r) s)
    finish : (s : Startup) → s.stage ≡ Stage.adding → Step s (at_stage Stage.waiting s)
    wait_ok :
        (s : Startup)
        → s.stage ≡ Stage.waiting
        → g.wait s.eg ≡ some none
        → Step s (at_stage Stage.closing s)
    wait_failed :
        (s : Startup) (e : E)
        → s.stage ≡ Stage.waiting
        → g.wait s.eg ≡ some (some e)
        → Step s (at_stage (Stage.sending e) s)
    receive :
        (s : Startup) (e : E)
        → s.stage ≡ Stage.sending e
        → Step s (record s { stage = Stage.closing; received = some e })
    close_done : (s : Startup) → s.stage ≡ Stage.closing → Step s (at_stage Stage.closing_errors s)
    close_errors :
        (s : Startup) → s.stage ≡ Stage.closing_errors → Step s (at_stage Stage.finished s)

  -- The states that steps lead to.
  pub data Steps (s : Startup) : Startup → Type 0 where
    here : Steps s s
    step : {t u : Startup} → Steps s t → Step t u → Steps s u

  -- ServeHTTP of the controller: the status it answers with.
  abbrev pub ready_status : Startup → ℕ
  ready_status s = if is_finished s then 200 else 425
