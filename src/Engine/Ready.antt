-- ===== src/Engine/Ready.antt =====
-- When the startup is reported as finished.
use pugtemplate.Common.{
  ℕ, zero, suc, ◌==◌, true, false, List, [], ◌∷◌, Option, none, some, if◌then◌else◌, ◌≡◌,
  Option-cases, inl, inr, refl, sym, ap, subst, ◌∙◌, arith,
}
use pugtemplate.Engine.Startup.{
  Event, Errgroup, Stage, Startup, inject_startup, running, at_stage, is_finished, Step, Steps,
  add_process, process_ends, finish, wait_ok, wait_failed, receive, close_done, close_errors, here,
  step,
}

module _ {E : Type 0} where
  abbrev or_first : Option E → Option E → Option E
  or_first (some e) r = some e
  or_first none r = r

  -- The error of the process that failed first.
  abbrev pub first_error : List (Event E) → Option E
  first_error [] = none
  first_error (Event.started ∷ es) = first_error es
  first_error (Event.ended r ∷ es) = or_first (first_error es) r

module _ {E : Type 0} (g : Errgroup E) where
  -- The group after some events, the last first.
  abbrev pub run : List (Event E) → g.Group
  run [] = g.new
  run (e ∷ es) = g.on e (run es)

  -- Wait blocks until all processes have ended, and then returns the first error.
  abbrev pub Waits : Type 0
  Waits =
      (es : List (Event E))
      → g.wait (run es) ≡ (if running es == 0 then some (first_error es) else none)

  -- What holds at each stage.
  abbrev AtStage : Stage E → Option E → List (Event E) → Type 0
  AtStage Stage.adding o es = o ≡ none
  AtStage Stage.waiting o es = o ≡ none
  AtStage (Stage.sending e) o es = (running es ≡ 0) × (first_error es ≡ some e)
  AtStage Stage.closing o es = (running es ≡ 0) × (first_error es ≡ o)
  AtStage Stage.closing_errors o es = (running es ≡ 0) × (first_error es ≡ o)
  AtStage Stage.finished o es = (running es ≡ 0) × (first_error es ≡ o)

  pub record IsConsistent (s : Startup g) : Type 0 where
    pub group : s.eg ≡ run s.events
    pub stage_holds : AtStage s.stage s.received s.events

  -- No process ends once Wait has returned.
  ended-AtStage :
      (st : Stage E) (o r : Option E) (es : List (Event E)) (n : ℕ)
      → running es ≡ suc n
      → AtStage st o es
      → AtStage st o (Event.ended r ∷ es)
  ended-AtStage Stage.adding o r es n e h = h
  ended-AtStage Stage.waiting o r es n e h = h
  ended-AtStage (Stage.sending x) o r es n e h = absurd (omega (arith, e, h.0))
  ended-AtStage Stage.closing o r es n e h = absurd (omega (arith, e, h.0))
  ended-AtStage Stage.closing_errors o r es n e h = absurd (omega (arith, e, h.0))
  ended-AtStage Stage.finished o r es n e h = absurd (omega (arith, e, h.0))

  returned :
      (k : ℕ) (r o : Option E) → (if k == 0 then some r else none) ≡ some o → (k ≡ 0) × (r ≡ o)
  returned zero r o h = (refl, cc)
  returned (suc k) r o h = absurd (ground (arith, h))

  module _ (w : Waits) where
    waited :
        (s : Startup g) (o : Option E)
        → IsConsistent s
        → g.wait s.eg ≡ some o
        → (running s.events ≡ 0) × (first_error s.events ≡ o)
    waited s o c h = returned _ _ _ (sym (w s.events) ∙ ap g.wait (sym c.group) ∙ h)

    at :
        (s : Startup g) {st : Stage E}
        → s.stage ≡ st
        → IsConsistent s
        → AtStage st s.received s.events
    at s e c = subst (λ st. AtStage st s.received s.events) e c.stage_holds

    Step-IsConsistent : (s t : Startup g) → Step g s t → IsConsistent s → IsConsistent t
    Step-IsConsistent s t (add_process u a) c = record {
      group = ap (g.on Event.started) c.group;
      stage_holds =
          subst (λ st. AtStage st u.received (Event.started ∷ u.events)) (sym a) (at u a c);
    }
    Step-IsConsistent s t (process_ends u r n a) c = record {
      group = ap (g.on (Event.ended r)) c.group;
      stage_holds = ended-AtStage u.stage u.received r u.events n a c.stage_holds;
    }
    Step-IsConsistent s t (finish u a) c = record { group = c.group; stage_holds = at u a c }
    Step-IsConsistent s t (wait_ok u a b) c =
        let r = waited u none c b in
        record { group = c.group; stage_holds = (r.0, r.1 ∙ sym (at u a c)) }
    Step-IsConsistent s t (wait_failed u e a b) c = record {
      group = c.group;
      stage_holds = waited u (some e) c b;
    }
    Step-IsConsistent s t (receive u e a) c = record { group = c.group; stage_holds = at u a c }
    Step-IsConsistent s t (close_done u a) c = record { group = c.group; stage_holds = at u a c }
    Step-IsConsistent s t (close_errors u a) c = record { group = c.group; stage_holds = at u a c }

    start-IsConsistent : IsConsistent (inject_startup g)
    start-IsConsistent = record { group = refl; stage_holds = refl }

    Steps-IsConsistent : (t : Startup g) → Steps g (inject_startup g) t → IsConsistent t
    Steps-IsConsistent t here = start-IsConsistent
    Steps-IsConsistent t (step {t = u} r s) = Step-IsConsistent u t s (Steps-IsConsistent u r)

    finished_stage :
        (st : Stage E) (o : Option E) (es : List (Event E))
        → (elim st [ Stage.closing_errors ↦ true | Stage.finished ↦ true | _ ↦ false ]) ≡ true
        → AtStage st o es
        → (running es ≡ 0) × (first_error es ≡ o)
    finished_stage Stage.closing_errors o es e h = h
    finished_stage Stage.finished o es e h = h
    finished_stage _ o es e h = absurd (cc)

    -- Once the startup is reported as finished, all its processes have ended, and if one of them
    -- failed, the error of the first to fail has been received from the channel that Finish
    -- returned, if the group waits as documented.
    pub is_finished-received :
        (s : Startup g)
        → Steps g (inject_startup g) s
        → is_finished g s ≡ true
        → (running s.events ≡ 0) × (first_error s.events ≡ s.received)
    is_finished-received s r h =
        finished_stage s.stage s.received s.events h (Steps-IsConsistent s r).stage_holds

    -- A state that is reported as finished can be reached.
    abbrev CanFinish : Startup g → Type 0
    CanFinish s = (t : Startup g) × Steps g s t × (is_finished g t ≡ true)

    Step-CanFinish : (s t : Startup g) → Step g s t → CanFinish t → CanFinish s
    Step-CanFinish s t a (u, r, h) = (u, first a r, h)
      where
        first : {u : Startup g} → Step g s t → Steps g t u → Steps g s u
        first a here = step here a
        first a (step r b) = step (first a r) b

    closing-CanFinish : (s : Startup g) → s.stage ≡ Stage.closing → CanFinish s
    closing-CanFinish s e = (at_stage g Stage.closing_errors s, step here (close_done s e), refl)

    sending-CanFinish : (s : Startup g) (x : E) → s.stage ≡ Stage.sending x → CanFinish s
    sending-CanFinish s x e = Step-CanFinish s _ (receive s x e) (closing-CanFinish _ refl)

    waiting-CanFinish :
        (n : ℕ) (s : Startup g)
        → running s.events ≡ n
        → s.stage ≡ Stage.waiting
        → IsConsistent s
        → CanFinish s
    waiting-CanFinish zero s z e c = elim (Option-cases (first_error s.events)) [
      | inl f ↦
          Step-CanFinish s _ (wait_ok s e (wait_returns ∙ ap some f)) (closing-CanFinish _ refl)
      | inr (x, f) ↦
          Step-CanFinish s _ (wait_failed s x e (wait_returns ∙ ap some f))
            (sending-CanFinish _ x refl)
    ]
      where
        wait_returns : g.wait s.eg ≡ some (first_error s.events)
        wait_returns = ap g.wait c.group ∙ w s.events ∙ rw z refl
    waiting-CanFinish (suc n) s z e c =
        let a = process_ends s none n z in
        Step-CanFinish s _ a
          (waiting-CanFinish n _ (omega (arith, z)) e (Step-IsConsistent s _ a c))

    stage-CanFinish : (st : Stage E) (s : Startup g) → s.stage ≡ st → IsConsistent s → CanFinish s
    stage-CanFinish Stage.adding s e c =
        let a = finish s e in
        Step-CanFinish s _ a (waiting-CanFinish _ _ refl refl (Step-IsConsistent s _ a c))
    stage-CanFinish Stage.waiting s e c = waiting-CanFinish _ s refl e c
    stage-CanFinish (Stage.sending x) s e c = sending-CanFinish s x e
    stage-CanFinish Stage.closing s e c = closing-CanFinish s e
    stage-CanFinish Stage.closing_errors s e c = (s, here, rw e refl)
    stage-CanFinish Stage.finished s e c = (s, here, rw e refl)

    -- From every state of the startup steps lead to one that is reported as finished, if the group
    -- waits as documented.
    pub startup-CanFinish :
        (s : Startup g)
        → Steps g (inject_startup g) s
        → (t : Startup g) × Steps g s t × (is_finished g t ≡ true)
    startup-CanFinish s r = stage-CanFinish s.stage s refl (Steps-IsConsistent s r)
