-- ===== src/Engine/State.antt =====
-- The engine's state, and the steps of the goroutines that use it (pugjs/engine.go). A step runs up
-- to the next point where another goroutine can be seen to have acted: the channel of the rate
-- limit, the atomic flag, the lock. Logging, tracing and the page key of the context are left out.
use pugtemplate.Common.{
  ℤ, Text, text_eq, ℕ, ◌+◌, ◌-◌, Bool, true, false, ◌&&◌, not, List, [], ◌∷◌, ◌++◌, Option, none,
  some, ◌==◌, ltb, if◌then◌else◌, ◌≡◌,
}

-- A map from names to templates.
abbrev pub Templates : Type 0
Templates = List (Text × Text)

-- `rate_limit` is the capacity of the channel, 0 where there is none, and `tokens` the number of
-- entries in it; `locked` says that a writer holds the lock.
pub record Engine : Type 0 where
  pub debug : Bool
  pub rate_limit : ℕ
  pub tokens : ℕ
  pub locked : Bool
  pub templates_loaded : Bool
  pub templates : Templates

-- WithRateLimit, of an int that may be negative: a limit that is not positive turns it off.
abbrev pub with_rate_limit : ℤ → Engine → Engine
with_rate_limit (ℤ.pos n) e = record e { rate_limit = n; tokens = 0 }
with_rate_limit (ℤ.negsuc n) e = record e { rate_limit = 0; tokens = 0 }

-- `applyOptions`: a nil option is passed over.
abbrev pub apply_options : List (Option (Engine → Engine)) → Engine → Engine
apply_options [] e = e
apply_options (none ∷ os) e = apply_options os e
apply_options (some o ∷ os) e = apply_options os (o e)

abbrev pub new_engine_with_options : Bool → List (Option (Engine → Engine)) → Engine
new_engine_with_options debug opts = apply_options opts (record {
  debug = debug;
  rate_limit = 0;
  tokens = 0;
  locked = false;
  templates_loaded = false;
  templates = [];
})

-- NewEngine.
abbrev pub new_engine : Bool → Engine
new_engine debug = new_engine_with_options debug (some (with_rate_limit (ℤ.pos 8)) ∷ [])

-- `Inject`, with the limit of the configuration.
abbrev pub inject : ℤ → Engine → Engine
inject limit e = apply_options (some (with_rate_limit limit) ∷ []) e

-- GetRateLimit.
abbrev pub get_rate_limit : Engine → ℕ
get_rate_limit e = e.rate_limit

abbrev pub is_empty : Text → Bool
is_empty [] = true
is_empty (c ∷ s) = false

unfoldable pub find_template : Text → Templates → Option Text
find_template n [] = none
find_template n ((m, t) ∷ ts) = if text_eq m n then some t else find_template n ts

-- Who calls LoadTemplates: Render for the template of this name, or the startup.
pub data Caller : Type 0 where
  request : Text → Caller
  startup : Caller

pub data Answer : Type 0 where
  wait_failed loaded_before load_failed not_found execute_failed preloaded panicked : Answer
  rendered : Text → Answer

-- A goroutine: before the rate limit, past it, in LoadTemplates before and under the lock, before
-- the lookup, in the execution of its template, and after its return.
pub data Task : Type 0 where
  arrived : Text → Task
  admitted : Text → Task
  wants_load : Caller → Text → Task
  loading : Caller → Task
  ready : Text → Task
  executing : Text → Task
  finished : Answer → Task

-- What a call comes to: a panic, or what it returns.
pub data Call (A : Type 0) : Type 0 where
  panics : Call A
  returns : A → Call A

-- What the engine does not decide: whether the context is done, what compileDir comes to, and what
-- the execution of the template comes to.
pub record Choice : Type 0 where
  pub done : Bool
  pub compiled : Call (Option Templates)
  pub executed : Call (Option Text)

-- The deferred receive from the channel.
unfoldable pub release : Engine → Engine
release e = if e.rate_limit == 0 then e else record e { tokens = e.tokens - 1 }

-- The return of a caller with an answer: only a request holds an entry of the channel.
unfoldable pub leave : Caller → Answer → Engine → Engine × Task
unfolding release
leave (Caller.request n) a e = (release e, Task.finished a)
leave Caller.startup a e = (e, Task.finished a)

-- The entry of Render.
unfoldable pub enter : Choice → Text → Engine → Option (Engine × Task)
enter c n e =
    if e.rate_limit == 0
    then some (e, Task.admitted n)
    else if c.done
    then some (e, Task.finished Answer.wait_failed)
    else if ltb e.tokens e.rate_limit
    then some (record e { tokens = e.tokens + 1 }, Task.admitted n)
    else none

-- The choice between loading all, loading for this template, and not loading.
unfoldable pub check_loaded : Text → Engine → Task
check_loaded n e =
    if not e.templates_loaded && not e.debug
    then Task.wants_load (Caller.request n) []
    else if e.debug
    then Task.wants_load (Caller.request n) n
    else Task.ready n

-- LoadTemplates up to the compilation: the lock, and the flag.
unfoldable pub begin_load : Caller → Text → Engine → Option (Engine × Task)
unfolding leave
begin_load k filter e =
    if e.locked
    then none
    else if e.templates_loaded && is_empty filter
    then some (leave k Answer.loaded_before e)
    else some (record e { locked = true; templates_loaded = true }, Task.loading k)

-- LoadTemplates after the compilation, and where its caller goes on.
unfoldable pub go_on : Caller → Engine → Engine × Task
go_on (Caller.request n) e = (e, Task.ready n)
go_on Caller.startup e = (e, Task.finished Answer.preloaded)

-- A panic unlocks and passes through the caller: the flag stays set.
unfoldable pub finish_load : Caller → Call (Option Templates) → Engine → Engine × Task
unfolding leave go_on
finish_load k Call.panics e = leave k Answer.panicked (record e { locked = false })
finish_load k (Call.returns none) e =
    leave k Answer.load_failed
      (record e { locked = false; templates_loaded = false; templates = [] })
finish_load k (Call.returns (some ts)) e = go_on k (record e { locked = false; templates = ts })

-- The lookup of the template.
unfoldable pub look_up : Option Text → Engine → Engine × Task
unfolding release
look_up none e = (release e, Task.finished Answer.not_found)
look_up (some t) e = (e, Task.executing t)

abbrev pub executed_answer : Call (Option Text) → Answer
executed_answer Call.panics = Answer.panicked
executed_answer (Call.returns none) = Answer.execute_failed
executed_answer (Call.returns (some r)) = Answer.rendered r

-- One step of a goroutine, or none where it waits or has returned.
unfoldable pub move : Choice → Engine → Task → Option (Engine × Task)
unfolding enter check_loaded begin_load finish_load look_up release
move c e (Task.arrived n) = enter c n e
move c e (Task.admitted n) = some (e, check_loaded n e)
move c e (Task.wants_load k filter) = begin_load k filter e
move c e (Task.loading k) = some (finish_load k c.compiled e)
move c e (Task.ready n) = if e.locked then none else some (look_up (find_template n e.templates) e)
move c e (Task.executing t) = some (release e, Task.finished (executed_answer c.executed))
move c e (Task.finished a) = none

-- A fresh task: a call of Render, or of LoadTemplates("") by the startup.
pub data IsFresh : Task → Type 0 where
  render : (n : Text) → IsFresh (Task.arrived n)
  load_templates : IsFresh (Task.wants_load Caller.startup [])

pub record System : Type 0 where
  pub engine : Engine
  pub tasks : List Task

-- One task moves.
pub data Step : System → System → Type 0 where
  moves :
      (c : Choice) (e e' : Engine) (t t' : Task) (before after : List Task)
      → move c e t ≡ some (e', t')
      → Step
          (record { engine = e; tasks = before ++ (t ∷ after) })
          (record { engine = e'; tasks = before ++ (t' ∷ after) })

-- What the engine can come to from its start, over all interleavings.
pub data Reachable (start : Engine) : System → Type 0 where
  new : Reachable start (record { engine = start; tasks = [] })
  arrives :
      (s : System) (t : Task)
      → IsFresh t
      → Reachable start s
      → Reachable start (record { engine = s.engine; tasks = t ∷ s.tasks })
  steps : (s s' : System) → Reachable start s → Step s s' → Reachable start s'
