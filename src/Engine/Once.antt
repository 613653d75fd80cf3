-- ===== src/Engine/Once.antt =====
-- Outside debug mode the templates are loaded once (pugjs/engine.go).
use pugtemplate.Common.{true, false, [], ◌∷◌, Option, none, some, ◌≡◌, All}
use pugtemplate.Engine.State.{Engine, Templates, Task, System, Step, IsFresh}

-- A task that wants to load loads all templates.
abbrev LoadsAll : Task → Type 0
LoadsAll (Task.wants_load k f) = f ≡ []
LoadsAll _ = Unit

-- Such a task, and not under the lock.
abbrev IsCalm : Task → Type 0
IsCalm (Task.wants_load k f) = f ≡ []
IsCalm (Task.loading k) = ⊥
IsCalm _ = Unit

-- What outside debug mode a step leaves.
abbrev StaysPlain : Option (Engine × Task) → Type 0
StaysPlain none = Unit
StaysPlain (some (e, t)) = (e.debug ≡ false) × LoadsAll t

-- What a step leaves once the templates are loaded: everything but the channel.
abbrev StaysLoaded : Engine → Option (Engine × Task) → Type 0
StaysLoaded e none = Unit
StaysLoaded e (some (e', t)) =
    (e'.debug ≡ false)
    × (e'.templates_loaded ≡ true)
    × (e'.locked ≡ false)
    × (e'.templates ≡ e.templates)
    × IsCalm t

-- What the system can come to from a state, with calls that arrive meanwhile.
pub data Later (s : System) : System → Type 0 where
  now : Later s s
  joined :
      (r : System) (t : Task)
      → IsFresh t
      → Later s r
      → Later s (record { engine = r.engine; tasks = t ∷ r.tasks })
  stepped : (r r' : System) → Later s r → Step r r' → Later s r'

-- The engine is loaded and has these templates.
record HasLoaded (ts : Templates) (s : System) : Type 0 where
  debug : s.engine.debug ≡ false
  loaded : s.engine.templates_loaded ≡ true
  unlocked : s.engine.locked ≡ false
  templates : s.engine.templates ≡ ts
  tasks : All IsCalm s.tasks
