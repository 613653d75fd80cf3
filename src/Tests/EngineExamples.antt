-- ===== src/Tests/EngineExamples.antt =====
-- The theorems on the engine at concrete inputs.
use pugtemplate.Common.{
  ℤ, Text, lit, has_suffix, ◌≤◌, true, false, [], ◌∷◌, Option, some, ◌≡◌, ◌⊎◌, ◌==◌, All, refl,
}
use pugtemplate.Common.Result.{Result, ok}
use pugtemplate.Engine.State.{
  Engine, Answer, Call, Task, System, Choice, Step, moves, Reachable, new, arrives, steps, render,
  move, enter, inject, new_engine,
}
use pugtemplate.Engine.Counts.{holds, writes, count}
use pugtemplate.Engine.Limit.{capacity, Reachable-limit}
use pugtemplate.Engine.Progress.{IsFinished, CanMove, Somewhere, Reachable-progress}
use pugtemplate.Engine.Settles.{Settles, Reachable-Settles}
use pugtemplate.Engine.Load.{Directory, Files, compile_dir, add_missing}
use pugtemplate.Engine.Filtered.{beginning_with, compile_dir-filtered}
use pugtemplate.Pug.State.{put, has_key}

abbrev limit : ℤ
limit = ℤ.pos 1

abbrev start : Engine
start = inject limit (new_engine false)

abbrev choice : Choice
choice = record { done = false; compiled = Call.panics; executed = Call.panics }

-- Two requests, of which the first has entered.
abbrev before : System
before = record {
  engine = start;
  tasks = Task.arrived (lit "home") ∷ Task.arrived (lit "cart") ∷ [];
}

abbrev after : System
after = record {
  engine = record start { tokens = 1 };
  tasks = Task.admitted (lit "home") ∷ Task.arrived (lit "cart") ∷ [];
}

moves-Step : Step before after
unfolding move enter
moves-Step =
    moves choice start (record start { tokens = 1 }) (Task.arrived (lit "home"))
      (Task.admitted (lit "home")) [] (Task.arrived (lit "cart") ∷ []) refl

after-Reachable : Reachable start after
after-Reachable =
    steps before after (arrives _ _ (render (lit "home")) (arrives _ _ (render (lit "cart")) new))
      moves-Step

Reachable-limit_example :
    ((capacity limit == 0) ≡ false → count holds after.tasks ≤ capacity limit)
    × count writes after.tasks ≤ 1
Reachable-limit_example = Reachable-limit limit false after after-Reachable

Reachable-progress_example :
    All IsFinished after.tasks ⊎ Somewhere (CanMove after.engine) after.tasks
Reachable-progress_example = Reachable-progress limit false after after-Reachable

Reachable-Settles_example : Settles after
Reachable-Settles_example = Reachable-Settles limit false after after-Reachable

-- The startup loads, the compilation panics, and then a request comes.
abbrev loading : Engine
loading = record start { locked = true; templates_loaded = true }

abbrev flagged : Engine
flagged = record start { templates_loaded = true }

abbrev panicked : System
panicked = record { engine = flagged; tasks = Task.finished Answer.panicked ∷ [] }

abbrev joined_later : System
joined_later = record { engine = flagged; tasks = Task.arrived (lit "home") ∷ panicked.tasks }

-- A directory with a page and, below it, another.
abbrev pages : Directory
pages = Directory.files (
    Files.file (lit "home.ast.json") (
      Files.directory (lit "cart") (Directory.files (Files.file (lit "view.ast.json") Files.nil))
        Files.nil))

abbrev compile_name : Text → Result (Option Text)
compile_name name = ok (some name)

compile_dir-filtered_example :
    compile_dir compile_name (lit "cart") [] pages
    ≡ ok (
        some (
          beginning_with
            (lit "cart")
            ((lit "home", lit "home") ∷ (lit "cart/view", lit "cart/view") ∷ [])))
unfolding lit has_suffix compile_dir add_missing put has_key
compile_dir-filtered_example =
    compile_dir-filtered compile_name (lit "cart") pages
      ((lit "home", lit "home") ∷ (lit "cart/view", lit "cart/view") ∷ []) refl
