-- ===== src/Template/Execute.antt =====
-- `execute` of pugjs/tpl_exec.go: the first state, and the run of the root.
use pugtemplate.Common.{Text, lit, ℕ, List, [], ◌∷◌, ◌++◌, Option, none, some}
use pugtemplate.Template.Syntax.{Nodes}
use pugtemplate.Template.State.{Variable, Store, Outcome, Panic}
use pugtemplate.Template.Variables.{push}
use pugtemplate.Template.Reflection.{Reflection}
use pugtemplate.Template.Walk.{run_template}

-- What is executed: the value of the data, its keys or its fields with their values in the order in
-- which they are visited, and the map made for `$global`.
pub record Data (V : Type 0) : Type 0 where
  pub value : V
  pub entries : List (Text × V)
  pub global : V

module _ {V : Type 0} (lower_first : Text → Text) where
  abbrev pub globals_from : V → List (Text × V) → List (Variable V)
  globals_from global [] = record { name = lit "$global"; value = global } ∷ []
  globals_from global ((k, v) ∷ es) =
      record { name = lit "$" ++ k; value = v }
      ∷ record { name = lit "$" ++ lower_first k; value = v }
      ∷ globals_from global es

  unfoldable pub globals_of : Data V → List (Variable V)
  unfolding lit
  globals_of d = globals_from d.global d.entries

module _ {V W C : Type 0} (r : Reflection V W C) where
  unfoldable pub first_store : V → List (Variable V) → W → Store V W
  unfolding lit
  first_store v globals w = record {
    world = w;
    states =
        record {
          vars = record { array = 0; len = 1 };
          depth = 0;
          globals = globals;
          bound_blocks = record { array = 0; len = 0 };
        }
        ∷ [];
    variables = record { cells = record { name = lit "$"; value = v } ∷ []; cap = 1 } ∷ [];
    blocks = record { cells = []; cap = 0 } ∷ [];
    output = [];
  }

  unfoldable pub push_globals : List (Variable V) → Store V W → Store V W
  unfolding push
  push_globals [] st = st
  push_globals (x ∷ xs) st = push_globals xs (push r.spare 0 x.name x.value st)

  -- The store before the walk.
  abbrev pub start_store : (Text → Text) → Data V → W → Store V W
  start_store lower_first d w =
      let globals = globals_of lower_first d in push_globals globals (first_store d.value globals w)

  -- A template without a tree is refused.
  unfoldable pub execute :
      (Text → Text)
      → (Text → Option (Nodes C))
      → ℕ
      → Option (Nodes C)
      → Data V
      → W
      → Outcome V W (Unit {0})
  unfolding run_template first_store push_globals globals_of lit
  execute lower_first templates fuel none d w =
      Outcome.panicked (first_store d.value [] w)
        (Panic.exec_error (lit "%q is an incomplete or empty template"))
  execute lower_first templates fuel (some root) d w =
      run_template r templates fuel 0 d.value root (start_store lower_first d w)
