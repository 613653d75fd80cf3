-- ===== src/Template/Syntax.antt =====
-- The trees of parsed templates (pugjs/parse/node.go), without positions. A missing else branch is
-- an empty list of nodes.
use pugtemplate.Common.{Text, List, Option}

-- `C` are the constants: booleans, numbers and texts as the parser keeps them.
mutual
  pub data Arg (C : Type 0) : Type 0 where
    dot nil : Arg C
    constant : C → Arg C
    identifier : Text → Arg C
    field : List Text → Arg C
    variable : Text → List Text → Arg C
    chain : Arg C → List Text → Arg C
    pipe : Pipeline C → Arg C

  pub data Args (C : Type 0) : Type 0 where
    end : Args C
    arg : Arg C → Args C → Args C

  -- The first word of a command, and the other ones.
  pub data Commands (C : Type 0) : Type 0 where
    done : Commands C
    command : Arg C → Args C → Commands C → Commands C

  -- Its commands, and the variables it declares.
  pub data Pipeline (C : Type 0) : Type 0 where
    pipeline : Commands C → List Text → Pipeline C

mutual
  pub data Node (C : Type 0) : Type 0 where
    action : Pipeline C → Node C
    if_else : Pipeline C → Nodes C → Nodes C → Node C
    with_else : Pipeline C → Nodes C → Nodes C → Node C
    range : Pipeline C → Nodes C → Nodes C → Node C
    list : Nodes C → Node C
    template : Text → Option (Pipeline C) → Node C
    text : Text → Node C
    try : Nodes C → Text → Nodes C → Node C

  pub data Nodes (C : Type 0) : Type 0 where
    end : Nodes C
    node : Node C → Nodes C → Nodes C
