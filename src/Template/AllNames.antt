-- ===== src/Template/AllNames.antt =====
-- Where every name may be called, every template is made of such names (pugjs/parse/node.go).
use pugtemplate.Common.{Text, All, List, [], ◌∷◌, Option, none, some}
use pugtemplate.Template.Syntax.{Arg, Args, Commands, Pipeline, Node, Nodes}
use pugtemplate.Template.Names.{ArgOk, ArgsOk, CommandsOk, PipelineOk, DotOk, NodeOk, NodesOk}

every_name : (ns : List Text) → All (λ n. Unit {0}) ns
every_name [] = tt
every_name (n ∷ ns) = (tt, every_name ns)

module _ {C : Type 0} where
  mutual
    unfolding ArgOk

    arg_names : (x : Arg C) → ArgOk (λ n. Unit {0}) x
    arg_names Arg.dot = tt
    arg_names Arg.nil = tt
    arg_names (Arg.constant c) = tt
    arg_names (Arg.identifier n) = tt
    arg_names (Arg.field ns) = every_name ns
    arg_names (Arg.variable x ns) = every_name ns
    arg_names (Arg.chain x ns) = (arg_names x, every_name ns)
    arg_names (Arg.pipe p) = pipeline_names p

    args_names : (xs : Args C) → ArgsOk (λ n. Unit {0}) xs
    args_names Args.end = tt
    args_names (Args.arg x xs) = (arg_names x, args_names xs)

    commands_names : (cs : Commands C) → CommandsOk (λ n. Unit {0}) cs
    commands_names Commands.done = tt
    commands_names (Commands.command x xs cs) = (arg_names x, args_names xs, commands_names cs)

    pipeline_names : (p : Pipeline C) → PipelineOk (λ n. Unit {0}) p
    pipeline_names (Pipeline.pipeline cs xs) = commands_names cs

  dot_names : (p : Option (Pipeline C)) → DotOk (λ n. Unit {0}) p
  dot_names none = tt
  dot_names (some p) = pipeline_names p

  mutual
    unfolding NodeOk

    node_names : (n : Node C) → NodeOk (λ n. Unit {0}) n
    node_names (Node.action p) = pipeline_names p
    node_names (Node.if_else p ns ms) = (pipeline_names p, nodes_names ns, nodes_names ms)
    node_names (Node.with_else p ns ms) = (pipeline_names p, nodes_names ns, nodes_names ms)
    node_names (Node.range p ns ms) = (pipeline_names p, nodes_names ns, nodes_names ms)
    node_names (Node.list ns) = nodes_names ns
    node_names (Node.template n p) = dot_names p
    node_names (Node.text t) = tt
    node_names (Node.try ns x ms) = (nodes_names ns, nodes_names ms)

    pub nodes_names : (ns : Nodes C) → NodesOk (λ n. Unit {0}) ns
    nodes_names Nodes.end = tt
    nodes_names (Nodes.node n ns) = (node_names n, nodes_names ns)
