-- ===== src/Template/Names.antt =====
-- The names that a template may call: functions, fields and methods, in its trees.
use pugtemplate.Common.{Text, All, Option, none, some}
use pugtemplate.Template.Syntax.{Arg, Args, Commands, Pipeline, Node, Nodes}

module _ {C : Type 0} (Ok : Text → Type 0) where
  unfoldable mutual
    pub ArgOk : Arg C → Type 0
    ArgOk Arg.dot = Unit
    ArgOk Arg.nil = Unit
    ArgOk (Arg.constant c) = Unit
    ArgOk (Arg.identifier n) = Ok n
    ArgOk (Arg.field ns) = All Ok ns
    ArgOk (Arg.variable x ns) = All Ok ns
    ArgOk (Arg.chain x ns) = ArgOk x × All Ok ns
    ArgOk (Arg.pipe p) = PipelineOk p

    pub ArgsOk : Args C → Type 0
    ArgsOk Args.end = Unit
    ArgsOk (Args.arg x xs) = ArgOk x × ArgsOk xs

    pub CommandsOk : Commands C → Type 0
    CommandsOk Commands.done = Unit
    CommandsOk (Commands.command x xs cs) = ArgOk x × ArgsOk xs × CommandsOk cs

    pub PipelineOk : Pipeline C → Type 0
    PipelineOk (Pipeline.pipeline cs xs) = CommandsOk cs

  abbrev pub DotOk : Option (Pipeline C) → Type 0
  DotOk none = Unit
  DotOk (some p) = PipelineOk p

  unfoldable mutual
    unfolding PipelineOk

    pub NodeOk : Node C → Type 0
    NodeOk (Node.action p) = PipelineOk p
    NodeOk (Node.if_else p ns ms) = PipelineOk p × NodesOk ns × NodesOk ms
    NodeOk (Node.with_else p ns ms) = PipelineOk p × NodesOk ns × NodesOk ms
    NodeOk (Node.range p ns ms) = PipelineOk p × NodesOk ns × NodesOk ms
    NodeOk (Node.list ns) = NodesOk ns
    NodeOk (Node.template n p) = DotOk p
    NodeOk (Node.text t) = Unit
    NodeOk (Node.try ns x ms) = NodesOk ns × NodesOk ms

    pub NodesOk : Nodes C → Type 0
    NodesOk Nodes.end = Unit
    NodesOk (Nodes.node n ns) = NodeOk n × NodesOk ns
