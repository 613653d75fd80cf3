-- ===== src/Pug/Node.antt =====
-- The nodes of pugjs/pug_blocks.go. A pointer that may be nil is an `Option`, an interface value
-- that may be nil an `OptNode`. Comments and MockNode are left out: no comment is built.
use pugtemplate.Common.{Text, Bool, true, false, List, Option}
use pugtemplate.Common.Result.{Result, ok, or_panic, ◌>>=◌}

-- An attribute as the parser builds it; `BoolVal` is set at run time only.
pub record Attribute : Type 0 where
  pub name : Text
  pub val : Text
  pub must_escape : Bool

pub record AttributedNode : Type 0 where
  pub attrs : List Attribute
  pub attribute_blocks : List Text

pub record CommonTag : Type 0 where
  pub attributed : AttributedNode
  pub self_closing : Bool
  pub is_inline : Option Bool

pub record Code : Type 0 where
  pub val : Text
  pub must_escape : Bool
  pub is_inline : Option Bool

pub record Each : Type 0 where
  pub obj : Text
  pub val : Text
  pub key : Text

pub record Mixin : Type 0 where
  pub attributed : AttributedNode
  pub name : Text
  pub call : Bool
  pub args : Text

mutual
  pub data Node : Type 0 where
    block : Nodes → Node
    tag : CommonTag → Text → Nodes → Node
    interpolated_tag : CommonTag → Text → Nodes → Node
    mixin : Mixin → Nodes → Node
    mixin_block : Node
    text : Text → Node
    code : Code → Nodes → Node
    conditional : Text → OptNode → OptNode → Node
    each : Each → Nodes → Node
    while : Text → Nodes → Node
    doctype : Text → Node
    case : Text → Nodes → Node
    when : Text → Nodes → Node

  pub data OptNode : Type 0 where
    absent : OptNode
    present : Node → OptNode

  pub data Nodes : Type 0 where
    nil : Nodes
    cons : Node → Nodes → Nodes

-- `Inline`; a nil `IsInline` is dereferenced.
unfoldable mutual
  pub inline : Node → Result Bool
  inline (Node.block ns) = inline_block ns
  inline (Node.tag t name ns) = or_panic t.is_inline
  inline (Node.interpolated_tag t expr ns) = or_panic t.is_inline
  inline (Node.mixin m ns) = inline_block ns
  inline Node.mixin_block = ok true
  inline (Node.text val) = ok true
  inline (Node.code c ns) = or_panic c.is_inline
  inline (Node.conditional test consequent alternate) = ok true
  inline (Node.each e ns) = inline_block ns
  inline (Node.while test ns) = inline_block ns
  inline (Node.doctype val) = ok true
  inline (Node.case expr ns) = inline_block ns
  inline (Node.when expr ns) = inline_block ns

  -- The loop of a block: the first node that is not inline ends it.
  pub inline_block : Nodes → Result Bool
  inline_block Nodes.nil = ok true
  inline_block (Nodes.cons n ns) =
      let rest = inline_block ns in inline n >>= λ b. elim b [ true ↦ rest | false ↦ ok false ]
