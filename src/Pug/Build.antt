-- ===== src/Pug/Build.antt =====
-- `build` and `buildNode` of pugjs/pug_parser.go: nodes from tokens.
use pugtemplate.Common.{
  Text, lit, text_eq, any, replace_all, Bool, List, [], ◌∷◌, ◌++◌, if◌then◌else◌, map,
}
use pugtemplate.Common.Result.{Result, ok, panicked, ◌>>=◌}
use pugtemplate.Pug.Node.{Attribute, AttributedNode, Node, OptNode, Nodes}
use pugtemplate.Pug.Token.{Attr, Fields, Token, OptToken, Tokens, token, print_value}

-- The values of `t.Type` that the switch of buildNode names.
pub data Kind : Type 0 where
  tag mixin text code conditional each while doctype named_block comment : Kind
  case when mixin_block interpolated_tag unknown : Kind

unfoldable pub kind_of : Text → Kind
kind_of type =
    if text_eq type (lit "Tag")
    then Kind.tag
    else if text_eq type (lit "Mixin")
    then Kind.mixin
    else if text_eq type (lit "Text")
    then Kind.text
    else if text_eq type (lit "Code")
    then Kind.code
    else if text_eq type (lit "Conditional")
    then Kind.conditional
    else if text_eq type (lit "Each")
    then Kind.each
    else if text_eq type (lit "While")
    then Kind.while
    else if text_eq type (lit "Doctype")
    then Kind.doctype
    else if text_eq type (lit "NamedBlock")
    then Kind.named_block
    else if text_eq type (lit "Block")
    then Kind.named_block
    else if text_eq type (lit "Comment")
    then Kind.comment
    else if text_eq type (lit "BlockComment")
    then Kind.comment
    else if text_eq type (lit "Case")
    then Kind.case
    else if text_eq type (lit "When")
    then Kind.when
    else if text_eq type (lit "MixinBlock")
    then Kind.mixin_block
    else if text_eq type (lit "InterpolatedTag")
    then Kind.interpolated_tag
    else Kind.unknown

-- The names of SelfClosingTags.
unfoldable pub self_closing_tags : List Text
unfolding lit
self_closing_tags = map lit (
    "area" ∷ "base" ∷ "br" ∷ "col" ∷ "command" ∷ "embed" ∷ "hr" ∷ "img" ∷ "input" ∷ "keygen"
    ∷ "link" ∷ "meta" ∷ "param" ∷ "source" ∷ "track" ∷ "wbr" ∷ [])

abbrev pub is_self_closing : Text → Bool
is_self_closing name = any (text_eq name) self_closing_tags

-- The four replacements that keep template delimiters in a text from being read as such.
unfoldable pub escape_text : Text → Text
escape_text val =
    let a = replace_all val (lit "{{") (lit "--{{--") in
    let b = replace_all a (lit "}}") (lit "--}}--") in
    let c = replace_all b (lit "--{{--") (lit "{{\"{{\"}}") in
    replace_all c (lit "--}}--") (lit "{{\"}}\"}}")

abbrev build_attr : Attr → Attribute
build_attr a = record { name = a.name; val = print_value a.val; must_escape = a.must_escape }

-- The values of the attribute blocks.
abbrev pub block_values : Tokens → List Text
block_values Tokens.nil = []
block_values (Tokens.cons (token f b ns bs c a) ts) = f.val ∷ block_values ts

abbrev pub build_attributed : Fields → Tokens → AttributedNode
build_attributed f blocks = record {
  attrs = map build_attr f.attrs;
  attribute_blocks = block_values blocks;
}

-- A node that is nil is not appended.
abbrev pub append_node : OptNode → Nodes → Nodes
append_node OptNode.absent ns = ns
append_node (OptNode.present n) ns = Nodes.cons n ns

abbrev present : Node → Result OptNode
present n = ok (OptNode.present n)

-- The cases of the switch whose node holds one list of nodes, or none.
unfoldable pub make_node : Kind → Fields → Tokens → Nodes → Result OptNode
make_node Kind.tag f blocks ns = present (
    Node.tag
      (record {
        attributed = build_attributed f blocks;
        self_closing = is_self_closing f.name;
        is_inline = f.is_inline;
      })
      f.name ns)
make_node Kind.mixin f blocks ns = present (
    Node.mixin
      (record {
        attributed = build_attributed f blocks;
        name = f.name;
        call = f.call;
        args = lit "[" ++ (f.args ++ lit "]");
      })
      ns)
make_node Kind.text f blocks ns = present (Node.text (escape_text f.val))
make_node Kind.code f blocks ns =
    present
      (Node.code (record { val = f.val; must_escape = f.must_escape; is_inline = f.is_inline }) ns)
make_node Kind.conditional f blocks ns = panicked
make_node Kind.each f blocks ns =
    present (Node.each (record { obj = f.obj; val = f.val; key = f.key }) ns)
make_node Kind.while f blocks ns = present (Node.while f.test ns)
make_node Kind.doctype f blocks ns = present (Node.doctype f.val)
make_node Kind.named_block f blocks ns = present (Node.block ns)
make_node Kind.comment f blocks ns = ok OptNode.absent
make_node Kind.case f blocks ns = present (Node.case f.expr ns)
make_node Kind.when f blocks ns = present (Node.when f.expr ns)
make_node Kind.mixin_block f blocks ns = present Node.mixin_block
make_node Kind.interpolated_tag f blocks ns = present (
    Node.interpolated_tag
      (record {
        attributed = build_attributed f blocks;
        self_closing = f.self_closing;
        is_inline = f.is_inline;
      })
      f.expr ns)
make_node Kind.unknown f blocks ns = panicked

-- Which tokens a case builds before its node: those of Block, those of the token itself, or none.
pub data Children : Type 0 where
  of_block of_token no_children branches : Children

unfoldable pub children_of : Kind → Children
children_of Kind.text = Children.no_children
children_of Kind.doctype = Children.no_children
children_of Kind.comment = Children.no_children
children_of Kind.mixin_block = Children.no_children
children_of Kind.unknown = Children.no_children
children_of Kind.named_block = Children.of_token
children_of Kind.conditional = Children.branches
children_of _ = Children.of_block

unfoldable mutual
  pub build_node : Token → Result OptNode
  build_node (token f block nodes blocks consequent alternate) =
      let kind = kind_of f.type in
      let in_block = build_block block >>= λ ns. make_node kind f blocks ns in
      let in_token = build nodes >>= λ ns. make_node kind f blocks ns in
      let both = build_consequent consequent >>= λ c.
      build_alternate alternate >>= λ a. present (Node.conditional f.test c a) in
      elim (children_of kind) [
        | Children.of_block ↦ in_block
        | Children.of_token ↦ in_token
        | Children.no_children ↦ make_node kind f blocks Nodes.nil
        | Children.branches ↦ both
      ]

  -- `build(t.Block)`, which is empty for a nil token.
  pub build_block : OptToken → Result Nodes
  build_block OptToken.absent = ok Nodes.nil
  build_block (OptToken.present (token f block nodes blocks consequent alternate)) = build nodes

  -- A nil consequent is dereferenced, a nil alternate skipped.
  pub build_consequent : OptToken → Result OptNode
  build_consequent OptToken.absent = panicked
  build_consequent (OptToken.present t) = build_node t

  pub build_alternate : OptToken → Result OptNode
  build_alternate OptToken.absent = ok OptNode.absent
  build_alternate (OptToken.present t) = build_node t

  pub build : Tokens → Result Nodes
  build Tokens.nil = ok Nodes.nil
  build (Tokens.cons t ts) = do n ← build_node t; ns ← build ts; ok (append_node n ns)
