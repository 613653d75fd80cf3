-- ===== src/Pug/Token.antt =====
-- The token tree of pugjs/pug_parser.go, as json.Unmarshal fills it. The fields that no code
-- reads (Mode, Line, File, Filename) are left out.
use pugtemplate.Common.{Text, lit, Bool, true, false, List, [], Option}

-- The value of an attribute: a JSON text, boolean or null, or what %v prints of any other value.
pub data AttrValue : Type 0 where
  text : Text → AttrValue
  bool : Bool → AttrValue
  null : AttrValue
  printed : Text → AttrValue

pub record Attr : Type 0 where
  pub name : Text
  pub val : AttrValue
  pub must_escape : Bool

-- The fields of a token that hold no token.
pub record Fields : Type 0 where
  pub type : Text
  pub name : Text
  pub val : Text
  pub attrs : List Attr
  pub must_escape : Bool
  pub self_closing : Bool
  pub is_inline : Option Bool
  pub obj : Text
  pub key : Text
  pub call : Bool
  pub args : Text
  pub test : Text
  pub expr : Text

-- A token: its fields, then Block, Nodes, AttributeBlocks, Consequent and Alternate.
mutual
  pub data Token : Type 0 where
    token : Fields → OptToken → Tokens → Tokens → OptToken → OptToken → Token

  pub data OptToken : Type 0 where
    absent : OptToken
    present : Token → OptToken

  pub data Tokens : Type 0 where
    nil : Tokens
    cons : Token → Tokens → Tokens

-- fmt's %v.
unfoldable pub print_value : AttrValue → Text
print_value (AttrValue.text s) = s
print_value (AttrValue.bool true) = lit "true"
print_value (AttrValue.bool false) = lit "false"
print_value AttrValue.null = lit "<nil>"
print_value (AttrValue.printed s) = s

-- A token with the fields of an empty literal.
abbrev pub no_fields : Fields
no_fields = record {
  type = [];
  name = [];
  val = [];
  attrs = [];
  must_escape = false;
  self_closing = false;
  is_inline = Option.none;
  obj = [];
  key = [];
  call = false;
  args = [];
  test = [];
  expr = [];
}
