-- ===== src/Functions/Striptags/Defs.antt =====
-- The configuration of allowed tags, and the walk over the parsed document.
use pugtemplate.Common.{
  Text, lit, text_eq, contains, to_lower, split, trim_right, Bool, true, false, not, List, [], ◌∷◌,
  ◌++◌, ◌==◌, if◌then◌else◌, any, Option, none, some,
}
use pugtemplate.Pug.Build.{is_self_closing}

pub record AllowedTag : Type 0 where
  pub name : Text
  pub attributes : List Text

pub record HtmlAttribute : Type 0 where
  pub key : Text
  pub val : Text

-- html.Node: an element by its Data and Attr, a text by its Data, or a node of another type.
mutual
  pub data HtmlNode : Type 0 where
    element : Text → List HtmlAttribute → HtmlNodes → HtmlNode
    text : Text → HtmlNodes → HtmlNode
    other : HtmlNodes → HtmlNode

  pub data HtmlNodes : Type 0 where
    nil : HtmlNodes
    cons : HtmlNode → HtmlNodes → HtmlNodes

abbrev first_part : List Text → Text
first_part [] = []
first_part (s ∷ ss) = s

-- `split[1]`, which is there since the definition holds a parenthesis.
abbrev second_part : List Text → Text
second_part [] = []
second_part (s ∷ ss) = first_part ss

unfoldable pub create_tag : Text → AllowedTag
create_tag definition =
    let lower = to_lower definition in
    let parts = split 40 lower in
    if not (contains (lit "(") lower) then record { name = lower; attributes = [] } else record {
      name = first_part parts;
      attributes = split 32 (trim_right (◌==◌ 41) (second_part parts));
    }

-- The map of allowed tags, each under its own name.
unfoldable pub put_tag : AllowedTag → List AllowedTag → List AllowedTag
put_tag t [] = t ∷ []
put_tag t (u ∷ ts) = if text_eq u.name t.name then t ∷ ts else u ∷ put_tag t ts

unfoldable pub find_tag : Text → List AllowedTag → Option AllowedTag
find_tag n [] = none
find_tag n (t ∷ ts) = if text_eq t.name n then some t else find_tag n ts

-- The items of the configuration; one that is no text is passed over.
unfoldable pub allowed_tags : List (Option Text) → List AllowedTag → List AllowedTag
unfolding create_tag put_tag
allowed_tags [] tags = tags
allowed_tags (none ∷ items) tags = allowed_tags items tags
allowed_tags (some definition ∷ items) tags =
    allowed_tags items (put_tag (create_tag definition) tags)

-- The tag that allows a node: none has an empty name.
abbrev pub is_empty : Text → Bool
is_empty [] = true
is_empty (c ∷ s) = false

unfoldable pub allowed_tag : Text → List AllowedTag → Option AllowedTag
unfolding find_tag
allowed_tag data' tags = elim (find_tag data' tags) [
  | none ↦ none
  | some t ↦ if is_empty t.name then none else some t
]

-- A configuration counts only if it is the one argument.
abbrev pub configured : List (List (Option Text)) → List AllowedTag
configured (config ∷ []) = allowed_tags config []
configured _ = []

module _ (escape : Text → Text) where
  unfoldable pub allowed_attributes : List HtmlAttribute → List Text → Text
  allowed_attributes [] allowed = []
  allowed_attributes (a ∷ as') allowed =
      let value = if is_empty a.val then [] else lit "=\"" ++ (escape a.val ++ lit "\"") in
      let shown = lit " " ++ (a.key ++ value) in
      (if any (text_eq a.key) allowed then shown else []) ++ allowed_attributes as' allowed

  unfoldable pub open_tag : Text → Text → Text
  open_tag data' attributes =
      lit "<"
      ++ (data' ++ (attributes ++ ((if is_self_closing data' then lit " /" else []) ++ lit ">")))

  unfoldable pub close_tag : Text → Text
  close_tag data' = if is_self_closing data' then [] else lit "</" ++ (data' ++ lit ">")

  -- What is written for an element, over the text of its children.
  unfoldable pub enclose : Text → List HtmlAttribute → Text → Option AllowedTag → Text
  enclose data' attrs inner none = inner
  enclose data' attrs inner (some t) =
      open_tag data' (allowed_attributes attrs t.attributes) ++ (inner ++ close_tag data')

  unfoldable mutual
    pub clean_tags : HtmlNode → List AllowedTag → Text
    clean_tags (HtmlNode.element data' attrs children) tags =
        enclose data' attrs (clean_children children tags) (allowed_tag data' tags)
    clean_tags (HtmlNode.text data' children) tags = escape data' ++ clean_children children tags
    clean_tags (HtmlNode.other children) tags = clean_children children tags

    pub clean_children : HtmlNodes → List AllowedTag → Text
    clean_children HtmlNodes.nil tags = []
    clean_children (HtmlNodes.cons n ns) tags = clean_tags n tags ++ clean_children ns tags

  -- The document's text; a refused input gives the empty one.
  unfoldable pub strip_document : Option HtmlNodes → List AllowedTag → Text
  strip_document none tags = []
  strip_document (some doc) tags = clean_children doc tags

  unfoldable pub striptags : (Text → Option HtmlNodes) → Text → List (List (Option Text)) → Text
  unfolding strip_document
  striptags parse_fragment html configs = strip_document (parse_fragment html) (configured configs)
