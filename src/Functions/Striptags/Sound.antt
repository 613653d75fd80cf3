-- ===== src/Functions/Striptags/Sound.antt =====
-- What striptags returns is in the grammar of stripped texts.
use pugtemplate.Common.{
  Text, lit, text_eq, List, [], ◌∷◌, ◌++◌, ◌≡◌, arith, append_assoc, append-nil, any, All, Option,
  some, none, Bool-cases, Option-cases, inl, inr,
}
use pugtemplate.Functions.Striptags.Defs.{
  AllowedTag, HtmlAttribute, HtmlNode, HtmlNodes, find_tag, allowed_tag, allowed_attributes,
  enclose, configured, strip_document, open_tag, close_tag, clean_tags, clean_children, striptags,
  is_empty,
}
use pugtemplate.Functions.Striptags.Grammar.{
  IsPlain, IsQuotable, Attributes, Clean, empty, element, void, Clean-append, Clean-text, flag,
  valued,
}
use pugtemplate.Pug.Build.{is_self_closing}

IsQuotable-IsPlain : (s : Text) → All IsQuotable s → All IsPlain s
IsQuotable-IsPlain [] h = tt
IsQuotable-IsPlain (c ∷ s) (q, h) = ((q.1, q.2), IsQuotable-IsPlain s h)

allowed_tag-found :
    (name : Text) (tags : List AllowedTag) (t : AllowedTag)
    → allowed_tag name tags ≡ some t
    → find_tag name tags ≡ some t
unfolding allowed_tag
allowed_tag-found name tags t h = ground arith

-- `html.EscapeString` leaves no angle bracket and no quotation mark.
module _ (escape : Text → Text) (escapes : (s : Text) → All IsQuotable (escape s)) where
  allowed_attributes-Attributes :
      (as' : List HtmlAttribute) (allowed : List Text)
      → Attributes allowed (allowed_attributes escape as' allowed)
  unfolding allowed_attributes
  allowed_attributes-Attributes [] allowed = Attributes.none
  allowed_attributes-Attributes (a ∷ as') allowed =
      let rest = allowed_attributes-Attributes as' allowed in
      elim (Bool-cases (any (text_eq a.key) allowed)) [
        | inr e ↦ rw e rest
        | inl e ↦ rw e (elim (Bool-cases (is_empty a.val)) [
          | inl v ↦ rw v (simp (append_assoc, append-nil) (flag a.key e rest))
          | inr v ↦ rw v (simp append_assoc (valued a.key (escape a.val) e (escapes a.val) rest))
        ])
      ]

  -- The element around a clean body.
  wrapped-Clean :
      (name : Text) (tags : List AllowedTag) (t : AllowedTag) {attributes body : Text}
      → find_tag name tags ≡ some t
      → Attributes t.attributes attributes
      → Clean tags body
      → Clean tags (open_tag escape name attributes ++ (body ++ close_tag escape name))
  unfolding open_tag close_tag lit
  wrapped-Clean name tags t {attributes} {body} f a b = elim (Bool-cases (is_self_closing name)) [
    | inl v ↦ rw v (simp (append_assoc, append-nil) (void name t f v a b))
    | inr v ↦ rw v (simp append_assoc (rw (append-nil (lit ">")) at (element name t f v a b empty)))
  ]

  mutual
    unfolding clean_tags enclose

    clean_tags-Clean :
        (n : HtmlNode) (tags : List AllowedTag) → Clean tags (clean_tags escape n tags)
    clean_tags-Clean (HtmlNode.element name attrs children) tags =
        let inner = clean_children-Clean children tags in
        elim (Option-cases (allowed_tag name tags)) [
          | inl e ↦ rw e inner
          | inr (t, e) ↦ rw e (
              wrapped-Clean name tags t (allowed_tag-found name tags t e)
                (allowed_attributes-Attributes attrs t.attributes) inner)
        ]
    clean_tags-Clean (HtmlNode.text s children) tags =
        Clean-append _ (Clean-text (escape s) (IsQuotable-IsPlain (escape s) (escapes s)))
          (clean_children-Clean children tags)
    clean_tags-Clean (HtmlNode.other children) tags = clean_children-Clean children tags

    clean_children-Clean :
        (ns : HtmlNodes) (tags : List AllowedTag) → Clean tags (clean_children escape ns tags)
    clean_children-Clean HtmlNodes.nil tags = empty
    clean_children-Clean (HtmlNodes.cons n ns) tags =
        Clean-append _ (clean_tags-Clean n tags) (clean_children-Clean ns tags)

  strip_document-Clean :
      (o : Option HtmlNodes) (tags : List AllowedTag) → Clean tags (strip_document escape o tags)
  unfolding strip_document
  strip_document-Clean none tags = empty
  strip_document-Clean (some doc) tags = clean_children-Clean doc tags

  -- Whatever document the parser makes of the input, and whatever is configured, the stripped text
  -- is text without angle brackets and properly nested elements, each allowed by the configuration
  -- with attributes that its definition lists, their values free of quotation marks. What is
  -- assumed is that `html.EscapeString` leaves no angle bracket and no double quotation mark.
  pub striptags-Clean :
      (parse_fragment : Text → Option HtmlNodes) (html : Text) (configs : List (List (Option Text)))
      → Clean (configured configs) (striptags escape parse_fragment html configs)
  unfolding striptags
  striptags-Clean parse_fragment html configs =
      strip_document-Clean (parse_fragment html) (configured configs)
