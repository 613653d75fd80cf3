-- ===== src/Functions/Striptags/Grammar.antt =====
-- What a stripped text may look like.
use pugtemplate.Common.{
  Text, ℕ, lit, text_eq, true, false, List, [], ◌∷◌, ◌++◌, ◌≡◌, ◌≢◌, append_assoc, any, All, some,
}
use pugtemplate.Functions.Striptags.Defs.{AllowedTag, find_tag}
use pugtemplate.Pug.Build.{is_self_closing}

-- A byte of text: neither angle bracket. A byte of a quoted value: no quotation mark either.
abbrev pub IsPlain : ℕ → Type 0
IsPlain c = (c ≢ 60) × (c ≢ 62)

abbrev pub IsQuotable : ℕ → Type 0
IsQuotable c = (c ≢ 34) × (c ≢ 60) × (c ≢ 62)

-- Attributes of an open tag, all among the allowed ones.
pub data Attributes (allowed : List Text) : Text → Type 0 where
  none : Attributes allowed []
  flag :
      (key : Text) {rest : Text}
      → any (text_eq key) allowed ≡ true
      → Attributes allowed rest
      → Attributes allowed (lit " " ++ (key ++ rest))
  valued :
      (key value : Text) {rest : Text}
      → any (text_eq key) allowed ≡ true
      → All IsQuotable value
      → Attributes allowed rest
      → Attributes allowed (lit " " ++ (key ++ (lit "=\"" ++ (value ++ (lit "\"" ++ rest)))))

-- Text without angle brackets, and elements that are allowed, properly nested; an element without
-- content has no end tag.
pub data Clean (tags : List AllowedTag) : Text → Type 0 where
  empty : Clean tags []
  plain : (c : ℕ) {rest : Text} → IsPlain c → Clean tags rest → Clean tags (c ∷ rest)
  element :
      (name : Text) (t : AllowedTag) {attributes body rest : Text}
      → find_tag name tags ≡ some t
      → is_self_closing name ≡ false
      → Attributes t.attributes attributes
      → Clean tags body
      → Clean tags rest
      → Clean tags (
          lit "<"
          ++ (name
              ++ (attributes ++ (lit ">" ++ (body ++ (lit "</" ++ (name ++ (lit ">" ++ rest))))))))
  void :
      (name : Text) (t : AllowedTag) {attributes rest : Text}
      → find_tag name tags ≡ some t
      → is_self_closing name ≡ true
      → Attributes t.attributes attributes
      → Clean tags rest
      → Clean tags (lit "<" ++ (name ++ (attributes ++ (lit " />" ++ rest))))

module _ {tags : List AllowedTag} where
  pub Clean-append : {s : Text} (t : Text) → Clean tags s → Clean tags t → Clean tags (s ++ t)
  Clean-append t empty k = k
  Clean-append t (plain c p h) k = plain c p (Clean-append t h k)
  Clean-append t (element name tag {attributes} {body} {rest} f e a b h) k =
      simp append_assoc (element name tag f e a b (Clean-append t h k))
  Clean-append t (void name tag {attributes} {rest} f e a h) k =
      simp append_assoc (void name tag f e a (Clean-append t h k))

  pub Clean-text : (s : Text) → All IsPlain s → Clean tags s
  Clean-text [] h = empty
  Clean-text (c ∷ s) (p, h) = plain c p (Clean-text s h)
