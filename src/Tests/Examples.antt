-- ===== src/Tests/Examples.antt =====
-- The theorems at concrete inputs.
use pugtemplate.Common.{
  Text, lit, text_eq, text_eq_iff, has_suffix, length, ℕ, suc, ◌≤◌, arith, Bool, true, false, List,
  [], ◌∷◌, ◌++◌, Option, some, none, ◌≡◌, ◌≢◌, refl, ap, if◌then◌else◌, All, subst, Bool-cases, inl,
  inr,
}
use pugtemplate.Common.Result.{Ends}
use pugtemplate.Analyse.Atomic.{check_pugs_in_dir-report, report, listing_files, IsReadableListing}
use pugtemplate.Analyse.Defs.{
  Entry, Listing, Entries, new_atomic_design_analyser, check_pugs_in_dir, allowed_paths,
}
use pugtemplate.Functions.Striptags.Defs.{HtmlNode, HtmlNodes, configured, striptags}
use pugtemplate.Functions.Striptags.Grammar.{Clean, IsQuotable}
use pugtemplate.Functions.Striptags.Sound.{striptags-Clean}
use pugtemplate.Js.Ast.{Expression, Statements}
use pugtemplate.Js.Escape.{IsInert, html_escape, html_escape-IsInert}
use pugtemplate.Js.Fuel.Depth.{HasShortLiterals, js_expr-Ends}
use pugtemplate.Js.Fuel.Literals.{StatementsBelow, Below}
use pugtemplate.Js.Pieces.{Parser}
use pugtemplate.Js.Render.{js_expr}
use pugtemplate.Pug.Build.{escape_text}
use pugtemplate.Pug.Escape.Items.{items}
use pugtemplate.Pug.Escape.RoundTrip.{has_bare_brace, print_text, print-escape_text}
use pugtemplate.Pug.Invariant.Mixins.{IsConsistent, Defined, render-IsConsistent, render-Defined}
use pugtemplate.Pug.Invariant.Effects.{Ensures}
use pugtemplate.Pug.Node.{Node, Nodes, Mixin}
use pugtemplate.Pug.Render.{render}
use pugtemplate.Pug.State.{RenderState, new_render_state, find, has_key}
use pugtemplate.Pug.Token.{Token, OptToken, Tokens, no_fields}
use pugtemplate.Tests.Inputs.{parser, env, name, single}

-- A mixin and a call of it.
abbrev mixin : Bool → Mixin
mixin call = record {
  attributed = record { attrs = []; attribute_blocks = [] };
  name = lit "card";
  call = call;
  args = [];
}

abbrev page : Node
page = Node.block (
    Nodes.cons (Node.mixin (mixin false) (Nodes.cons (Node.text (lit "x")) Nodes.nil))
      (Nodes.cons (Node.mixin (mixin true) Nodes.nil) Nodes.nil))

abbrev start : RenderState
start = new_render_state [] false

start-IsConsistent : IsConsistent start
unfolding has_key
start-IsConsistent = record { ordered = λ n. refl; nonempty = λ n h. cc; counted = refl }

render-IsConsistent_example : Ensures Unit IsConsistent (render parser page start)
render-IsConsistent_example = render-IsConsistent parser page start start-IsConsistent

body-ne-nil : lit "y" ≢ []
unfolding lit
body-ne-nil = cc

abbrev defined : RenderState
defined = record start { mixin = (lit "card", lit "y") ∷ []; mixinorder = lit "card" ∷ [] }

render-Defined_example :
    Ensures Unit (Defined parser (lit "card") (lit "y") body-ne-nil) (render parser page defined)
unfolding lit find text_eq
render-Defined_example = render-Defined parser (lit "card") (lit "y") body-ne-nil page defined refl

abbrev called : RenderState
called = record start { mixincalls = lit "card" ∷ [] }

abbrev braces : Text
braces = lit "a }} b {{"

print-escape_text_example :
    print_text 0 (escape_text braces)
    ≡ (if has_bare_brace (items braces) then none else some braces)
print-escape_text_example = print-escape_text braces

-- A parser of one source with an interpolated string, and of its interpolation.
abbrev interpolated : Text
interpolated = lit "\"x${a}\""

abbrev parse_interpolated : Text → Option Statements
parse_interpolated s =
    if text_eq s (lit "return " ++ interpolated)
    then some (single (Expression.string_literal (lit "x${a}")))
    else if text_eq s (lit "return a")
    then some (single (name "a"))
    else none

abbrev small_parser : Parser
small_parser = record { parse_file = λ s. none; parse_function = parse_interpolated }

parsed_length :
    (s : Text) (n : ℕ)
    → length s ≤ suc n
    → text_eq (lit "return " ++ s) (lit "return " ++ interpolated) ≡ true
    → 5 ≤ n
unfolding lit
parsed_length s n h e =
    omega
      (arith, ap length ((text_eq_iff (lit "return " ++ s) (lit "return " ++ interpolated)).0 e))

parse_interpolated-Below :
    (s : Text) (n : ℕ) (ss : Statements)
    → length s ≤ suc n
    → parse_interpolated (lit "return " ++ s) ≡ some ss
    → StatementsBelow n ss
unfolding StatementsBelow Below
parse_interpolated-Below s n ss h e =
    elim (Bool-cases (text_eq (lit "return " ++ s) (lit "return " ++ interpolated))) [
      | inl f ↦
          let parsed : single (Expression.string_literal (lit "x${a}")) ≡ ss =
            ground (arith, e, f) in
          subst (StatementsBelow n) parsed (unfold lit in parsed_length s n h f, tt)
      | inr f ↦ elim (Bool-cases (text_eq (lit "return " ++ s) (lit "return a"))) [
        | inl g ↦
            let parsed : single (name "a") ≡ ss = ground (arith, e, f, g) in
            subst (StatementsBelow n) parsed (tt, tt)
        | inr g ↦ absurd (ground arith)
      ]
    ]

small_parser-HasShortLiterals : HasShortLiterals small_parser
small_parser-HasShortLiterals = record {
  in_file = λ s n ss h e. absurd cc;
  in_function = parse_interpolated-Below;
}

js_expr-Ends_example : Ends (js_expr env small_parser 8 interpolated true false)
unfolding lit
js_expr-Ends_example =
    js_expr-Ends env small_parser small_parser-HasShortLiterals 8 interpolated true false
      (omega arith)

IsInert-IsQuotable : (s : Text) → All IsInert s → All IsQuotable s
IsInert-IsQuotable [] h = tt
IsInert-IsQuotable (c ∷ s) (q, h) = ((q.0, q.2, q.3), IsInert-IsQuotable s h)

html_escape-IsQuotable : (s : Text) → All IsQuotable (html_escape s)
html_escape-IsQuotable s = IsInert-IsQuotable (html_escape s) (html_escape-IsInert s)

-- A document with an allowed element in one that is not.
abbrev document : Text → Option HtmlNodes
document html = some (
    HtmlNodes.cons
      (HtmlNode.element (lit "div") [] (
        HtmlNodes.cons
          (HtmlNode.element (lit "p") (record { key = lit "id"; val = lit "1\"" } ∷ [])
            (HtmlNodes.cons (HtmlNode.text (lit "a<b") HtmlNodes.nil) HtmlNodes.nil))
          HtmlNodes.nil))
      HtmlNodes.nil)

abbrev allowing_p : List (List (Option Text))
allowing_p = (some (lit "p(id)") ∷ []) ∷ []

striptags-Clean_example :
    Clean (configured allowing_p) (striptags html_escape document (lit "<div>") allowing_p)
striptags-Clean_example =
    striptags-Clean html_escape html_escape-IsQuotable document (lit "<div>") allowing_p

-- A directory with a page that includes an atom.
abbrev directory : Listing
directory = Listing.entries (
    Entries.cons (Entry.file (lit "readme.md") none) (
      Entries.cons
        (Entry.directory (lit "cart") (
          Listing.entries
            (Entries.cons (Entry.file (lit "a.pug") (some (lit "include atom/x"))) Entries.nil)))
        Entries.nil))

directory-IsReadable : IsReadableListing directory
unfolding lit IsReadableListing has_suffix
directory-IsReadable = (refl, ((refl, (tt, tt)), tt))

check_pugs_in_dir-report_example :
    check_pugs_in_dir directory false (lit "atom" ∷ []) new_atomic_design_analyser
    ≡ report false
        (allowed_paths new_atomic_design_analyser.allowed_pug_libs (lit "atom" ∷ []))
        (listing_files directory)
        new_atomic_design_analyser
check_pugs_in_dir-report_example =
    check_pugs_in_dir-report directory false (lit "atom" ∷ []) new_atomic_design_analyser
      directory-IsReadable

-- The document `p= "x${a}"`.
abbrev paragraph : Token
paragraph =
    Token.token no_fields OptToken.absent
      (Tokens.cons
        (Token.token (record no_fields { type = lit "Tag"; name = lit "p" })
          (OptToken.present (
            Token.token no_fields OptToken.absent
              (Tokens.cons
                (Token.token (record no_fields { type = lit "Code"; val = interpolated })
                  OptToken.absent Tokens.nil Tokens.nil OptToken.absent OptToken.absent)
                Tokens.nil)
              Tokens.nil OptToken.absent OptToken.absent))
          Tokens.nil Tokens.nil OptToken.absent OptToken.absent)
        Tokens.nil)
      Tokens.nil OptToken.absent OptToken.absent
