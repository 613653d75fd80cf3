-- ===== src/Pug/Invariant/Results.antt =====
-- Which parts of the Render methods end: all but the translations of JavaScript on their own.
use pugtemplate.Common.{
  Text, Bool, true, false, Option, none, some, suc, length, ltb, if◌then◌else◌,
}
use pugtemplate.Common.Result.{Result, ok, panicked, out_of_fuel, or_panic, Ends, >>=-Ends}
use pugtemplate.Js.Pieces.{Env, Parser}
use pugtemplate.Js.Render.{js_expr}
use pugtemplate.Pug.Node.{CommonTag, Node, Nodes, inline, inline_block}
use pugtemplate.Pug.Pieces.{asks_inline, block_is_inline, inner_args}

-- `U` is what is known of a result out of fuel.
abbrev pub EndsOr : {A : Type 0} → Type 0 → Result A → Type 0
EndsOr U (ok a) = Unit
EndsOr U panicked = Unit
EndsOr U out_of_fuel = U

-- Every translation of JavaScript in a Render method ends, or `U`.
abbrev pub Translates : Type 0 → Parser → Type 0
Translates U parser =
    (env : Env) (e : Text) (wrap rawcode : Bool)
    → EndsOr U (js_expr env parser (suc (length e)) e wrap rawcode)

pub Ends-EndsOr : {A : Type 0} (U : Type 0) (r : Result A) → Ends r → EndsOr U r
Ends-EndsOr U (ok a) h = tt
Ends-EndsOr U panicked h = tt
Ends-EndsOr U out_of_fuel h = absurd h

-- Nothing need be known of a result out of fuel.
pub EndsOr-Unit : {A : Type 0} (r : Result A) → EndsOr Unit r
EndsOr-Unit (ok a) = tt
EndsOr-Unit panicked = tt
EndsOr-Unit out_of_fuel = tt

pub or_panic-Ends : {A : Type 0} (o : Option A) → Ends (or_panic o)
or_panic-Ends none = tt
or_panic-Ends (some a) = tt

pub inner_args-Ends : (args : Text) → Ends (inner_args args)
inner_args-Ends args = if_ends (ltb (length args) 2) _
  where
    if_ends : (b : Bool) (t : Text) → Ends (if b then panicked else ok t)
    if_ends true t = tt
    if_ends false t = tt

rest-Ends : (b : Bool) (r : Result Bool) → Ends r → Ends (elim b [ true ↦ r | false ↦ ok false ])
rest-Ends true r h = h
rest-Ends false r h = tt

mutual
  unfolding inline

  inline-Ends : (n : Node) → Ends (inline n)
  inline-Ends (Node.block ns) = inline_block-Ends ns
  inline-Ends (Node.tag t name ns) = or_panic-Ends t.is_inline
  inline-Ends (Node.interpolated_tag t expr ns) = or_panic-Ends t.is_inline
  inline-Ends (Node.mixin m ns) = inline_block-Ends ns
  inline-Ends Node.mixin_block = tt
  inline-Ends (Node.text val) = tt
  inline-Ends (Node.code c ns) = or_panic-Ends c.is_inline
  inline-Ends (Node.conditional test consequent alternate) = tt
  inline-Ends (Node.each e ns) = inline_block-Ends ns
  inline-Ends (Node.while test ns) = inline_block-Ends ns
  inline-Ends (Node.doctype val) = tt
  inline-Ends (Node.case expr ns) = inline_block-Ends ns
  inline-Ends (Node.when expr ns) = inline_block-Ends ns

  inline_block-Ends : (ns : Nodes) → Ends (inline_block ns)
  inline_block-Ends Nodes.nil = tt
  inline_block-Ends (Nodes.cons n ns) =
      >>=-Ends (inline n) _ (inline-Ends n) λ b. rest-Ends b _ (inline_block-Ends ns)

pub block_is_inline-Ends :
    (t : CommonTag) (name sub : Text) (ns : Nodes) → Ends (block_is_inline t name sub ns)
unfolding block_is_inline
block_is_inline-Ends t name sub ns = if_ends (asks_inline t name sub)
  where
    if_ends : (b : Bool) → Ends (if b then inline_block ns else ok true)
    if_ends true = inline_block-Ends ns
    if_ends false = tt
