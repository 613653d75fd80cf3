-- ===== src/Pug/Invariant/Ends.antt =====
-- A document is compiled to the end: no part of it runs out of fuel.
use pugtemplate.Common.{Text, suc, length, Bool, arith}
use pugtemplate.Common.Result.{Result, Ends, >>=-Ends}
use pugtemplate.Js.Fuel.Depth.{HasShortLiterals, js_expr-Ends}
use pugtemplate.Js.Pieces.{Parser}
use pugtemplate.Pug.Build.{
  Kind, Children, make_node, children_of, kind_of, build_node, build_block, build_consequent,
  build_alternate, build,
}
use pugtemplate.Pug.Compile.{render_all, template_text, compile, check_template}
use pugtemplate.Pug.Invariant.Mixins.{call-Preserves}
use pugtemplate.Pug.Invariant.Results.{Translates, Ends-EndsOr, inner_args-Ends}
use pugtemplate.Pug.Invariant.Effects.{
  Ensures, Preserves, bind-Preserves, pure-Preserves, write-Preserves, modify-Preserves,
  lift-Preserves, sub_buffer-Preserves, if-Preserves, get-Preserves,
}
use pugtemplate.Pug.Invariant.Rule.{IsInvariant, render-Preserves}
use pugtemplate.Pug.Node.{Nodes}
use pugtemplate.Pug.Pieces.{inner_args, is_empty, record_call, render_definition}
use pugtemplate.Pug.State.{RenderState, Outcome, find, forget_error, ignore_error}
use pugtemplate.Pug.Token.{Fields, Token, OptToken, Tokens}

make_node-Ends :
    (k : Kind) (f : Fields) (blocks : Tokens) (ns : Nodes) → Ends (make_node k f blocks ns)
unfolding make_node
make_node-Ends Kind.tag f blocks ns = tt
make_node-Ends Kind.mixin f blocks ns = tt
make_node-Ends Kind.text f blocks ns = tt
make_node-Ends Kind.code f blocks ns = tt
make_node-Ends Kind.conditional f blocks ns = tt
make_node-Ends Kind.each f blocks ns = tt
make_node-Ends Kind.while f blocks ns = tt
make_node-Ends Kind.doctype f blocks ns = tt
make_node-Ends Kind.named_block f blocks ns = tt
make_node-Ends Kind.comment f blocks ns = tt
make_node-Ends Kind.case f blocks ns = tt
make_node-Ends Kind.when f blocks ns = tt
make_node-Ends Kind.mixin_block f blocks ns = tt
make_node-Ends Kind.interpolated_tag f blocks ns = tt
make_node-Ends Kind.unknown f blocks ns = tt

-- Whichever children a token builds.
children-Ends :
    {A : Type 0} (c : Children) (w x y z : Result A)
    → Ends w
    → Ends x
    → Ends y
    → Ends z
    → Ends (elim c [
      | Children.of_block ↦ w
      | Children.of_token ↦ x
      | Children.no_children ↦ y
      | Children.branches ↦ z
    ])
children-Ends Children.of_block w x y z a b c d = a
children-Ends Children.of_token w x y z a b c d = b
children-Ends Children.no_children w x y z a b c d = c
children-Ends Children.branches w x y z a b c d = d

mutual
  unfolding build_node

  build_node-Ends : (t : Token) → Ends (build_node t)
  build_node-Ends (Token.token f block nodes blocks consequent alternate) =
      let k = kind_of f.type in
      children-Ends (children_of k) _ _ _ _
        (>>=-Ends _ _ (build_block-Ends block) λ ns. make_node-Ends k f blocks ns)
        (>>=-Ends _ _ (build-Ends nodes) λ ns. make_node-Ends k f blocks ns)
        (make_node-Ends k f blocks Nodes.nil)
        (>>=-Ends _ _ (build_consequent-Ends consequent)
          λ c. >>=-Ends _ _ (build_alternate-Ends alternate) λ a. tt)

  pub build_block-Ends : (t : OptToken) → Ends (build_block t)
  build_block-Ends OptToken.absent = tt
  build_block-Ends (OptToken.present (Token.token f block nodes blocks consequent alternate)) =
      build-Ends nodes

  build_consequent-Ends : (t : OptToken) → Ends (build_consequent t)
  build_consequent-Ends OptToken.absent = tt
  build_consequent-Ends (OptToken.present t) = build_node-Ends t

  build_alternate-Ends : (t : OptToken) → Ends (build_alternate t)
  build_alternate-Ends OptToken.absent = tt
  build_alternate-Ends (OptToken.present t) = build_node-Ends t

  build-Ends : (ts : Tokens) → Ends (build ts)
  build-Ends Tokens.nil = tt
  build-Ends (Tokens.cons t ts) =
      >>=-Ends _ _ (build_node-Ends t) λ n. >>=-Ends _ _ (build-Ends ts) λ ns. tt

module _ (parser : Parser) (short : HasShortLiterals parser) where
  translates : Translates ⊥ parser
  translates env e wrap rawcode =
      Ends-EndsOr ⊥ _ (js_expr-Ends env parser short (suc (length e)) e wrap rawcode (omega arith))

  -- Nothing need be known of the state.
  abbrev Any : RenderState → Type 0
  Any s = Unit

  Any-IsInvariant : IsInvariant ⊥ parser Any
  unfolding record_call render_definition
  Any-IsInvariant = record {
    rawmode = λ b s p. tt;
    doctype = λ t s p. tt;
    recorded = λ name. modify-Preserves ⊥ Any _ λ s p. tt;
    called =
        λ m attributes sub. call-Preserves parser ⊥ Any m attributes sub translates λ b s p. tt;
    defined = λ m body h. bind-Preserves ⊥ Any (get-Preserves ⊥ Any) λ s.
        if-Preserves ⊥ Any (is_empty (find m.name s.mixin))
          (bind-Preserves ⊥ Any (lift-Preserves ⊥ Any (inner_args m.args) (inner_args-Ends m.args))
            λ args.
              bind-Preserves ⊥ Any (sub_buffer-Preserves ⊥ Any h)
                λ sub. modify-Preserves ⊥ Any _ λ t p. tt)
          (pure-Preserves ⊥ Any tt);
  }

  forget-Ensures : (o : Outcome (Unit {0})) → Ensures ⊥ Any o → Ensures ⊥ Any (forget_error o)
  forget-Ensures (Outcome.returned s w a) h = tt
  forget-Ensures (Outcome.failed s w e) h = tt
  forget-Ensures Outcome.panicked h = tt
  forget-Ensures Outcome.out_of_fuel h = h

  render_all-Preserves : (ns : Nodes) → Preserves ⊥ Any (render_all parser ns)
  unfolding render_all ignore_error
  render_all-Preserves Nodes.nil = pure-Preserves ⊥ Any tt
  render_all-Preserves (Nodes.cons n ns) =
      bind-Preserves ⊥ Any
        (record {
          run = λ s p.
              forget-Ensures _ ((render-Preserves ⊥ parser translates Any-IsInvariant n).run s p);
        })
        λ u. render_all-Preserves ns

  template_text-Preserves : (t : Token) → Preserves ⊥ Any (template_text parser t)
  unfolding template_text
  template_text-Preserves t =
      bind-Preserves ⊥ Any (lift-Preserves ⊥ Any _ (build_block-Ends (OptToken.present t))) λ ns.
        bind-Preserves ⊥ Any (render_all-Preserves ns) λ u.
          bind-Preserves ⊥ Any (get-Preserves ⊥ Any)
            λ s. bind-Preserves ⊥ Any (write-Preserves ⊥ Any _) λ v. write-Preserves ⊥ Any _

  outcome-Ends :
      (accepts : Text → Bool) (o : Outcome (Unit {0}))
      → Ensures ⊥ Any o
      → Ends (check_template accepts o)
  outcome-Ends accepts (Outcome.returned s w a) h = tt
  outcome-Ends accepts (Outcome.failed s w e) h = tt
  outcome-Ends accepts Outcome.panicked h = tt
  outcome-Ends accepts Outcome.out_of_fuel h = h

  -- Under a JavaScript parser whose string literals are shorter than the source that they stand
  -- in, the compilation of every token tree, from every render state, ends with a template, an
  -- error or a panic: the fuel of the model is never what stops it.
  pub compile-Ends :
      (accepts : Text → Bool) (s : RenderState) (t : Token) → Ends (compile accepts parser s t)
  unfolding compile
  compile-Ends accepts s t = outcome-Ends accepts _ ((template_text-Preserves t).run s tt)
