-- ===== src/Pug/Invariant/Rule.antt =====
-- An induction rule for the Render methods: what the six places that change the state keep, every
-- Render method keeps, whether it returns or fails.
use pugtemplate.Common.{Text, Bool, true, false, not, ◌&&◌, []}
use pugtemplate.Js.Pieces.{Parser}
use pugtemplate.Pug.Invariant.Results.{Translates}
use pugtemplate.Pug.Node.{Mixin, Node, OptNode, Nodes}
use pugtemplate.Pug.Pieces.{
  js, finish_call, record_call, render_call, render_definition, is_default, has_default,
}
use pugtemplate.Pug.Render.{
  render, render_block, render_consequent, render_alternate, render_cases, render_default,
}
use pugtemplate.Pug.State.{RenderState, M, ◌>>=◌, ◌>>◌, write}
use pugtemplate.Pug.Invariant.Effects.{
  Preserves, bind-Preserves, pure-Preserves, write-Preserves, fail-Preserves, panic-Preserves,
  modify-Preserves, sub_buffer-Preserves, if-Preserves, js-Preserves, call_attributes-Preserves,
  finish_tag-Preserves,
}

-- What an invariant has to keep: the two fields that other methods set, a call and a definition.
pub record IsInvariant (U : Type 0) (parser : Parser) (P : RenderState → Type 0) : Type 0 where
  pub rawmode : (b : Bool) (s : RenderState) → P s → P (record s { rawmode = b })
  pub doctype : (t : Text) (s : RenderState) → P s → P (record s { doctype = t })
  pub recorded : (name : Text) → Preserves U P (record_call name)
  pub called :
      (m : Mixin) (attributes sub : Text) → Preserves U P (finish_call parser m attributes sub)
  pub defined :
      (m : Mixin) (body : M (Unit {0}))
      → Preserves U P body
      → Preserves U P (render_definition m body)

module _ (U : Type 0) (parser : Parser) (translates : Translates U parser)
    {P : RenderState → Type 0} (inv : IsInvariant U parser P) where
  render_call-Preserves :
      (m : Mixin) {body : M (Unit {0})}
      → Preserves U P body
      → Preserves U P (render_call parser m body)
  unfolding render_call
  render_call-Preserves m h = bind-Preserves U P (inv.recorded m.name) λ u.
      bind-Preserves U P (call_attributes-Preserves U P parser translates m.attributed.attrs)
        λ attributes. bind-Preserves U P (sub_buffer-Preserves U P h) λ sub. inv.called m _ sub

  -- The head of a range or a condition, what it encloses, and its end.
  enclosed-Preserves :
      (e : Text) (head : Text → Text) {body : M (Unit {0})} (end : Text)
      → Preserves U P body
      → Preserves U P (js parser e false false >>= λ t. write (head t) >> (body >> write end))
  enclosed-Preserves e head end h =
      bind-Preserves U P (js-Preserves U P parser translates e false false) λ t.
        bind-Preserves U P (write-Preserves U P _)
          λ u. bind-Preserves U P h λ v. write-Preserves U P _

  mutual
    unfolding render

    render-keeps : (n : Node) → Preserves U P (render parser n)
    render-keeps (Node.block ns) = block-keeps ns
    render-keeps (Node.tag t name ns) =
        bind-Preserves U P (sub_buffer-Preserves U P (block-keeps ns))
          λ sub. finish_tag-Preserves U P parser translates t name ns sub
    render-keeps (Node.interpolated_tag t expr ns) =
        bind-Preserves U P (js-Preserves U P parser translates expr true false) λ name.
          bind-Preserves U P (sub_buffer-Preserves U P (block-keeps ns))
            λ sub. finish_tag-Preserves U P parser translates t name ns sub
    render-keeps (Node.mixin m ns) =
        if-Preserves U P m.call (render_call-Preserves m (block-keeps ns))
          (inv.defined m _ (block-keeps ns))
    render-keeps Node.mixin_block = write-Preserves U P _
    render-keeps (Node.text val) = write-Preserves U P _
    render-keeps (Node.code c ns) = bind-Preserves U P (modify-Preserves U P _ (inv.rawmode _)) λ u.
        bind-Preserves U P (js-Preserves U P parser translates c.val true true)
          λ w. write-Preserves U P _
    render-keeps (Node.conditional test consequent alternate) =
        bind-Preserves U P (js-Preserves U P parser translates test false false) λ t.
          bind-Preserves U P (write-Preserves U P _) λ u.
            bind-Preserves U P (consequent-keeps consequent)
              λ v. bind-Preserves U P (alternate-keeps alternate) λ w. write-Preserves U P _
    render-keeps (Node.each e ns) = enclosed-Preserves e.obj _ _ (block-keeps ns)
    render-keeps (Node.while test ns) = enclosed-Preserves test _ _ (block-keeps ns)
    render-keeps (Node.doctype val) =
        bind-Preserves U P (modify-Preserves U P _ (inv.doctype val)) λ u. write-Preserves U P _
    render-keeps (Node.case expr Nodes.nil) = fail-Preserves U P _
    render-keeps (Node.case expr (Nodes.cons n ns)) =
        bind-Preserves U P (cases-keeps expr [] (Nodes.cons n ns))
          λ u. bind-Preserves U P (default-keeps (Nodes.cons n ns)) λ v. write-Preserves U P _
    render-keeps (Node.when expr ns) = block-keeps ns

    block-keeps : (ns : Nodes) → Preserves U P (render_block parser ns)
    block-keeps Nodes.nil = pure-Preserves U P _
    block-keeps (Nodes.cons n ns) = bind-Preserves U P (render-keeps n) λ u. block-keeps ns

    consequent-keeps : (n : OptNode) → Preserves U P (render_consequent parser n)
    consequent-keeps OptNode.absent = fail-Preserves U P _
    consequent-keeps (OptNode.present n) = render-keeps n

    alternate-keeps : (n : OptNode) → Preserves U P (render_alternate parser n)
    alternate-keeps OptNode.absent = pure-Preserves U P _
    alternate-keeps (OptNode.present n) =
        bind-Preserves U P (write-Preserves U P _) λ u. render-keeps n

    cases-keeps :
        (expr do_else : Text) (ns : Nodes) → Preserves U P (render_cases parser expr do_else ns)
    cases-keeps expr do_else Nodes.nil = pure-Preserves U P _
    cases-keeps expr do_else (Nodes.cons (Node.when e body) ns) =
        if-Preserves U P (is_default e) (cases-keeps expr do_else ns) (
          bind-Preserves U P (js-Preserves U P parser translates expr false false) λ subject.
            bind-Preserves U P (js-Preserves U P parser translates e false false) λ value.
              bind-Preserves U P (write-Preserves U P _)
                λ u. bind-Preserves U P (block-keeps body) λ v. cases-keeps expr _ ns)
    cases-keeps expr do_else (Nodes.cons _ ns) = panic-Preserves U P

    default-keeps : (ns : Nodes) → Preserves U P (render_default parser ns)
    default-keeps Nodes.nil = pure-Preserves U P _
    default-keeps (Nodes.cons (Node.when e body) ns) =
        if-Preserves U P (is_default e && not (has_default ns))
          (bind-Preserves U P (write-Preserves U P _) λ u. block-keeps body) (default-keeps ns)
    default-keeps (Nodes.cons _ ns) = default-keeps ns

  -- An invariant holds after every Render method that held it before.
  pub render-Preserves : (n : Node) → Preserves U P (render parser n)
  render-Preserves n = render-keeps n
