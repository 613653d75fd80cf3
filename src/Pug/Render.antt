-- ===== src/Pug/Render.antt =====
-- The Render methods of the nodes (pugjs/transform_*.go).
use pugtemplate.Common.{Text, lit, false, ◌&&◌, not, [], ◌++◌, if◌then◌else◌}
use pugtemplate.Js.Pieces.{Parser}
use pugtemplate.Pug.Node.{Node, OptNode, Nodes}
use pugtemplate.Pug.State.{zero_cases, no_consequent, M, ◌>>=◌, ◌>>◌, pure, write, fail, panic}
use pugtemplate.Pug.Methods.{
  render_tag, render_interpolated_tag, render_mixin, render_mixin_block, render_text, render_code,
  render_conditional, render_each, render_while, render_doctype,
}
use pugtemplate.Pug.Pieces.{js, is_default, has_default}

-- The head of a branch of a case.
abbrev pub case_head : Text → Text → Text → Text
case_head do_else subject value =
    lit "{{- "
    ++ (do_else ++ (lit "if __op__eql " ++ (subject ++ (lit " " ++ (value ++ lit " }}")))))

module _ (parser : Parser) where
  unfoldable mutual
    pub render : Node → M (Unit {0})
    render (Node.block ns) = render_block ns
    render (Node.tag t name ns) = render_tag parser t name ns (render_block ns)
    render (Node.interpolated_tag t expr ns) =
        render_interpolated_tag parser t expr ns (render_block ns)
    render (Node.mixin m ns) = render_mixin parser m (render_block ns)
    render Node.mixin_block = render_mixin_block
    render (Node.text val) = render_text val
    render (Node.code c ns) = render_code parser c
    render (Node.conditional test consequent alternate) =
        render_conditional parser test (render_consequent consequent) (render_alternate alternate)
    render (Node.each e ns) = render_each parser e (render_block ns)
    render (Node.while test ns) = render_while parser test (render_block ns)
    render (Node.doctype val) = render_doctype val
    render (Node.case expr Nodes.nil) = fail zero_cases
    render (Node.case expr (Nodes.cons n ns)) = do
      render_cases expr [] (Nodes.cons n ns)
      render_default (Nodes.cons n ns)
      write (lit "{{- end }}")
    render (Node.when expr ns) = render_block ns

    pub render_block : Nodes → M (Unit {0})
    render_block Nodes.nil = pure tt
    render_block (Nodes.cons n ns) = do render n; render_block ns

    pub render_consequent : OptNode → M (Unit {0})
    render_consequent OptNode.absent = fail no_consequent
    render_consequent (OptNode.present n) = render n

    pub render_alternate : OptNode → M (Unit {0})
    render_alternate OptNode.absent = pure tt
    render_alternate (OptNode.present n) = do write (lit "{{ else -}}"); render n

    -- The branches of a case but the default; a node that is no When fails the type assertion.
    pub render_cases : Text → Text → Nodes → M (Unit {0})
    render_cases expr do_else Nodes.nil = pure tt
    render_cases expr do_else (Nodes.cons (Node.when e body) ns) =
        let skipped = render_cases expr do_else ns in
        let branch = js parser expr false false >>= λ subject. js parser e false false >>= λ value.
        write (case_head do_else subject value)
        >> (render_block body >> render_cases expr (lit "else ") ns) in
        if is_default e then skipped else branch
    render_cases expr do_else (Nodes.cons n ns) = panic

    -- The last default branch, if there is one.
    pub render_default : Nodes → M (Unit {0})
    render_default Nodes.nil = pure tt
    render_default (Nodes.cons (Node.when e body) ns) =
        let later = render_default ns in
        let here = write (lit "{{- else }}") >> render_block body in
        if is_default e && not (has_default ns) then here else later
    render_default (Nodes.cons n ns) = render_default ns
