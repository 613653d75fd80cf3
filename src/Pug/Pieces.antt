-- ===== src/Pug/Pieces.antt =====
-- The parts of the Render methods of pugjs/transform_*.go that do not render other nodes.
use pugtemplate.Common.{
  Text, lit, text_eq, contains, split, trim_space, itoa, ℕ, suc, ◌+◌, ◌-◌, Bool, true, false, ◌&&◌,
  ◌||◌, not, List, [], ◌∷◌, ◌++◌, if◌then◌else◌, take, drop, length, any, ltb,
}
use pugtemplate.Common.Result
use pugtemplate.Js.Escape.{quote}
use pugtemplate.Js.Pieces.{Parser, Env, line_end}
use pugtemplate.Js.Render.{js_expr}
use pugtemplate.Pug.Node.{Attribute, AttributedNode, CommonTag, Mixin, Node, Nodes, inline_block}
use pugtemplate.Pug.State.{
  RenderState, find, put, M, ◌>>=◌, ◌>>◌, pure, write, get, modify, lift, sub_buffer,
}

abbrev pub env_of : RenderState → Env
env_of s = record { funcs = s.funcs; rawmode = s.rawmode; debug = s.debug }

abbrev pub bool_text : Bool → Text
bool_text true = lit "true"
bool_text false = lit "false"

-- The start of a mixin's definition that unpacks its arguments, from the given position on.
unfoldable pub argument_part : ℕ → List Text → Text
argument_part i [] = []
argument_part i (arg ∷ args) =
    lit "{{- $"
    ++ (trim_space arg
        ++ (lit " := __tryindex $__args__ "
            ++ (itoa i ++ (lit " -}}" ++ argument_part (suc i) args))))

unfoldable pub mixin_definition : Text → Text → Text → Text
mixin_definition name attrpart body =
    lit "\n{{- define \"mixin_"
    ++ (name
        ++ (lit
              "\" }}\n{{- $attributes := (__tryindex . 1) }}\n{{- $__args__ := (__tryindex . 0) }}\n"
            ++ (lit "{{- $block := (__tryindex . 2) }}\n"
                ++ (attrpart ++ (lit "\n" ++ (body ++ lit "\n{{- end }}"))))))

-- `m.Args[1 : len(m.Args)-1]`
abbrev pub inner_args : Text → Result.Result Text
inner_args args =
    if ltb (length args) 2
    then Result.Result.panicked
    else Result.Result.ok (take (length args - 2) (drop 1 args))

abbrev pub block_name : Text → ℕ → Text
block_name name counter = lit "block_" ++ (name ++ (lit "_" ++ itoa counter))

unfoldable pub block_definition : Text → Text → Text
block_definition blockname body =
    lit "\n{{- define \"" ++ (blockname ++ (lit "\" -}}\n" ++ (body ++ lit "\n{{- end -}}")))

unfoldable pub call_with_block : Text → Text → Text → Text → Text
call_with_block blockname name args attributes =
    lit "{{ __freeze \""
    ++ (blockname
        ++ (lit "\" }}{{ template \"mixin_"
            ++ (name
                ++ (lit "\" (__op__array ("
                    ++ (args
                        ++ (lit ") ("
                            ++ (attributes ++ (lit ") (\"" ++ (blockname ++ lit "\") ) }}")))))))))

unfoldable pub call_without_block : Text → Text → Text → Text
call_without_block name args attributes =
    lit "{{ template \"mixin_"
    ++ (name
        ++ (lit "\" (__op__array ("
            ++ (args ++ (lit ") (" ++ (attributes ++ lit ") (null) ) }}")))))

-- The four forms of a tag, by its name, attributes and content.
unfoldable pub tag_text : CommonTag → Bool → Bool → Text → Text → Text → Text
tag_text t debug block_inline name attrs sub =
    if t.self_closing
    then lit "<" ++ (name ++ (attrs ++ lit ">"))
    else if text_eq name (lit "script") && contains (lit "\n") sub
    then lit "<" ++ (name ++ (attrs ++ (lit ">\n" ++ (sub ++ (lit "\n</" ++ (name ++ lit ">"))))))
    else if not block_inline && debug
    then lit "<"
      ++ (name
          ++ (attrs
              ++ (lit ">" ++ (line_end ++ (sub ++ (line_end ++ (lit "</" ++ (name ++ lit ">"))))))))
    else lit "<" ++ (name ++ (attrs ++ (lit ">" ++ (sub ++ (lit "</" ++ (name ++ lit ">"))))))

-- The form of a tag depends on its block being inline only where that is asked.
abbrev pub asks_inline : CommonTag → Text → Text → Bool
asks_inline t name sub =
    not t.self_closing && not (text_eq name (lit "script") && contains (lit "\n") sub)

unfoldable pub block_is_inline : CommonTag → Text → Text → Nodes → Result.Result Bool
block_is_inline t name sub ns =
    if asks_inline t name sub then inline_block ns else Result.Result.ok true

abbrev pub tag_is_inline : CommonTag → Result.Result Bool
tag_is_inline t = Result.or_panic t.is_inline

abbrev pub and_attrs : List Text → Text
and_attrs [] = []
and_attrs (ab ∷ abs) = lit "(__and_attrs $" ++ (ab ++ (lit ")" ++ and_attrs abs))

abbrev pub is_empty {ℓ} : {A : Type ℓ} → List A → Bool
is_empty [] = true
is_empty (x ∷ xs) = false

-- Whether a case has a branch for "default".
abbrev pub is_default : Text → Bool
is_default expr = text_eq expr (lit "default")

abbrev pub has_default : Nodes → Bool
has_default Nodes.nil = false
has_default (Nodes.cons (Node.when expr body) ns) = is_default expr || has_default ns
has_default (Nodes.cons n ns) = has_default ns

unfoldable pub record_call : Text → M (Unit {0})
record_call name = modify (λ s. record s {
  mixincalls = if any (text_eq name) s.mixincalls then s.mixincalls else name ∷ s.mixincalls;
})

unfoldable pub finish_definition : Mixin → Text → Text → M (Unit {0})
unfolding mixin_definition argument_part
finish_definition m args sub = modify (λ s. record s {
  mixin = put m.name (mixin_definition m.name (argument_part 0 (split 44 args)) sub) s.mixin;
  mixinorder = s.mixinorder ++ (m.name ∷ []);
})

-- `renderDefinition`: a mixin that has a definition keeps it.
unfoldable pub render_definition : Mixin → M (Unit {0}) → M (Unit {0})
unfolding finish_definition
render_definition m body =
    let define = lift (inner_args m.args) >>= λ args.
    sub_buffer body >>= λ sub. finish_definition m args sub in
    get >>= λ s. if is_empty (find m.name s.mixin) then define else pure tt

module _ (parser : Parser) where
  -- `p.JsExpr`, with fuel for every nesting that the source text can hold.
  unfoldable pub js : Text → Bool → Bool → M Text
  unfolding js_expr
  js expr wrap rawcode s = lift (js_expr (env_of s) parser (suc (length expr)) expr wrap rawcode) s

  unfoldable pub attr_texts : List Attribute → M Text
  unfolding js
  attr_texts [] = pure []
  attr_texts (a ∷ as') = do
    v ← js a.val false false
    rest ← attr_texts as'
    pure (
        lit "(__attr "
        ++ (quote a.name
            ++ (lit " "
                ++ ((if a.must_escape then v else quote v)
                    ++ (lit " " ++ (bool_text a.must_escape ++ (lit ") " ++ rest)))))))

  unfoldable pub render_attributes : AttributedNode → M Text
  unfolding attr_texts
  render_attributes a =
      let texts = attr_texts a.attrs >>= λ t.
      pure (lit "{{ __attrs " ++ (t ++ (and_attrs a.attribute_blocks ++ lit " }}"))) in
      if is_empty a.attrs && is_empty a.attribute_blocks then pure [] else texts

  unfoldable pub call_attributes : List Attribute → M Text
  unfolding js
  call_attributes [] = pure []
  call_attributes (a ∷ as') = do
    v ← js a.val false false
    rest ← call_attributes as'
    pure (lit " \"" ++ (a.name ++ (lit "\" " ++ (v ++ rest))))

  -- `CommonTag.render`, after the content is rendered.
  unfoldable pub finish_tag : CommonTag → Text → Nodes → Text → M (Unit {0})
  unfolding render_attributes tag_text block_is_inline
  finish_tag t name ns sub = do
    attrs ← render_attributes t.attributed
    block_inline ← lift (block_is_inline t name sub ns)
    s ← get
    write (tag_text t s.debug block_inline name attrs sub)
    tag_inline ← lift (tag_is_inline t)
    write (if not tag_inline && s.debug then line_end else [])

  -- `renderCall`, after the block is rendered.
  unfoldable pub finish_call : Mixin → Text → Text → M (Unit {0})
  unfolding block_definition call_with_block call_without_block js
  finish_call m attributes sub =
      let with_block = get >>= λ s.
      let blockname = block_name m.name s.mixincounter in
      (modify (λ t. record t {
        mixincounter = t.mixincounter + 1;
        mixinblocks = t.mixinblocks ++ (block_definition blockname sub ∷ []);
      })
        >> (js m.args false false >>= λ args.
            write (call_with_block blockname m.name args attributes))) in
      let without_block =
        js m.args false false >>= λ args. write (call_without_block m.name args attributes) in
      if ltb 0 (length sub) then with_block else without_block

  -- `renderCall`.
  unfoldable pub render_call : Mixin → M (Unit {0}) → M (Unit {0})
  unfolding record_call call_attributes finish_call
  render_call m body = do
    record_call m.name
    attributes ← call_attributes m.attributed.attrs
    sub ← sub_buffer body
    finish_call m (lit "__op__map_params " ++ attributes) sub
