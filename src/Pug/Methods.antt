-- ===== src/Pug/Methods.antt =====
-- The Render methods of single nodes (pugjs/transform_*.go), over the rendering of what they hold.
use pugtemplate.Common.{Text, lit, true, false, not, ◌++◌, if◌then◌else◌}
use pugtemplate.Js.Pieces.{Parser}
use pugtemplate.Pug.Node.{Code, CommonTag, Each, Mixin, Nodes}
use pugtemplate.Pug.Pieces.{js, finish_tag, is_empty, render_call, render_definition}
use pugtemplate.Pug.State.{M, ◌>>=◌, ◌>>◌, write, modify, sub_buffer}

abbrev pub render_mixin_block : M (Unit {0})
render_mixin_block = write (lit "{{- template $block -}}")

abbrev pub render_text : Text → M (Unit {0})
render_text val = write val

abbrev pub render_doctype : Text → M (Unit {0})
render_doctype val = do
  modify (λ s. record s { doctype = val })
  write (lit "<!DOCTYPE " ++ (val ++ lit ">\n"))

-- The start of a loop over an object, by its key, its variable and the object.
abbrev pub range_head : Each → Text → Text
range_head e o =
    if is_empty e.key
    then lit "{{ range $" ++ (e.val ++ (lit " := " ++ (o ++ lit " -}}")))
    else lit "{{ range $" ++ (e.key ++ (lit ", $" ++ (e.val ++ (lit " := " ++ (o ++ lit " -}}")))))

module _ (parser : Parser) where
  -- `Tag`, whose content is rendered into a buffer of its own.
  abbrev pub render_tag : CommonTag → Text → Nodes → M (Unit {0}) → M (Unit {0})
  render_tag t name ns body = do sub ← sub_buffer body; finish_tag parser t name ns sub

  abbrev pub render_interpolated_tag : CommonTag → Text → Nodes → M (Unit {0}) → M (Unit {0})
  render_interpolated_tag t expr ns body = do
    name ← js parser expr true false
    sub ← sub_buffer body
    finish_tag parser t name ns sub

  abbrev pub render_mixin : Mixin → M (Unit {0}) → M (Unit {0})
  render_mixin m body = if m.call then render_call parser m body else render_definition m body

  -- The raw mode stays as the last code has set it.
  abbrev pub render_code : Code → M (Unit {0})
  render_code c = do
    modify (λ s. record s { rawmode = not c.must_escape })
    w ← js parser c.val true true
    write w

  abbrev pub render_conditional : Text → M (Unit {0}) → M (Unit {0}) → M (Unit {0})
  render_conditional test consequent alternate = do
    t ← js parser test false false
    write (lit "{{ if " ++ (t ++ lit " -}}"))
    consequent
    alternate
    write (lit "{{ end -}}")

  abbrev pub render_each : Each → M (Unit {0}) → M (Unit {0})
  render_each e body = do
    o ← js parser e.obj false false
    write (range_head e o)
    body
    write (lit "{{ end -}}")

  abbrev pub render_while : Text → M (Unit {0}) → M (Unit {0})
  render_while test body = do
    t ← js parser test false false
    write (lit "{{ range " ++ (t ++ lit " -}}"))
    body
    write (lit "{{ end -}}")
