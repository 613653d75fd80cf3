-- ===== src/Engine/Partials.antt =====
-- RenderPartials of pugjs/engine.go.
use pugtemplate.Common.{Text, lit, List, [], ◌∷◌, ◌++◌, Option, none, some}
use pugtemplate.Objects.Map.{Items, put_item}

-- The template of a part of a page.
unfoldable pub partial_name : Text → Text → Text
unfolding lit
partial_name template partial = template ++ (lit ".partial/" ++ partial)

module _ {Reader : Type 0} (render : Text → Option Reader) where
  -- The loop over the parts: the first error ends it.
  unfoldable pub partials_loop : Text → List Text → Items Reader → Option (Items Reader)
  unfolding put_item partial_name
  partials_loop template [] res = some res
  partials_loop template (p ∷ ps) res = elim (render (partial_name template p)) [
    | none ↦ none
    | some buf ↦ partials_loop template ps (put_item p buf res)
  ]

  unfoldable pub render_partials : Text → List Text → Option (Items Reader)
  unfolding partials_loop
  render_partials template partials = partials_loop template partials []
