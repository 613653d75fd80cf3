-- ===== src/Pug/Invariant/Effects.antt =====
-- What runs of Render methods do to a predicate on the render state: its rules for the effects.
use pugtemplate.Common.{Text, Bool, true, false, ◌&&◌, List, [], ◌∷◌, suc, length, if◌then◌else◌}
use pugtemplate.Common.Result
use pugtemplate.Js.Pieces.{Parser}
use pugtemplate.Js.Render.{js_expr}
use pugtemplate.Pug.Invariant.Results.{
  EndsOr, Translates, Ends-EndsOr, or_panic-Ends, block_is_inline-Ends,
}
use pugtemplate.Pug.Node.{Attribute, AttributedNode, CommonTag, Nodes}
use pugtemplate.Pug.Pieces.{
  js, attr_texts, call_attributes, render_attributes, finish_tag, is_empty, env_of, block_is_inline,
  tag_is_inline,
}
use pugtemplate.Pug.State.{
  RenderState, Outcome, M, continue, prepend, ◌>>=◌, pure, write, fail, panic, RenderError, get,
  modify, lift, sub_buffer, into_buffer,
}

-- The state after a run that returned or failed; `U` is what is known of a run out of fuel.
abbrev pub Ensures : {A : Type 0} → Type 0 → (RenderState → Type 0) → Outcome A → Type 0
Ensures U P (Outcome.returned s w a) = P s
Ensures U P (Outcome.failed s w e) = P s
Ensures U P Outcome.panicked = Unit
Ensures U P Outcome.out_of_fuel = U

-- A run from a state with `P` ends in one.
pub record Preserves {A : Type 0} (U : Type 0) (P : RenderState → Type 0) (m : M A) : Type 0 where
  pub run : (s : RenderState) → P s → Ensures U P (m s)

module _ (U : Type 0) (P : RenderState → Type 0) where
  prepend-Ensures :
      {A : Type 0} (w : Text) (o : Outcome A) → Ensures U P o → Ensures U P (prepend w o)
  prepend-Ensures w (Outcome.returned s v a) h = h
  prepend-Ensures w (Outcome.failed s v e) h = h
  prepend-Ensures w Outcome.panicked h = h
  prepend-Ensures w Outcome.out_of_fuel h = h

  continue-Ensures :
      {A B : Type 0} (o : Outcome A) (f : A → M B)
      → Ensures U P o
      → ((a : A) → Preserves U P (f a))
      → Ensures U P (continue o f)
  continue-Ensures (Outcome.returned s w a) f h k = prepend-Ensures w (f a s) ((k a).run s h)
  continue-Ensures (Outcome.failed s w e) f h k = h
  continue-Ensures Outcome.panicked f h k = tt
  continue-Ensures Outcome.out_of_fuel f h k = h

  pub bind-Preserves :
      {A B : Type 0} {m : M A} {f : A → M B}
      → Preserves U P m
      → ((a : A) → Preserves U P (f a))
      → Preserves U P (m >>= f)
  unfolding ◌>>=◌
  bind-Preserves {m = m} {f = f} h k = record {
    run = λ s p. continue-Ensures (m s) f (h.run s p) k;
  }

  -- What does not change the state.
  pub pure-Preserves : {A : Type 0} (a : A) → Preserves U P (pure a)
  unfolding pure
  pure-Preserves a = record { run = λ s p. p }

  pub write-Preserves : (w : Text) → Preserves U P (write w)
  unfolding write
  write-Preserves w = record { run = λ s p. p }

  pub fail-Preserves : (e : RenderError) → Preserves U P (fail e)
  unfolding fail
  fail-Preserves e = record { run = λ s p. p }

  pub get-Preserves : Preserves U P get
  unfolding get
  get-Preserves = record { run = λ s p. p }

  -- A run that looks at the state may use that the invariant holds of what it sees.
  pub get_bind-Preserves :
      {A : Type 0} (f : RenderState → M A)
      → ((s : RenderState) → P s → Ensures U P (f s s))
      → Preserves U P (get >>= f)
  unfolding get ◌>>=◌
  get_bind-Preserves f h = record { run = λ s p. prepend-Ensures [] (f s s) (h s p) }

  pub panic-Preserves : Preserves U P panic
  unfolding panic
  panic-Preserves = record { run = λ s p. tt }

  lift-Ensures :
      {A : Type 0} (r : Result.Result A) (s : RenderState)
      → EndsOr U r
      → P s
      → Ensures U P (lift r s)
  unfolding lift
  lift-Ensures (Result.Result.ok a) s e p = p
  lift-Ensures Result.Result.panicked s e p = tt
  lift-Ensures Result.Result.out_of_fuel s e p = e

  pub lift-Preserves : {A : Type 0} (r : Result.Result A) → Result.Ends r → Preserves U P (lift r)
  unfolding lift
  lift-Preserves r e = record { run = λ s p. lift-Ensures r s (Ends-EndsOr U r e) p }

  pub modify-Preserves :
      (f : RenderState → RenderState)
      → ((s : RenderState) → P s → P (f s))
      → Preserves U P (modify f)
  unfolding modify
  modify-Preserves f h = record { run = h }

  into_buffer-Ensures : (o : Outcome (Unit {0})) → Ensures U P o → Ensures U P (into_buffer o)
  into_buffer-Ensures (Outcome.returned s w a) h = h
  into_buffer-Ensures (Outcome.failed s w e) h = h
  into_buffer-Ensures Outcome.panicked h = h
  into_buffer-Ensures Outcome.out_of_fuel h = h

  pub sub_buffer-Preserves : {m : M (Unit {0})} → Preserves U P m → Preserves U P (sub_buffer m)
  unfolding sub_buffer
  sub_buffer-Preserves {m = m} h = record { run = λ s p. into_buffer-Ensures (m s) (h.run s p) }

  pub if-Preserves :
      {A : Type 0} (b : Bool) {m n : M A}
      → Preserves U P m
      → Preserves U P n
      → Preserves U P (if b then m else n)
  if-Preserves true h k = h
  if-Preserves false h k = k

  module _ (parser : Parser) (translates : Translates U parser) where
    pub js-Preserves : (e : Text) (wrap rawcode : Bool) → Preserves U P (js parser e wrap rawcode)
    unfolding js lift
    js-Preserves e wrap rawcode = record {
      run = λ s p.
          lift-Ensures (js_expr (env_of s) parser (suc (length e)) e wrap rawcode) s
            (translates (env_of s) e wrap rawcode) p;
    }

    attr_texts-Preserves : (as' : List Attribute) → Preserves U P (attr_texts parser as')
    unfolding attr_texts
    attr_texts-Preserves [] = pure-Preserves _
    attr_texts-Preserves (a ∷ as') =
        bind-Preserves (js-Preserves a.val false false)
          λ v. bind-Preserves (attr_texts-Preserves as') λ rest. pure-Preserves _

    pub call_attributes-Preserves :
        (as' : List Attribute) → Preserves U P (call_attributes parser as')
    unfolding call_attributes
    call_attributes-Preserves [] = pure-Preserves _
    call_attributes-Preserves (a ∷ as') =
        bind-Preserves (js-Preserves a.val false false)
          λ v. bind-Preserves (call_attributes-Preserves as') λ rest. pure-Preserves _

    render_attributes-Preserves : (a : AttributedNode) → Preserves U P (render_attributes parser a)
    unfolding render_attributes
    render_attributes-Preserves a =
        if-Preserves (is_empty a.attrs && is_empty a.attribute_blocks) (pure-Preserves _)
          (bind-Preserves (attr_texts-Preserves a.attrs) λ v. pure-Preserves _)

    pub finish_tag-Preserves :
        (t : CommonTag) (name : Text) (ns : Nodes) (sub : Text)
        → Preserves U P (finish_tag parser t name ns sub)
    unfolding finish_tag
    finish_tag-Preserves t name ns sub =
        bind-Preserves (render_attributes-Preserves t.attributed) λ attrs.
          bind-Preserves
            (lift-Preserves (block_is_inline t name sub ns) (block_is_inline-Ends t name sub ns))
            λ b. bind-Preserves get-Preserves λ s. bind-Preserves (write-Preserves _) λ u.
              bind-Preserves (lift-Preserves (tag_is_inline t) (or_panic-Ends t.is_inline))
                λ i. write-Preserves _
