-- ===== src/Pug/Invariant/Mixins.antt =====
-- What the render state knows of mixins, over all Render methods.
use pugtemplate.Common.{
  Text, lit, text_eq, text_eq_iff, split, ◌+◌, true, false, [], ◌∷◌, ◌++◌, any, length,
  length-append, ltb, ◌≡◌, ◌≢◌, arith, inl, inr, Bool-cases,
}
use pugtemplate.Js.Pieces.{Parser}
use pugtemplate.Pug.Invariant.Effects.{
  Ensures, Preserves, bind-Preserves, pure-Preserves, write-Preserves, modify-Preserves,
  lift-Preserves, sub_buffer-Preserves, if-Preserves, get-Preserves, get_bind-Preserves,
  js-Preserves,
}
use pugtemplate.Pug.Invariant.Rule.{IsInvariant, render-Preserves}
use pugtemplate.Pug.Invariant.Results.{Translates, EndsOr-Unit, inner_args-Ends}
use pugtemplate.Pug.Maps.{find-put, has_key-put, text_eq_sym, any-append}
use pugtemplate.Pug.Node.{Mixin, Node}
use pugtemplate.Pug.Pieces.{
  is_empty, inner_args, argument_part, mixin_definition, render_definition, record_call,
  finish_call,
}
use pugtemplate.Pug.Render.{render}
use pugtemplate.Pug.State.{RenderState, find, put, has_key, M}

-- The mixins in order are those with a definition, no definition is empty, and the blocks are
-- numbered from 0.
pub record IsConsistent (s : RenderState) : Type 0 where
  pub ordered : (n : Text) → any (text_eq n) s.mixinorder ≡ has_key n s.mixin
  pub nonempty : (n : Text) → has_key n s.mixin ≡ true → find n s.mixin ≢ []
  pub counted : s.mixincounter ≡ length s.mixinblocks

mixin_definition-ne-nil : (name part body : Text) → mixin_definition name part body ≢ []
unfolding mixin_definition lit
mixin_definition-ne-nil name part body = cc

define-IsConsistent :
    (name d : Text) (s : RenderState)
    → d ≢ []
    → IsConsistent s
    → IsConsistent
        (record s { mixin = put name d s.mixin; mixinorder = s.mixinorder ++ (name ∷ []) })
define-IsConsistent name d s ne p = record {
  ordered = λ n. ground (
    arith,
    p.ordered n,
    text_eq_sym n name,
    has_key-put n name d s.mixin,
    any-append (text_eq n) s.mixinorder (name ∷ []),
  );
  nonempty =
      λ n h. ground (arith, p.nonempty n, find-put n name d s.mixin, has_key-put n name d s.mixin);
  counted = p.counted;
}

definition-IsConsistent :
    (m : Mixin) (body : M (Unit {0}))
    → Preserves Unit IsConsistent body
    → Preserves Unit IsConsistent (render_definition m body)
unfolding render_definition
definition-IsConsistent m body h = get_bind-Preserves Unit _ _ λ s p.
    (if-Preserves Unit IsConsistent (is_empty (find m.name s.mixin))
        (bind-Preserves Unit _ (lift-Preserves Unit _ (inner_args m.args) (inner_args-Ends m.args))
          λ args. bind-Preserves Unit _ (sub_buffer-Preserves Unit _ h) λ sub.
            modify-Preserves Unit _ _ λ t.
              define-IsConsistent m.name _ t
                (mixin_definition-ne-nil m.name (argument_part 0 (split 44 args)) sub))
        (pure-Preserves Unit _ tt)).run
      s p

block-IsConsistent :
    (b : Text) (s : RenderState)
    → IsConsistent s
    → IsConsistent
        (record s { mixincounter = s.mixincounter + 1; mixinblocks = s.mixinblocks ++ (b ∷ []) })
block-IsConsistent b s p = record {
  ordered = p.ordered;
  nonempty = p.nonempty;
  counted = omega (arith, p.counted, length-append s.mixinblocks (b ∷ []));
}

module _ (parser : Parser) where
  -- A call renders its arguments and writes, after it has stored its block, if any.
  pub call-Preserves :
      (U : Type 0) (P : RenderState → Type 0) (m : Mixin) (attributes sub : Text)
      → Translates U parser
      → ((b : Text) (s : RenderState)
          → P s
          → P (record s {
            mixincounter = s.mixincounter + 1;
            mixinblocks = s.mixinblocks ++ (b ∷ []);
          }))
      → Preserves U P (finish_call parser m attributes sub)
  unfolding finish_call
  call-Preserves U P m attributes sub tr h =
      if-Preserves U P (ltb 0 (length sub))
        (bind-Preserves U P (get-Preserves U P) λ s.
          bind-Preserves U P (modify-Preserves U P _ (h _)) λ u.
            bind-Preserves U P (js-Preserves U P parser tr m.args false false)
              λ args. write-Preserves U P _)
        (bind-Preserves U P (js-Preserves U P parser tr m.args false false)
          λ args. write-Preserves U P _)

  pub translates : Translates Unit parser
  translates env e wrap rawcode = EndsOr-Unit _

  pub IsConsistent-IsInvariant : IsInvariant Unit parser IsConsistent
  unfolding record_call
  IsConsistent-IsInvariant = record {
    rawmode = λ b s p. record { ordered = p.ordered; nonempty = p.nonempty; counted = p.counted };
    doctype = λ t s p. record { ordered = p.ordered; nonempty = p.nonempty; counted = p.counted };
    recorded = λ name.
        modify-Preserves Unit _ _
          λ s p. record { ordered = p.ordered; nonempty = p.nonempty; counted = p.counted };
    called = λ m attributes sub.
        call-Preserves Unit IsConsistent m attributes sub translates block-IsConsistent;
    defined = definition-IsConsistent;
  }

  -- Where the rendering of a node from a consistent state comes to an end, with an error or
  -- without, but for a panic, it leaves a consistent state: the mixins in `mixinorder` are those
  -- with a definition, no definition is empty, and `mixincounter` is the number of blocks stored.
  pub render-IsConsistent :
      (n : Node) (s : RenderState) → IsConsistent s → Ensures Unit IsConsistent (render parser n s)
  render-IsConsistent n s p =
      (render-Preserves Unit parser translates IsConsistent-IsInvariant n).run s p

  module _ (n d : Text) (ne : d ≢ []) where
    -- The mixin `n` has the definition `d`.
    abbrev pub Defined : RenderState → Type 0
    Defined s = find n s.mixin ≡ d

    redefine-Defined :
        (name d' : Text) (s : RenderState)
        → text_eq name n ≡ false
        → Defined s
        → Defined
            (record s { mixin = put name d' s.mixin; mixinorder = s.mixinorder ++ (name ∷ []) })
    redefine-Defined name d' s other p = ground (arith, find-put n name d' s.mixin)

    other_name :
        (name : Text) (s : RenderState)
        → Defined s
        → is_empty (find name s.mixin) ≡ true
        → text_eq name n ≡ false
    other_name name s p e = ground (arith, text_eq_iff name n)

    definition-Defined :
        (m : Mixin) (body : M (Unit {0}))
        → Preserves Unit Defined body
        → Preserves Unit Defined (render_definition m body)
    unfolding render_definition
    definition-Defined m body h = get_bind-Preserves Unit _ _ λ s p.
        elim (Bool-cases (is_empty (find m.name s.mixin))) [
          | inl e ↦ rw e (
              (bind-Preserves Unit Defined
                  (lift-Preserves Unit _ (inner_args m.args) (inner_args-Ends m.args))
                  λ args. bind-Preserves Unit _ (sub_buffer-Preserves Unit _ h) λ sub.
                    modify-Preserves Unit _ _
                      λ t. redefine-Defined m.name _ t (other_name m.name s p e)).run
                s p)
          | inr e ↦ rw e ((pure-Preserves Unit Defined tt).run s p)
        ]

    Defined-IsInvariant : IsInvariant Unit parser Defined
    unfolding record_call
    Defined-IsInvariant = record {
      rawmode = λ b s p. p;
      doctype = λ t s p. p;
      recorded = λ name. modify-Preserves Unit _ _ λ s p. p;
      called =
          λ m attributes sub. call-Preserves Unit Defined m attributes sub translates λ b s p. p;
      defined = definition-Defined;
    }

    -- A stored definition stays: where the rendering of a node comes to an end without a panic,
    -- from a state in which the mixin `n` has the definition `d`, which is not empty, it has this
    -- definition afterwards.
    pub render-Defined :
        (x : Node) (s : RenderState) → Defined s → Ensures Unit Defined (render parser x s)
    render-Defined x s p = (render-Preserves Unit parser translates Defined-IsInvariant x).run s p

  module _ (n : Text) where
    -- The mixin `n` was called.
    abbrev pub Called : RenderState → Type 0
    Called s = any (text_eq n) s.mixincalls ≡ true

    Called-IsInvariant : IsInvariant Unit parser Called
    unfolding record_call render_definition
    Called-IsInvariant = record {
      rawmode = λ b s p. p;
      doctype = λ t s p. p;
      recorded = λ name. modify-Preserves Unit _ _ λ s p. ground arith;
      called =
          λ m attributes sub. call-Preserves Unit Called m attributes sub translates λ b s p. p;
      defined = λ m body h. bind-Preserves Unit _ (get-Preserves Unit _) λ s.
          if-Preserves Unit _ (is_empty (find m.name s.mixin))
            (bind-Preserves Unit _
              (lift-Preserves Unit _ (inner_args m.args) (inner_args-Ends m.args))
              λ args.
                bind-Preserves Unit _ (sub_buffer-Preserves Unit _ h)
                  λ sub. modify-Preserves Unit _ _ λ t p. p)
            (pure-Preserves Unit _ tt);
    }

    -- A mixin once called stays recorded as called, where the rendering comes to an end without a
    -- panic.
    pub render-Called :
        (x : Node) (s : RenderState) → Called s → Ensures Unit Called (render parser x s)
    render-Called x s p = (render-Preserves Unit parser translates Called-IsInvariant x).run s p
