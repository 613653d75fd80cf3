-- ===== src/Pug/Invariant/Complete.antt =====
-- A template that is compiled has everything that its actions refer to (pugjs/pug_parser.go).
use pugtemplate.Common.{
  Text, text_eq, Bool, true, false, ◌&&◌, not, any, ◌≡◌, refl, sym, ap, ◌∙◌, subst, arith,
  if◌then◌else◌,
}
use pugtemplate.Common.Result.{Result}
use pugtemplate.Js.Pieces.{Parser}
use pugtemplate.Pug.Build.{build_block}
use pugtemplate.Pug.Compile.{
  Compiled, write_blocks, write_mixins, render_all, template_text, compile, check_template,
  has_missing,
}
use pugtemplate.Pug.Invariant.Mixins.{IsConsistent, translates, IsConsistent-IsInvariant}
use pugtemplate.Pug.Invariant.Ends.{build_block-Ends}
use pugtemplate.Pug.Invariant.Effects.{
  Ensures, Preserves, bind-Preserves, pure-Preserves, lift-Preserves,
}
use pugtemplate.Pug.Invariant.Rule.{render-Preserves}
use pugtemplate.Pug.Node.{Nodes}
use pugtemplate.Pug.State.{
  RenderState, Outcome, M, find, has_key, prepend, continue, ◌>>=◌, get, write, lift, forget_error,
  ignore_error,
}
use pugtemplate.Pug.Token.{Token, OptToken}
use pugtemplate.Pug.Invariant.Parts.{
  Inside, Inside-behind, Inside-ahead, write_mixins-Inside, write_blocks-Inside, any-none,
  Inside-Inside, whole,
}

module _ (parser : Parser) where
  -- What a run has written ends in the blocks and the mixins of the state that it leaves.
  abbrev Written : Outcome (Unit {0}) → Type 0
  Written (Outcome.returned s w u) =
      Inside (write_blocks s.mixinblocks) w
      × Inside (write_mixins s.mixinorder s.mixin) w
      × IsConsistent s
  Written _ = Unit

  prepend-Written : (v : Text) (o : Outcome (Unit {0})) → Written o → Written (prepend v o)
  prepend-Written v (Outcome.returned s w u) (b, m, p) =
      (Inside-behind _ v w b, Inside-behind _ v w m, p)
  prepend-Written v (Outcome.failed s w e) h = tt
  prepend-Written v Outcome.panicked h = tt
  prepend-Written v Outcome.out_of_fuel h = tt

  continue-Written :
      {A : Type 0} (o : Outcome A) (f : A → M (Unit {0}))
      → Ensures Unit IsConsistent o
      → ((a : A) (s : RenderState) → IsConsistent s → Written (f a s))
      → Written (continue o f)
  continue-Written (Outcome.returned s w a) f p h = prepend-Written w (f a s) (h a s p)
  continue-Written (Outcome.failed s w e) f p h = tt
  continue-Written Outcome.panicked f p h = tt
  continue-Written Outcome.out_of_fuel f p h = tt

  forget-IsConsistent :
      (o : Outcome (Unit {0}))
      → Ensures Unit IsConsistent o
      → Ensures Unit IsConsistent (forget_error o)
  forget-IsConsistent (Outcome.returned s w a) h = h
  forget-IsConsistent (Outcome.failed s w e) h = h
  forget-IsConsistent Outcome.panicked h = tt
  forget-IsConsistent Outcome.out_of_fuel h = h

  render_all-IsConsistent : (ns : Nodes) → Preserves Unit IsConsistent (render_all parser ns)
  unfolding render_all ignore_error
  render_all-IsConsistent Nodes.nil = pure-Preserves Unit IsConsistent tt
  render_all-IsConsistent (Nodes.cons n ns) =
      bind-Preserves Unit IsConsistent
        (record {
          run = λ s p. forget-IsConsistent _ (
              (render-Preserves Unit parser (translates parser) (IsConsistent-IsInvariant parser)
                  n).run
                s p);
        })
        λ u. render_all-IsConsistent ns

  template_text-Written :
      (s : RenderState) (t : Token) → IsConsistent s → Written (template_text parser t s)
  unfolding template_text ◌>>=◌ get write
  template_text-Written s t p =
      continue-Written (lift (build_block (OptToken.present t)) s) _
        ((lift-Preserves Unit IsConsistent (build_block (OptToken.present t))
            (build_block-Ends (OptToken.present t))).run
          s p)
        λ ns r q.
          continue-Written (render_all parser ns r) _ ((render_all-IsConsistent ns).run r q)
            λ u z v. (
              Inside-ahead _ (write_blocks z.mixinblocks) _ (whole _),
              Inside-behind _ (write_blocks z.mixinblocks) _ (whole _),
              v,
            )

  -- The template has the definition of each mixin that was defined and each block that was stored,
  -- and in debug mode every mixin that was called was defined.
  pub record IsComplete (accepts : Text → Bool) (s : RenderState) (w : Text) : Type 0 where
    pub accepted : accepts w ≡ true
    pub mixins : (n : Text) → has_key n s.mixin ≡ true → Inside (find n s.mixin) w
    pub blocks : (b : Text) → any (text_eq b) s.mixinblocks ≡ true → Inside b w
    pub called :
        (n : Text) → s.debug ≡ true → any (text_eq n) s.mixincalls ≡ true → has_key n s.mixin ≡ true

  compiled_if :
      (a d h : Bool) (v w : Text)
      → Result.ok (
          if not a
          then Compiled.parse_error
          else if d && h
          then Compiled.mixin_not_found
          else Compiled.compiled v)
        ≡ Result.ok (Compiled.compiled w)
      → (a ≡ true) × (d && h ≡ false) × (v ≡ w)
  compiled_if true true true v w e = absurd (cc)
  compiled_if true true false v w e = (refl, refl, cc)
  compiled_if true false h v w e = (refl, refl, cc)
  compiled_if false d h v w e = absurd (cc)

  written-IsComplete :
      (accepts : Text → Bool) (s : RenderState) (w : Text)
      → accepts w ≡ true
      → s.debug && has_missing s ≡ false
      → Inside (write_blocks s.mixinblocks) w
      → Inside (write_mixins s.mixinorder s.mixin) w
      → IsConsistent s
      → IsComplete accepts s w
  written-IsComplete accepts s w a f b m p = record {
    accepted = a;
    mixins =
        λ n h. Inside-Inside _ _ w (write_mixins-Inside n s.mixinorder s.mixin (p.ordered n ∙ h)) m;
    blocks = λ c h. Inside-Inside c _ w (write_blocks-Inside c s.mixinblocks h) b;
    called = λ n d h. ground (
      arith,
      any-none (λ call. not (has_key call s.mixin)) n s.mixincalls
          (sym (ap (λ x. x && has_missing s) d) ∙ f) h,
    );
  }

  checked-IsComplete :
      (accepts : Text → Bool) (o : Outcome (Unit {0})) (w : Text)
      → Written o
      → check_template accepts o ≡ Result.ok (Compiled.compiled w)
      → (s : RenderState) × (o ≡ Outcome.returned s w tt) × IsComplete accepts s w
  checked-IsComplete accepts (Outcome.returned s v u) w (b, m, p) e =
      let (a, f, e) = compiled_if (accepts v) s.debug (has_missing s) v w e in
      (
        s,
        ap (λ x. Outcome.returned s x tt) e,
        subst (IsComplete accepts s) e (written-IsComplete accepts s v a f b m p),
      )
  checked-IsComplete accepts (Outcome.failed s v x) w h e = absurd (cc)
  checked-IsComplete accepts Outcome.panicked w h e = absurd (cc)
  checked-IsComplete accepts Outcome.out_of_fuel w h e = absurd (cc)

  -- From a consistent state, a token tree that is compiled to the template `w` is rendered to `w`
  -- itself, which the template language accepts, and `w` is complete: it has the definition of
  -- every mixin that has one and of every block that was stored for a call, and in debug mode
  -- every mixin that was called is among those defined.
  pub compile-IsComplete :
      (accepts : Text → Bool) (s : RenderState) (t : Token) (w : Text)
      → IsConsistent s
      → compile accepts parser s t ≡ Result.ok (Compiled.compiled w)
      → (s' : RenderState) × (template_text parser t s ≡ Outcome.returned s' w tt)
        × IsComplete accepts s' w
  unfolding compile
  compile-IsComplete accepts s t w p e =
      checked-IsComplete accepts (template_text parser t s) w (template_text-Written s t p) e
