-- ===== src/Engine/Load.antt =====
-- `compileDir` of pugjs/engine.go. What os.Open and Readdir return is the listing; a token tree is
-- read with `parse`, which stands for `Parse` (it reads a file and decodes JSON). A name of the
-- template is the path of its file below the root. TemplateCode, a copy of the texts for error
-- messages, is left out.
use pugtemplate.Common.{
  Text, lit, has_prefix, has_suffix, ◌-◌, Bool, ◌&&◌, not, List, [], ◌∷◌, ◌++◌, length, take,
  Option, none, some, if◌then◌else◌,
}
use pugtemplate.Common.Result.{Result, ok, ◌>>=◌}
use pugtemplate.Engine.State.{Templates, is_empty}
use pugtemplate.Js.Pieces.{Parser}
use pugtemplate.Pug.Compile.{Compiled, compile}
use pugtemplate.Pug.State.{put, has_key, new_render_state}
use pugtemplate.Pug.Token.{Token}

mutual
  pub data Directory : Type 0 where
    unreadable : Directory
    files : Files → Directory

  pub data Files : Type 0 where
    nil : Files
    file : Text → Files → Files
    directory : Text → Directory → Files → Files

-- path.Join of two clean parts.
abbrev pub join_name : Text → Text → Text
join_name [] name = name
join_name (c ∷ dirname) name = (c ∷ dirname) ++ (lit "/" ++ name)

-- `name[:len(name)-len(".ast.json")]`
abbrev pub template_name : Text → Text
template_name name = take (length name - length (lit ".ast.json")) name

-- What stands in a subdirectory is added where the name is still free.
unfoldable pub add_missing : Templates → Templates → Templates
add_missing [] result = result
add_missing ((k, v) ∷ tpls) result =
    add_missing tpls (if has_key k result then result else put k v result)

-- A template, or none for an error.
abbrev pub template_of : Compiled → Option Text
template_of (Compiled.compiled t) = some t
template_of Compiled.parse_error = none
template_of Compiled.mixin_not_found = none

-- The next step of a compilation, unless there is an error.
abbrev pub unless_failed {ℓ} :
    {A : Type ℓ} → (A → Result (Option Templates)) → Option A → Result (Option Templates)
unless_failed next none = ok none
unless_failed next (some a) = next a

abbrev pub is_skipped : Text → Text → Bool
is_skipped filtername name = not (is_empty filtername) && not (has_prefix filtername name)

-- The token tree of a file, rendered from a new state with the functions of the provider.
unfoldable pub compile_file :
    (Text → Bool) → Parser → (Text → Option Token) → List Text → Bool → Text → Result (Option Text)
unfolding compile
compile_file accepts parser parse funcs debug name = elim (parse name) [
  | none ↦ ok none
  | some t ↦ compile accepts parser (new_render_state funcs debug) t >>= λ c. ok (template_of c)
]

-- `compile_name` compiles the file of a template.
module _ (compile_name : Text → Result (Option Text)) where
  -- What the loop does with a file, before it goes on.
  unfoldable pub add_file :
      Text
      → Text
      → Text
      → (Templates → Result (Option Templates))
      → Templates
      → Result (Option Templates)
  add_file filtername dirname n next result =
      let name = template_name (join_name dirname n) in
      if not (has_suffix (lit ".ast.json") n)
      then next result
      else if is_skipped filtername name
      then next result
      else compile_name name >>= unless_failed (λ t. next (put name t result))

  unfoldable mutual
    unfolding add_file

    pub compile_dir : Text → Text → Directory → Result (Option Templates)
    compile_dir filtername dirname Directory.unreadable = ok none
    compile_dir filtername dirname (Directory.files fs) = compile_files filtername dirname fs []

    pub compile_files : Text → Text → Files → Templates → Result (Option Templates)
    compile_files filtername dirname Files.nil result = ok (some result)
    compile_files filtername dirname (Files.file n fs) result =
        add_file filtername dirname n (λ r. compile_files filtername dirname fs r) result
    compile_files filtername dirname (Files.directory n d fs) result =
        compile_dir filtername (join_name dirname n) d
        >>= unless_failed (λ tpls. compile_files filtername dirname fs (add_missing tpls result))
