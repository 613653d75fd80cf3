-- ===== src/Engine/Filtered.antt =====
-- Loading with a filter, against loading everything.
use pugtemplate.Common.{
  Text, lit, text_eq, text_eq_iff, has_prefix, has_suffix, true, not, [], ◌∷◌, Option, none, some,
  if◌then◌else◌, ◌≡◌, refl, arith, Bool-cases, inl, inr, ◌∙◌,
}
use pugtemplate.Common.Result.{Result, ok, panicked, out_of_fuel, ◌>>=◌}
use pugtemplate.Engine.State.{Templates}
use pugtemplate.Engine.Load.{
  Directory, Files, join_name, template_name, add_missing, add_file, unless_failed, is_skipped,
  compile_dir, compile_files,
}
use pugtemplate.Pug.State.{put, has_key}

-- The templates whose name begins with a text.
abbrev pub beginning_with : Text → Templates → Templates
beginning_with f [] = []
beginning_with f ((k, v) ∷ ts) =
    if has_prefix f k then (k, v) ∷ beginning_with f ts else beginning_with f ts

unskipped : (f name : Text) → is_skipped f name ≡ not (has_prefix f name)
unfolding has_prefix
unskipped [] name = refl
unskipped (c ∷ f) name = refl

module _ (f : Text) where
  same_key : (j k : Text) → text_eq j k ≡ true → has_prefix f j ≡ has_prefix f k
  same_key j k h = rw ((text_eq_iff j k).0 h) refl

  beginning_with-put :
      (k v : Text) (ts : Templates)
      → beginning_with f (put k v ts)
        ≡ (if has_prefix f k then put k v (beginning_with f ts) else beginning_with f ts)
  unfolding put
  beginning_with-put k v [] = refl
  beginning_with-put k v ((j, w) ∷ ts) = ground (arith, beginning_with-put k v ts, same_key j k)

  has_key-beginning_with :
      (k : Text) (ts : Templates)
      → has_prefix f k ≡ true
      → has_key k (beginning_with f ts) ≡ has_key k ts
  unfolding has_key
  has_key-beginning_with k [] h = refl
  has_key-beginning_with k ((j, w) ∷ ts) h =
      ground (arith, has_key-beginning_with k ts h, same_key j k)

  -- One entry of a subdirectory.
  add_one :
      (k v : Text) (result : Templates)
      → beginning_with f (if has_key k result then result else put k v result) ≡ (
          if has_prefix f k
          then (if has_key k (beginning_with f result)
              then beginning_with f result
              else put k v (beginning_with f result))
          else beginning_with f result)
  add_one k v result =
      ground (arith, beginning_with-put k v result, has_key-beginning_with k result)

  beginning_with-add_missing :
      (tpls result : Templates)
      → beginning_with f (add_missing tpls result)
        ≡ add_missing (beginning_with f tpls) (beginning_with f result)
  unfolding add_missing
  beginning_with-add_missing [] result = refl
  beginning_with-add_missing ((k, v) ∷ tpls) result =
      beginning_with-add_missing tpls _
      ∙ rw (add_one k v result)
          (elim (Bool-cases (has_prefix f k)) [ inl p ↦ rw p refl | inr p ↦ rw p refl ])

-- Both parts of a compilation without error went well.
unless_failed-inverse :
    {A : Type 0} (m : Result (Option A)) (next : A → Result (Option Templates)) {ts : Templates}
    → (m >>= unless_failed next) ≡ ok (some ts)
    → (a : A) × (m ≡ ok (some a)) × (next a ≡ ok (some ts))
unless_failed-inverse (ok none) next h = cc
unless_failed-inverse (ok (some a)) next h = (a, refl, h)
unless_failed-inverse panicked next h = cc
unless_failed-inverse out_of_fuel next h = cc

module _ (compile_name : Text → Result (Option Text)) (f : Text) where
  abbrev Loads :
      (Templates → Result (Option Templates)) → (Templates → Result (Option Templates)) → Type 0
  Loads next next' =
      (result ts : Templates)
      → next result ≡ ok (some ts)
      → next' (beginning_with f result) ≡ ok (some (beginning_with f ts))

  -- One template, kept or passed over.
  put-Loads :
      (next next' : Templates → Result (Option Templates)) (result ts : Templates) (name : Text)
      → Loads next next'
      → (t : Text) × (compile_name name ≡ ok (some t)) × (next (put name t result) ≡ ok (some ts))
      → (if is_skipped f name
          then next' (beginning_with f result)
          else compile_name name
            >>= unless_failed (λ t. next' (put name t (beginning_with f result))))
        ≡ ok (some (beginning_with f ts))
  put-Loads next next' result ts name goes (t, c, g) =
      rw (unskipped f name) (elim (Bool-cases (has_prefix f name)) [
        | inr p ↦
            rw p (rw (beginning_with-put f name t result, p) at (goes (put name t result) ts g))
        | inl p ↦
            rw (p, c)
              (rw (beginning_with-put f name t result, p) at (goes (put name t result) ts g))
      ])

  add_file-Loads :
      (dirname n : Text) (next next' : Templates → Result (Option Templates))
      → Loads next next'
      → Loads (add_file compile_name [] dirname n next) (add_file compile_name f dirname n next')
  unfolding add_file
  add_file-Loads dirname n next next' goes result ts h =
      elim (Bool-cases (has_suffix (lit ".ast.json") n)) [
        | inr s ↦ rw s (goes result ts (rw s at h))
        | inl s ↦ rw s (
            put-Loads next next' result ts _ goes (
              unless_failed-inverse (compile_name (template_name (join_name dirname n))) _
                (rw s at h)))
      ]

  directory-Loads :
      (dirname n : Text) (d : Directory) (fs : Files) (result ts : Templates)
      → Loads (compile_files compile_name [] dirname fs) (compile_files compile_name f dirname fs)
      → ((tpls : Templates)
          → compile_dir compile_name [] (join_name dirname n) d ≡ ok (some tpls)
          → compile_dir compile_name f (join_name dirname n) d ≡ ok (some (beginning_with f tpls)))
      → (tpls : Templates) × (compile_dir compile_name [] (join_name dirname n) d ≡ ok (some tpls))
        × (compile_files compile_name [] dirname fs (add_missing tpls result) ≡ ok (some ts))
      → (compile_dir compile_name f (join_name dirname n) d
          >>= unless_failed (λ tpls.
            compile_files compile_name f dirname fs (add_missing tpls (beginning_with f result))))
        ≡ ok (some (beginning_with f ts))
  directory-Loads dirname n d fs result ts files dir (tpls, c, g) =
      rw (dir tpls c)
        (rw (beginning_with-add_missing f tpls result) at (files (add_missing tpls result) ts g))

  mutual
    unfolding compile_dir

    files-Loads :
        (dirname : Text) (fs : Files)
        → Loads (compile_files compile_name [] dirname fs) (compile_files compile_name f dirname fs)
    files-Loads dirname Files.nil result ts h = cc
    files-Loads dirname (Files.file n fs) result ts h =
        add_file-Loads dirname n (compile_files compile_name [] dirname fs)
          (compile_files compile_name f dirname fs) (files-Loads dirname fs) result ts h
    files-Loads dirname (Files.directory n d fs) result ts h =
        directory-Loads dirname n d fs result ts (files-Loads dirname fs)
          (λ tpls. dir-Loads (join_name dirname n) d tpls)
          (unless_failed-inverse (compile_dir compile_name [] (join_name dirname n) d) _ h)

    dir-Loads :
        (dirname : Text) (d : Directory) (ts : Templates)
        → compile_dir compile_name [] dirname d ≡ ok (some ts)
        → compile_dir compile_name f dirname d ≡ ok (some (beginning_with f ts))
    dir-Loads dirname Directory.unreadable ts h = cc
    dir-Loads dirname (Directory.files fs) ts h = files-Loads dirname fs [] ts h

-- Loading with a filter, where everything could be loaded without one: exactly the templates whose
-- name begins with the filter are loaded, each with the same text.
pub compile_dir-filtered :
    (compile_name : Text → Result (Option Text)) (filtername : Text) (d : Directory)
    (ts : Templates)
    → compile_dir compile_name [] [] d ≡ ok (some ts)
    → compile_dir compile_name filtername [] d ≡ ok (some (beginning_with filtername ts))
compile_dir-filtered compile_name filtername d ts h = dir-Loads compile_name filtername [] d ts h
