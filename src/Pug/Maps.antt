-- ===== src/Pug/Maps.antt =====
-- Laws of the maps and sets of the render state.
use pugtemplate.Common.{
  Text, text_eq, text_eq_iff, Bool, ◌||◌, List, [], ◌∷◌, ◌++◌, any, if◌then◌else◌, ◌≡◌, refl, arith,
}
use pugtemplate.Pug.State.{find, put, has_key}

pub find-put :
    (j k v : Text) (m : List (Text × Text))
    → find j (put k v m) ≡ (if text_eq k j then v else find j m)
unfolding find put
find-put j k v [] = refl
find-put j k v ((i, w) ∷ m) =
    ground (arith, text_eq_iff k j, text_eq_iff i k, text_eq_iff i j, find-put j k v m)

pub has_key-put :
    (j k v : Text) (m : List (Text × Text)) → has_key j (put k v m) ≡ (text_eq k j || has_key j m)
unfolding has_key put
has_key-put j k v [] = ground arith
has_key-put j k v ((i, w) ∷ m) =
    ground (arith, text_eq_iff k j, text_eq_iff i k, text_eq_iff i j, has_key-put j k v m)

pub text_eq_sym : (s t : Text) → text_eq s t ≡ text_eq t s
text_eq_sym s t = ground (arith, text_eq_iff s t, text_eq_iff t s)

pub any-append : (p : Text → Bool) (xs ys : List Text) → any p (xs ++ ys) ≡ (any p xs || any p ys)
any-append p [] ys = refl
any-append p (x ∷ xs) ys = ground (arith, any-append p xs ys)
