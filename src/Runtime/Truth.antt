-- ===== src/Runtime/Truth.antt =====
-- The truth of a value, as `__if` and the conditions of templates test it.
use pugtemplate.Common.{not, ◌≡◌, refl, sym, ap, ℤ, pos, eqb_ℤ}
use pugtemplate.Runtime.Builtins.{is_true, op_if}
use pugtemplate.Runtime.Value.{Floats, Value, convert}

module _ (fl : Floats) where
  -- A value is as true as the object it is converted to, so that `__if` takes the same branch for
  -- both, if an integer is converted to the float zero exactly when it is zero.
  pub is_true-convert :
      (v : Value fl)
      → ((i : ℤ) → fl.eq (fl.of_int i) (fl.of_int (pos 0)) ≡ eqb_ℤ i (pos 0))
      → (is_true fl v ≡ is_true fl (Value.object (convert fl v)))
        × ((l r : Value fl) → op_if fl v l r ≡ op_if fl (Value.object (convert fl v)) l r)
  unfolding is_true convert op_if
  is_true-convert v zero = (same v, λ l r. rw (same v) refl)
    where
      same : (v : Value fl) → is_true fl v ≡ is_true fl (Value.object (convert fl v))
      same Value.absent = refl
      same (Value.int i) = ap not (sym (zero i))
      same (Value.float f) = refl
      same (Value.text s) = refl
      same (Value.bool b) = refl
      same (Value.object o) = refl
