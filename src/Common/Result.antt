-- ===== src/Common/Result.antt =====
-- The outcome of code that may panic, with the fuel of the model.
use mathlib.Core.Option.{Option, none, some}

-- `panicked` is a Go panic; `out_of_fuel` has no counterpart in the program.
pub data Result {ℓ} (A : Type ℓ) : Type ℓ where
  ok : A → Result A
  panicked out_of_fuel : Result A

infixl 5 ◌>>=◌
-- The code after a call: not run once the call panics.
abbrev pub ◌>>=◌ {κ ℓ} : {B : Type κ} {A : Type ℓ} → Result A → (A → Result B) → Result B
panicked >>= next = panicked
out_of_fuel >>= next = out_of_fuel
ok value >>= next = next value

infixl 5 ◌>>◌
abbrev pub ◌>>◌ {ℓ κ} : {A : Type ℓ} {B : Type κ} → Result A → Result B → Result B
m >> k = m >>= λ _. k

-- A missing value is a panic, such as a refused source or a nil pointer.
abbrev pub or_panic {ℓ} : {A : Type ℓ} → Option A → Result A
or_panic none = panicked
or_panic (some a) = ok a

-- The run did not stop for want of fuel.
abbrev pub Ends {ℓ} : {A : Type ℓ} → Result A → Type 0
Ends (ok a) = Unit
Ends panicked = Unit
Ends out_of_fuel = ⊥

module _ {ℓ κ} {A : Type ℓ} {B : Type κ} where
  pub >>=-Ends :
      (m : Result A) (f : A → Result B) → Ends m → ((a : A) → Ends (f a)) → Ends (m >>= f)
  >>=-Ends (ok a) f h k = k a
  >>=-Ends panicked f h k = tt
  >>=-Ends out_of_fuel f h k = absurd h
