-- ===== src/Prelude/Outcome.antt =====
-- Rust's `Result`, and methods over interior mutable state: a call returns the new state beside
-- its result, since a method that fails may have changed the state before.
use mathlib.Core.Path.{◌≡◌, refl}
use mathlib.Core.Logic.{◌⊎◌, inl, inr}
use mathlib.Core.Option.{Option, none, some}

pub data Result {ℓ} (E A : Type ℓ) : Type ℓ where
  ok : A → Result E A
  err : E → Result E A

pub Result-cases {ℓ} :
    {E A : Type ℓ} (r : Result E A) → ((a : A) × (r ≡ ok a)) ⊎ ((e : E) × (r ≡ err e))
Result-cases (ok a) = inl (a, refl)
Result-cases (err e) = inr (e, refl)

abbrev pub map_err {ℓ} : {E F A : Type ℓ} → (E → F) → Result E A → Result F A
map_err f (ok a) = ok a
map_err f (err e) = err (f e)

abbrev pub ok_or {ℓ} : {E A : Type ℓ} → E → Option A → Result E A
ok_or e none = err e
ok_or e (some a) = ok a

-- `?` on the outcome of a call: the rest of the body runs in the state that the call left.
abbrev pub and_then {ℓ} :
    {S E A B : Type ℓ} → S × Result E A → (A → S → S × Result E B) → S × Result E B
and_then (s, ok a) f = f a s
and_then (s, err e) f = (s, err e)

-- A method over the state `S`.
abbrev pub Method {ℓ} : Type ℓ → Type ℓ → Type ℓ → Type ℓ
Method S E A = S → S × Result E A

infixl 5 ◌>>=◌ ◌>>◌
abbrev pub ◌>>=◌ {ℓ} : {S E A B : Type ℓ} → Method S E A → (A → Method S E B) → Method S E B
◌>>=◌ m f s = and_then (m s) f

abbrev pub ◌>>◌ {ℓ} : {S E A B : Type ℓ} → Method S E A → Method S E B → Method S E B
◌>>◌ m k = m >>= λ _. k

abbrev pub return {ℓ} : {S E A : Type ℓ} → A → Method S E A
return a s = (s, ok a)

-- A fallible value that does not touch the state.
abbrev pub lift {ℓ} : {S E A : Type ℓ} → Result E A → Method S E A
lift r s = (s, r)
