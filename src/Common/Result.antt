-- ===== src/Common/Result.antt =====
-- `std::result::Result`, with `?` as the bind of a `do` block.
use mathlib.Core.Path.{◌≡◌, refl}
use mathlib.Core.Logic.{◌⊎◌, inl, inr}
use mathlib.Core.Bool.{Bool, true, false}
use native.Mathlib.Omega.{arith}

pub data Result {ℓ} (E : Type 0) (A : Type ℓ) : Type ℓ where
  ok : A → Result E A
  err : E → Result E A

module _ {E : Type 0} where
  infixl 5 ◌>>=◌ ◌>>◌
  abbrev pub ◌>>=◌ {ℓ κ} : {A : Type ℓ} {B : Type κ} → Result E A → (A → Result E B) → Result E B
  ok a >>= next = next a
  err e >>= next = err e

  abbrev pub ◌>>◌ {κ} : {B : Type κ} → Result E (Unit {0}) → Result E B → Result E B
  ok a >> next = next
  err e >> next = err e

  -- `if !test { return Err(e); }`
  abbrev pub require : Bool → E → Result E (Unit {0})
  require true e = ok tt
  require false e = err e

  abbrev pub is_ok {ℓ} : {A : Type ℓ} → Result E A → Bool
  is_ok (ok a) = true
  is_ok (err e) = false

  pub bind-eq-ok {ℓ κ} :
      {A : Type ℓ} {B : Type κ} (m : Result E A) (next : A → Result E B) {b : B}
      → (m >>= next) ≡ ok b
      → (a : A) × (m ≡ ok a) × (next a ≡ ok b)
  bind-eq-ok (ok a) next h = (a, refl, h)
  bind-eq-ok (err e) next h = cc

pub then_ok :
    {E : Type 0} {B : Type 0} (m : Result E (Unit {0})) (next : Result E B) {b : B}
    → (m >> next) ≡ ok b
    → (m ≡ ok tt) × (next ≡ ok b)
then_ok (ok done) next h = (refl, h)
then_ok (err e) next h = absurd (ground arith)

pub require_ok : {E : Type 0} (test : Bool) (e : E) → require test e ≡ ok tt → test ≡ true
require_ok true e h = refl
require_ok false e h = absurd (ground arith)

pub Result-cases {ℓ} :
    {E : Type 0} {A : Type ℓ} (r : Result E A) → ((a : A) × (r ≡ ok a)) ⊎ ((e : E) × (r ≡ err e))
Result-cases (ok a) = inl (a, refl)
Result-cases (err e) = inr (e, refl)
