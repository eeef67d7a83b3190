-- ===== src/Common/Equality.antt =====
-- `EqTest`: a Boolean test that decides equality, as an instance. A `str` is the list of its bytes.
use Prim.Native.Nat.{ℕ}
use mathlib.Core.Path.{◌≡◌, refl}
use mathlib.Core.Logic.{◌↔◌}
use mathlib.Core.Bool.{Bool, true, false, ◌&&◌, ◌||◌}
use mathlib.Core.List.{List, [], ◌∷◌}
use mathlib.Core.Option.{Option, none, some}
use native.Mathlib.Omega.{arith}
use gate_rust.Common.Tests.{nat_eq, nat_eq_iff}

-- What `PartialEq` and `Eq` give the source: a test, and that it decides.
pub record EqTest {ℓ} (T : Type ℓ) : Type ℓ where
  pub same : T → T → Bool
  pub decides : (x y : T) → (same x y ≡ true) ↔ (x ≡ y)

instance abbrev pub ℕ_eq : EqTest ℕ
ℕ_eq = record { same = nat_eq; decides = nat_eq_iff }

module _ {ℓ} {T : Type ℓ} ⦃test : EqTest T⦄ where
  infix 50 ◌==◌
  abbrev pub ◌==◌ : T → T → Bool
  x == y = test.same x y

  pub ==_iff : (x y : T) → ((x == y) ≡ true) ↔ (x ≡ y)
  ==_iff x y = test.decides x y

  pub ==_self : (x : T) → (x == x) ≡ true
  ==_self x = (test.decides x x).1 refl

module _ {ℓ} {A : Type ℓ} ⦃e : EqTest A⦄ where
  abbrev pub list_beq : List A → List A → Bool
  list_beq [] [] = true
  list_beq [] (y ∷ ys) = false
  list_beq (x ∷ xs) [] = false
  list_beq (x ∷ xs) (y ∷ ys) = x == y && list_beq xs ys

  pub list_beq_iff : (xs ys : List A) → (list_beq xs ys ≡ true) ↔ (xs ≡ ys)
  list_beq_iff [] [] = ground arith
  list_beq_iff [] (y ∷ ys) = ground arith
  list_beq_iff (x ∷ xs) [] = ground arith
  list_beq_iff (x ∷ xs) (y ∷ ys) = ground (arith, e.decides x y, list_beq_iff xs ys)

  abbrev pub option_beq : Option A → Option A → Bool
  option_beq none none = true
  option_beq none (some b) = false
  option_beq (some a) none = false
  option_beq (some a) (some b) = a == b

  pub option_beq_iff : (a b : Option A) → (option_beq a b ≡ true) ↔ (a ≡ b)
  option_beq_iff none none = ground arith
  option_beq_iff none (some b) = ground arith
  option_beq_iff (some a) none = ground arith
  option_beq_iff (some a) (some b) = ground (arith, e.decides a b)

  -- `HashSet::contains` and `slice::contains`.
  abbrev pub contains : List A → A → Bool
  contains [] a = false
  contains (x ∷ xs) a = x == a || contains xs a

instance abbrev pub list_eq {ℓ} : {A : Type ℓ} ⦃e : EqTest A⦄ → EqTest (List A)
list_eq = record { same = list_beq; decides = list_beq_iff }

instance abbrev pub option_eq {ℓ} : {A : Type ℓ} ⦃e : EqTest A⦄ → EqTest (Option A)
option_eq = record { same = option_beq; decides = option_beq_iff }

module _ {ℓ} {A : Type ℓ} {B : Type ℓ} ⦃e : EqTest A⦄ ⦃f : EqTest B⦄ where
  abbrev pub pair_beq : A × B → A × B → Bool
  pair_beq (a, b) (c, d) = a == c && b == d

  pub pair_beq_iff : (p q : A × B) → (pair_beq p q ≡ true) ↔ (p ≡ q)
  pair_beq_iff (a, b) (c, d) = ground (arith, e.decides a c, f.decides b d)

instance abbrev pub pair_eq {ℓ} :
    {A : Type ℓ} {B : Type ℓ} ⦃e : EqTest A⦄ ⦃f : EqTest B⦄ → EqTest (A × B)
pair_eq = record { same = pair_beq; decides = pair_beq_iff }
