-- ===== src/Common/Distinct.antt =====
-- Lists without repetition, as loops with a set of what they have seen accept them.
use mathlib.Core.Path.{◌≡◌}
use mathlib.Core.Logic.{◌≢◌}
use mathlib.Core.Bool.{false}
use mathlib.Core.List.{List, [], ◌∷◌}
use native.Mathlib.Omega.{arith}
use gate_rust.Common.Lists.{All}
use gate_rust.Common.Equality.{EqTest, ==_iff, contains}

module _ {A : Type 0} ⦃e : EqTest A⦄ where
  -- No two elements are the same.
  abbrev pub AllDifferent : List A → Type 0
  AllDifferent [] = Unit
  AllDifferent (x ∷ xs) = All (λ y. y ≢ x) xs × AllDifferent xs

  abbrev pub Unseen : List A → List A → Type 0
  Unseen seen = All (λ x. contains seen x ≡ false)

  pub not_before :
      (seen : List A) (x : A) (xs : List A)
      → Unseen (x ∷ seen) xs
      → All (λ y. y ≢ x) xs × Unseen seen xs
  not_before seen x [] h = (tt, tt)
  not_before seen x (y ∷ xs) (h, hs) =
      let (rest, later) = not_before seen x xs hs in
      ((λ same. ground (arith, ==_iff x y), rest), (ground arith, later))

  pub extend :
      (seen : List A) (x : A) (xs : List A)
      → contains seen x ≡ false
      → Unseen (x ∷ seen) xs
      → AllDifferent xs
      → Unseen seen (x ∷ xs) × AllDifferent (x ∷ xs)
  extend seen x xs fresh unseen different =
      let (others, later) = not_before seen x xs unseen in ((fresh, later), (others, different))
