-- ===== src/Common/Lists.antt =====
-- Lists measured and cut by native numbers, and the tests and predicates over them.
use Prim.Native.Nat.{ℕ, zero, suc, ◌+◌, ◌≤◌}
use mathlib.Core.Path.{◌≡◌, refl, ap}
use mathlib.Core.Bool.{Bool, true, false, ◌&&◌, ◌||◌}
use mathlib.Core.Option.{Option, none, some}
use mathlib.Core.Logic.{inl, inr}
use mathlib.Core.List.{List, [], ◌∷◌, ◌++◌, Memᴰ}
use mathlib.Core.List.Memᴰ.{head, tail}
use native.Mathlib.Omega.{arith}
use gate_rust.Common.Tests.{if◌then◌else◌, Bool-cases}

module _ {ℓ} {A : Type ℓ} where
  abbrev pub length : List A → ℕ
  length [] = 0
  length (x ∷ xs) = suc (length xs)

  abbrev pub take : ℕ → List A → List A
  take zero xs = []
  take (suc n) [] = []
  take (suc n) (x ∷ xs) = x ∷ take n xs

  abbrev pub drop : ℕ → List A → List A
  drop zero xs = xs
  drop (suc n) [] = []
  drop (suc n) (x ∷ xs) = drop n xs

  abbrev pub all : (A → Bool) → List A → Bool
  all p [] = true
  all p (x ∷ xs) = p x && all p xs

  abbrev pub any : (A → Bool) → List A → Bool
  any p [] = false
  any p (x ∷ xs) = p x || any p xs

  -- `Iterator::find`: the first element that passes the test.
  abbrev pub find_first : (A → Bool) → List A → Option A
  find_first p [] = none
  find_first p (x ∷ xs) = if p x then some x else find_first p xs

  abbrev pub filter : (A → Bool) → List A → List A
  filter p [] = []
  filter p (x ∷ xs) = let rest = filter p xs in if p x then x ∷ rest else rest

  pub length-append : (xs ys : List A) → length (xs ++ ys) ≡ length xs + length ys
  length-append [] ys = omega arith
  length-append (x ∷ xs) ys = omega (arith, length-append xs ys)

  pub take-append_left : (xs ys : List A) → take (length xs) (xs ++ ys) ≡ xs
  take-append_left [] ys = refl
  take-append_left (x ∷ xs) ys = ap (◌∷◌ x) (take-append_left xs ys)

  pub drop-append_left : (xs ys : List A) → drop (length xs) (xs ++ ys) ≡ ys
  drop-append_left [] ys = refl
  drop-append_left (x ∷ xs) ys = drop-append_left xs ys

  pub length-take_exact : (k : ℕ) (l : List A) → k ≤ length l → length (take k l) ≡ k
  length-take_exact zero l h = refl
  length-take_exact (suc k) [] h = absurd (omega arith)
  length-take_exact (suc k) (x ∷ l) h = ap suc (length-take_exact k l (omega arith))

  pub take-append-drop : (k : ℕ) (l : List A) → take k l ++ drop k l ≡ l
  take-append-drop zero l = refl
  take-append-drop (suc k) [] = refl
  take-append-drop (suc k) (x ∷ l) = ap (◌∷◌ x) (take-append-drop k l)

  pub length-filter-le : (p : A → Bool) (xs : List A) → length (filter p xs) ≤ length xs
  length-filter-le p [] = omega arith
  length-filter-le p (x ∷ xs) = ground (arith, length-filter-le p xs)

  pub find_first_sound :
      (p : A → Bool) (xs : List A) {a : A} → find_first p xs ≡ some a → Memᴰ a xs × (p a ≡ true)
  find_first_sound p [] h = absurd (ground arith)
  find_first_sound p (x ∷ xs) {a} h = elim (Bool-cases (p x)) [
    | inl here ↦ let same : a ≡ x = ground arith in (head same, ground arith)
    | inr later ↦
        let (member, holds) = find_first_sound p xs {a = a} (ground arith) in (tail member, holds)
  ]

  pub find_first-none :
      (p : A → Bool) (xs : List A) {a : A} → find_first p xs ≡ none → Memᴰ a xs → p a ≡ false
  find_first-none p [] h member = elim member [ ]
  find_first-none p (x ∷ xs) {a} h (head same) = rw same (ground arith)
  find_first-none p (x ∷ xs) {a} h (tail member) =
      find_first-none p xs {a = a} (ground arith) member

module _ {ℓ κ} {A : Type ℓ} (P : A → Type κ) where
  abbrev pub All : List A → Type κ
  All [] = Unit
  All (x ∷ xs) = P x × All xs

-- Two lists of one length whose elements are related one by one.
module _ {ℓ κ ι} {A : Type ℓ} {B : Type κ} (R : A → B → Type ι) where
  pub data Pairwise : List A → List B → Type (ℓ ⊔ κ ⊔ ι) where
    no_pairs : Pairwise [] []
    pair :
        (x : A) (y : B) (xs : List A) (ys : List B)
        → R x y
        → Pairwise xs ys
        → Pairwise (x ∷ xs) (y ∷ ys)
