-- ===== src/Common/Sort.antt =====
-- `sort_unstable_by` on keys: an insertion sort, with the lexicographic order of byte strings.
use Prim.Native.Nat.{ℕ}
use mathlib.Core.Bool.{Bool, true, false, ◌&&◌, ◌||◌}
use mathlib.Core.Logic.{inl, inr}
use mathlib.Core.List.{List, [], ◌∷◌, Memᴰ}
use mathlib.Core.List.Memᴰ.{head, tail}
use gate_rust.Common.Tests.{ltb, nat_eq, if◌then◌else◌, Bool-cases}

-- `str` orders by bytes, the shorter first where one is a prefix of the other.
unfoldable pub text_leb : List ℕ → List ℕ → Bool
text_leb [] t = true
text_leb (a ∷ s) [] = false
text_leb (a ∷ s) (b ∷ t) = ltb a b || (nat_eq a b && text_leb s t)

module _ {ℓ} {A : Type ℓ} (le : A → A → Bool) where
  unfoldable pub insert_sorted : A → List A → List A
  insert_sorted x [] = x ∷ []
  insert_sorted x (y ∷ ys) = if le x y then x ∷ y ∷ ys else y ∷ insert_sorted x ys

  unfoldable pub sort : List A → List A
  unfolding insert_sorted
  sort [] = []
  sort (x ∷ xs) = insert_sorted x (sort xs)

  swap : {a x y : A} (ys : List A) → Memᴰ a (x ∷ y ∷ ys) → Memᴰ a (y ∷ x ∷ ys)
  swap ys (head e) = tail (head e)
  swap ys (tail (head e)) = head e
  swap ys (tail (tail m)) = tail (tail m)

  under : {a x : A} (ys zs : List A) → (Memᴰ a ys → Memᴰ a zs) → Memᴰ a (x ∷ ys) → Memᴰ a (x ∷ zs)
  under ys zs below (head e) = head e
  under ys zs below (tail m) = tail (below m)

  Memᴰ_of_inserted : {a : A} (x : A) (ys : List A) → Memᴰ a (insert_sorted x ys) → Memᴰ a (x ∷ ys)
  unfolding insert_sorted
  Memᴰ_of_inserted x [] m = m
  Memᴰ_of_inserted x (y ∷ ys) m = elim (Bool-cases (le x y)) [
    | inl before ↦ rw before at m
    | inr after ↦
        swap ys (under (insert_sorted x ys) (x ∷ ys) (Memᴰ_of_inserted x ys) (rw after at m))
  ]

  inserted_of_Memᴰ : {a : A} (x : A) (ys : List A) → Memᴰ a (x ∷ ys) → Memᴰ a (insert_sorted x ys)
  unfolding insert_sorted
  inserted_of_Memᴰ x [] m = m
  inserted_of_Memᴰ x (y ∷ ys) m = elim (Bool-cases (le x y)) [
    | inl before ↦ rw before m
    | inr after ↦ rw after (under (x ∷ ys) (insert_sorted x ys) (inserted_of_Memᴰ x ys) (swap ys m))
  ]

  -- Sorting keeps the elements.
  pub Memᴰ_of_sorted : {a : A} (xs : List A) → Memᴰ a (sort xs) → Memᴰ a xs
  unfolding sort
  Memᴰ_of_sorted [] m = m
  Memᴰ_of_sorted (x ∷ xs) m =
      under (sort xs) xs (Memᴰ_of_sorted xs) (Memᴰ_of_inserted x (sort xs) m)

  pub sorted_of_Memᴰ : {a : A} (xs : List A) → Memᴰ a xs → Memᴰ a (sort xs)
  unfolding sort
  sorted_of_Memᴰ [] m = m
  sorted_of_Memᴰ (x ∷ xs) m =
      inserted_of_Memᴰ x (sort xs) (under xs (sort xs) (sorted_of_Memᴰ xs) m)
