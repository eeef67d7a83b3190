-- ===== src/Proxy/Router/Longest.antt =====
-- The order of a host's entries in crates/gaterust-proxy/src/router.rs: a search through the sorted
-- entries finds one with the longest prefix.
use gate_rust.Common.{
  ℕ, ◌≤◌, ◌≡◌, refl, inl, inr, Bool, Option, none, some, List, [], ◌∷◌, arith, leb, if◌then◌else◌,
  length, find_first, All, Bool-cases,
}
use gate_rust.Common.Sort.{insert_sorted, sort}
use gate_rust.Proxy.Router.{RouteEntry, longer_prefix}

module _ {Uri : Type 0} where
  abbrev pub prefer : RouteEntry Uri → Option (RouteEntry Uri) → Option (RouteEntry Uri)
  prefer entry none = some entry
  prefer entry (some other) =
      if leb (length other.path_prefix) (length entry.path_prefix) then some entry else some other

  -- Among the entries that pass the test, the first of those with the longest prefix.
  unfoldable pub longest : (RouteEntry Uri → Bool) → List (RouteEntry Uri) → Option (RouteEntry Uri)
  longest test [] = none
  longest test (entry ∷ entries) =
      let rest = longest test entries in if test entry then prefer entry rest else rest

  abbrev IsOrdered : List (RouteEntry Uri) → Type 0
  IsOrdered [] = Unit
  IsOrdered (y ∷ ys) = All (λ z. length z.path_prefix ≤ length y.path_prefix) ys × IsOrdered ys

  All-weaken :
      (n m : ℕ) (ys : List (RouteEntry Uri))
      → n ≤ m
      → All (λ z. length z.path_prefix ≤ n) ys
      → All (λ z. length z.path_prefix ≤ m) ys
  All-weaken n m [] h bound = tt
  All-weaken n m (y ∷ ys) h (first, bound) = (omega arith, All-weaken n m ys h bound)

  All-insert_sorted :
      (n : ℕ) (x : RouteEntry Uri) (ys : List (RouteEntry Uri))
      → length x.path_prefix ≤ n
      → All (λ z. length z.path_prefix ≤ n) ys
      → All (λ z. length z.path_prefix ≤ n) (insert_sorted longer_prefix x ys)
  unfolding insert_sorted
  All-insert_sorted n x [] h bound = (h, tt)
  All-insert_sorted n x (y ∷ ys) h (first, bound) = elim (Bool-cases (longer_prefix x y)) [
    | inl before ↦ rw before (h, (first, bound))
    | inr after ↦ rw after (first, All-insert_sorted n x ys h bound)
  ]

  insert_sorted-IsOrdered :
      (x : RouteEntry Uri) (ys : List (RouteEntry Uri))
      → IsOrdered ys
      → IsOrdered (insert_sorted longer_prefix x ys)
  unfolding insert_sorted
  insert_sorted-IsOrdered x [] h = (tt, tt)
  insert_sorted-IsOrdered x (y ∷ ys) (below, h) = elim (Bool-cases (longer_prefix x y)) [
    | inl before ↦
        let smaller : length y.path_prefix ≤ length x.path_prefix = ground arith in
        rw before ((smaller, All-weaken _ _ ys smaller below), (below, h))
    | inr after ↦ rw after (
      All-insert_sorted (length y.path_prefix) x ys (ground arith) below,
      insert_sorted-IsOrdered x ys h,
    )
  ]

  sort-IsOrdered : (xs : List (RouteEntry Uri)) → IsOrdered (sort longer_prefix xs)
  unfolding sort
  sort-IsOrdered [] = tt
  sort-IsOrdered (x ∷ xs) = insert_sorted-IsOrdered x (sort longer_prefix xs) (sort-IsOrdered xs)

  -- What is found in entries that are no longer than some length is no longer either.
  prefer_short :
      (test : RouteEntry Uri → Bool) (x : RouteEntry Uri) (ys : List (RouteEntry Uri))
      → All (λ z. length z.path_prefix ≤ length x.path_prefix) ys
      → prefer x (find_first test ys) ≡ some x
  prefer_short test x [] bound = refl
  prefer_short test x (y ∷ ys) (first, bound) = ground (arith, prefer_short test x ys bound)

  find_first-insert_sorted :
      (test : RouteEntry Uri → Bool) (x : RouteEntry Uri) (ys : List (RouteEntry Uri))
      → IsOrdered ys
      → find_first test (insert_sorted longer_prefix x ys)
        ≡ (if test x then prefer x (find_first test ys) else find_first test ys)
  unfolding insert_sorted
  find_first-insert_sorted test x [] h = ground arith
  find_first-insert_sorted test x (y ∷ ys) (below, h) = elim (Bool-cases (longer_prefix x y)) [
    | inl before ↦
        let smaller : length y.path_prefix ≤ length x.path_prefix = ground arith in
        let short = prefer_short test x (y ∷ ys) (smaller, All-weaken _ _ ys smaller below) in
        ground (arith, before, short)
    | inr after ↦ ground (arith, after, find_first-insert_sorted test x ys h)
  ]

  -- The search through the sorted entries finds an entry with the longest prefix.
  pub find_first-sort :
      (test : RouteEntry Uri → Bool) (xs : List (RouteEntry Uri))
      → find_first test (sort longer_prefix xs) ≡ longest test xs
  unfolding sort longest
  find_first-sort test [] = refl
  find_first-sort test (x ∷ xs) = ground (
    arith,
    find_first-insert_sorted test x (sort longer_prefix xs) (sort-IsOrdered xs),
    find_first-sort test xs,
  )
