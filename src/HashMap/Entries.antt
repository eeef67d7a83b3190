-- ===== src/HashMap/Entries.antt =====
-- Association lists with distinct keys: the representation of a `HashMap`.
use gate_rust.Common.{
  ◌+◌, ◌≤◌, ◌≡◌, refl, ◌≢◌, inl, inr, Bool, true, false, Option, none, some, List, [], ◌∷◌, arith,
  if◌then◌else◌, length, EqTest, ◌==◌, ==_iff, ==_self, Bool-cases, contains, ◌||◌, Memᴰ, head,
  tail, ap, sym,
}

module _ {ℓ κ} {K : Type ℓ} {V : Type κ} where
  -- No entry of the list has the key.
  abbrev pub Lacks : K → List (K × V) → Type ℓ
  Lacks k [] = Unit
  Lacks k (e ∷ m) = (e.0 ≢ k) × Lacks k m

  abbrev pub Distinct : List (K × V) → Type ℓ
  Distinct [] = Unit
  Distinct (e ∷ m) = Lacks e.0 m × Distinct m

  unfoldable pub retain_entries : (K → V → Bool) → List (K × V) → List (K × V)
  retain_entries p [] = []
  retain_entries p (e ∷ m) = let rest = retain_entries p m in if p e.0 e.1 then e ∷ rest else rest

  Lacks-retain_entries :
      (p : K → V → Bool) (k : K) (m : List (K × V)) → Lacks k m → Lacks k (retain_entries p m)
  unfolding retain_entries
  Lacks-retain_entries p k [] h = tt
  Lacks-retain_entries p k (e ∷ m) (n, h) = elim (Bool-cases (p e.0 e.1)) [
    | inl kept ↦ rw kept (n, Lacks-retain_entries p k m h)
    | inr gone ↦ rw gone (Lacks-retain_entries p k m h)
  ]

  pub Distinct-retain_entries :
      (p : K → V → Bool) (m : List (K × V)) → Distinct m → Distinct (retain_entries p m)
  unfolding retain_entries
  Distinct-retain_entries p [] h = tt
  Distinct-retain_entries p (e ∷ m) (n, h) = elim (Bool-cases (p e.0 e.1)) [
    | inl kept ↦ rw kept (Lacks-retain_entries p e.0 m n, Distinct-retain_entries p m h)
    | inr gone ↦ rw gone (Distinct-retain_entries p m h)
  ]

  -- `values_mut`: every value is replaced, the keys stay.
  unfoldable pub map_entries : (V → V) → List (K × V) → List (K × V)
  map_entries f [] = []
  map_entries f (e ∷ m) = (e.0, f e.1) ∷ map_entries f m

  Lacks-map_entries : (f : V → V) (k : K) (m : List (K × V)) → Lacks k m → Lacks k (map_entries f m)
  unfolding map_entries
  Lacks-map_entries f k [] h = tt
  Lacks-map_entries f k (e ∷ m) (n, h) = (n, Lacks-map_entries f k m h)

  pub Distinct-map_entries :
      (f : V → V) (m : List (K × V)) → Distinct m → Distinct (map_entries f m)
  unfolding map_entries
  Distinct-map_entries f [] h = tt
  Distinct-map_entries f (e ∷ m) (n, h) = (Lacks-map_entries f e.0 m n, Distinct-map_entries f m h)

  pub length-retain_entries :
      (p : K → V → Bool) (m : List (K × V)) → length (retain_entries p m) ≤ length m
  unfolding retain_entries
  length-retain_entries p [] = omega arith
  length-retain_entries p (e ∷ m) = ground (arith, length-retain_entries p m)

  -- What a lookup finds after `retain_entries`.
  abbrev pub kept : (K → V → Bool) → K → Option V → Option V
  kept p k none = none
  kept p k (some v) = if p k v then some v else none

  abbrev pub holds_of : (K → V → Bool) → K → Option V → Bool
  holds_of p k none = false
  holds_of p k (some v) = p k v

  pair_of : (e : K × V) (k : K) (v : V) → e.0 ≡ k → e.1 ≡ v → e ≡ (k, v)
  pair_of e k v = λ left right. λ i. (left i, right i)

module _ {ℓ κ} {K : Type ℓ} {V : Type κ} ⦃q : EqTest K⦄ where
  unfoldable pub lookup : K → List (K × V) → Option V
  lookup k [] = none
  lookup k (e ∷ m) = if e.0 == k then some e.1 else lookup k m

  pub lookup-map_entries :
      (f : V → V) (k : K) (m : List (K × V))
      → lookup k (map_entries f m) ≡ (elim (lookup k m) [ none ↦ none | some v ↦ some (f v) ])
  unfolding lookup map_entries
  lookup-map_entries f k [] = refl
  lookup-map_entries f k (e ∷ m) = ground (arith, lookup-map_entries f k m)

  -- Replaces the entry of the key where it stands, or adds one at the end.
  unfoldable pub put : K → V → List (K × V) → List (K × V)
  put k v [] = (k, v) ∷ []
  put k v (e ∷ m) = if e.0 == k then (k, v) ∷ m else e ∷ put k v m

  Lacks-put : (j k : K) (v : V) (m : List (K × V)) → k ≢ j → Lacks j m → Lacks j (put k v m)
  unfolding put
  Lacks-put j k v [] n h = (n, tt)
  Lacks-put j k v (e ∷ m) n (e_ne, h) = elim (Bool-cases (e.0 == k)) [
    | inl here ↦ rw here (n, h)
    | inr there ↦ rw there (e_ne, Lacks-put j k v m n h)
  ]

  pub Distinct-put : (k : K) (v : V) (m : List (K × V)) → Distinct m → Distinct (put k v m)
  unfolding put
  Distinct-put k v [] h = (tt, tt)
  Distinct-put k v (e ∷ m) (n, h) = elim (Bool-cases (e.0 == k)) [
    | inl here ↦ let same : e.0 ≡ k = (==_iff e.0 k).0 here in rw (here, ← same) (n, h)
    | inr there ↦
        rw there
          (Lacks-put e.0 k v m (λ same. ground (arith, ==_iff e.0 k)) n, Distinct-put k v m h)
  ]

  pub lookup_of_Lacks : (k : K) (m : List (K × V)) → Lacks k m → lookup k m ≡ none
  unfolding lookup
  lookup_of_Lacks k [] h = refl
  lookup_of_Lacks k (e ∷ m) h = ground (arith, ==_iff e.0 k, lookup_of_Lacks k m)

  absent_Member : (k : K) (v : V) (m : List (K × V)) → Memᴰ (k, v) m → Lacks k m → ⊥
  absent_Member k v [] member lacks = elim member [ ]
  absent_Member k v (e ∷ m) (head here) (n, lacks) = n (ap (λ p. p.0) (sym here))
  absent_Member k v (e ∷ m) (tail there) (n, lacks) = absent_Member k v m there lacks

  pub lookup-Member :
      (k : K) (v : V) (m : List (K × V)) → Distinct m → Memᴰ (k, v) m → lookup k m ≡ some v
  unfolding lookup
  lookup-Member k v [] h member = elim member [ ]
  lookup-Member k v (e ∷ m) (n, h) (head here) =
      ground (arith, ==_iff e.0 k, ap (λ p. p.0) here, ap (λ p. p.1) here)
  lookup-Member k v (e ∷ m) (n, h) (tail there) = elim (Bool-cases (e.0 == k)) [
    | inl same ↦ absurd (absent_Member k v m there (rw ((==_iff e.0 k).0 same) at n))
    | inr other ↦ rw other (lookup-Member k v m h there)
  ]

  pub Member-lookup : (k : K) (v : V) (m : List (K × V)) → lookup k m ≡ some v → Memᴰ (k, v) m
  unfolding lookup
  Member-lookup k v [] h = absurd (ground arith)
  Member-lookup k v (e ∷ m) h = elim (Bool-cases (e.0 == k)) [
    | inl here ↦ head (sym (pair_of e k v ((==_iff e.0 k).0 here) (ground arith)))
    | inr there ↦ tail (Member-lookup k v m (ground arith))
  ]

  lookup_cons_of_found :
      (e : K × V) (k : K) (v : V) (m : List (K × V))
      → Lacks e.0 m
      → lookup k m ≡ some v
      → lookup k (e ∷ m) ≡ lookup k m
  unfolding lookup
  lookup_cons_of_found e k v m n found = elim (Bool-cases (e.0 == k)) [
    | inl here ↦
        let absent = lookup_of_Lacks k m (rw ((==_iff e.0 k).0 here) at n) in
        absurd (ground (arith, absent, found))
    | inr there ↦ rw there
  ]

  pub lookup-put :
      (k j : K) (v : V) (m : List (K × V))
      → lookup j (put k v m) ≡ (if k == j then some v else lookup j m)
  unfolding lookup put
  lookup-put k j v [] = refl
  lookup-put k j v (e ∷ m) =
      ground (arith, ==_iff e.0 k, ==_iff e.0 j, ==_iff k j, lookup-put k j v m)

  pub length-put-le : (k : K) (v : V) (m : List (K × V)) → length (put k v m) ≤ length m + 1
  unfolding put
  length-put-le k v [] = omega arith
  length-put-le k v (e ∷ m) = ground (arith, length-put-le k v m)

  pub length-put_present :
      (k : K) (v w : V) (m : List (K × V)) → lookup k m ≡ some w → length (put k v m) ≡ length m
  unfolding lookup put
  length-put_present k v w [] h = cc
  length-put_present k v w (e ∷ m) h = ground (arith, length-put_present k v w m)

  pub lookup-retain_entries :
      (p : K → V → Bool) (k : K) (m : List (K × V))
      → Distinct m
      → lookup k (retain_entries p m) ≡ kept p k (lookup k m)
  unfolding lookup retain_entries
  lookup-retain_entries p k [] h = refl
  lookup-retain_entries p k (e ∷ m) (n, h) = elim (Bool-cases (e.0 == k)) [
    | inl here ↦
        let same : e.0 ≡ k = (==_iff e.0 k).0 here in
        let absent = lookup_of_Lacks k m (rw same at n) in
        ground (arith, same, absent, lookup-retain_entries p k m h)
    | inr there ↦ ground (arith, lookup-retain_entries p k m h)
  ]

  -- The keys of the entries that pass a test, in the order of iteration.
  unfoldable pub keys_where : (K → V → Bool) → List (K × V) → List K
  keys_where p [] = []
  keys_where p (e ∷ m) = let rest = keys_where p m in if p e.0 e.1 then e.0 ∷ rest else rest

  pub contains-keys_where :
      (p : K → V → Bool) (k : K) (m : List (K × V))
      → Distinct m
      → contains (keys_where p m) k ≡ holds_of p k (lookup k m)
  unfolding lookup keys_where
  contains-keys_where p k [] h = refl
  contains-keys_where p k (e ∷ m) (n, h) = elim (Bool-cases (e.0 == k)) [
    | inl here ↦
        let same : e.0 ≡ k = (==_iff e.0 k).0 here in
        let absent = lookup_of_Lacks k m (rw same at n) in
        ground (arith, same, absent, contains-keys_where p k m h)
    | inr there ↦ ground (arith, contains-keys_where p k m h)
  ]

  unfoldable pub any_value : (V → Bool) → List (K × V) → Bool
  any_value p [] = false
  any_value p (e ∷ m) = p e.1 || any_value p m

  pub any_value-false :
      (p : V → Bool) (k : K) (v : V) (m : List (K × V))
      → any_value p m ≡ false
      → lookup k m ≡ some v
      → p v ≡ false
  unfolding lookup any_value
  any_value-false p k v [] h l = cc
  any_value-false p k v (e ∷ m) h l = ground (arith, any_value-false p k v m)

  pub any_value-true :
      (p : V → Bool) (m : List (K × V))
      → Distinct m
      → any_value p m ≡ true
      → (k : K) × (v : V) × (lookup k m ≡ some v) × (p v ≡ true)
  unfolding lookup any_value
  any_value-true p [] h t = cc
  any_value-true p (e ∷ m) (n, h) t = elim (Bool-cases (p e.1)) [
    | inl here ↦ (e.0, e.1, rw (==_self e.0), here)
    | inr there ↦
        let (k, v, found, holds) = any_value-true p m h (ground arith) in
        (k, v, rw (lookup_cons_of_found e k v m n found) found, holds)
  ]
