-- ===== src/HashMap.antt =====
-- Rust's `HashMap` and the operations on it that the source uses. The entries have distinct keys;
-- the order of iteration is the order of the entries, and clients have the laws below.
mod Entries
pub use Entries.{kept, holds_of}
use Entries.{
  Distinct, map_entries, Distinct-map_entries, lookup-map_entries, lookup-Member, Member-lookup,
  lookup, put, retain_entries, keys_where, any_value, Distinct-put, Distinct-retain_entries,
  lookup-put, lookup-retain_entries, contains-keys_where, any_value-false, any_value-true,
  length-put-le, length-put_present, length-retain_entries,
}
use gate_rust.Common.{
  ℕ, ◌+◌, ◌≤◌, ◌≡◌, refl, Bool, true, false, not, Option, none, some, List, [], ◌∷◌, arith,
  if◌then◌else◌, length, EqTest, ◌==◌, ==_iff, contains, is_some, Memᴰ,
}

pub record HashMap {ℓ κ} (K : Type ℓ) (V : Type κ) : Type (ℓ ⊔ κ) where
  pub entries : List (K × V)
  pub distinct : Distinct entries

module _ {ℓ κ} {K : Type ℓ} {V : Type κ} where
  unfoldable pub empty : HashMap K V
  empty = record { entries = []; distinct = tt }

  -- `HashMap::len`
  unfoldable pub size : HashMap K V → ℕ
  size m = length m.entries

  -- `HashMap::retain`, and a filter of the entries
  unfoldable pub retain : (K → V → Bool) → HashMap K V → HashMap K V
  unfolding retain_entries
  retain p m = record {
    entries = retain_entries p m.entries;
    distinct = Distinct-retain_entries p m.entries m.distinct;
  }

  -- A pass over `HashMap::values_mut`
  unfoldable pub map_values : (V → V) → HashMap K V → HashMap K V
  unfolding map_entries
  map_values f m = record {
    entries = map_entries f m.entries;
    distinct = Distinct-map_entries f m.entries m.distinct;
  }

  pub size-retain-le : (p : K → V → Bool) (m : HashMap K V) → size (retain p m) ≤ size m
  unfolding size retain
  size-retain-le p m = length-retain_entries p m.entries

module _ {ℓ κ} {K : Type ℓ} {V : Type κ} ⦃q : EqTest K⦄ where
  -- `HashMap::get`
  unfoldable pub get : K → HashMap K V → Option V
  unfolding lookup
  get k m = lookup k m.entries

  -- `HashMap::contains_key`
  abbrev pub contains_key : K → HashMap K V → Bool
  contains_key k m = is_some (get k m)

  -- `HashMap::insert`
  unfoldable pub insert : K → V → HashMap K V → HashMap K V
  unfolding put
  insert k v m = record {
    entries = put k v m.entries;
    distinct = Distinct-put k v m.entries m.distinct;
  }

  -- `HashMap::remove`
  unfoldable pub remove : K → HashMap K V → HashMap K V
  unfolding retain
  remove k m = retain (λ j _. not (j == k)) m

  -- The names of the entries that pass a test: `iter().filter(..).map(..).collect()`
  unfoldable pub keys_of : (K → V → Bool) → HashMap K V → List K
  unfolding keys_where
  keys_of p m = keys_where p m.entries

  -- `values().any(..)`
  unfoldable pub any_of : (V → Bool) → HashMap K V → Bool
  unfolding any_value
  any_of p m = any_value p m.entries

  -- `into_iter().collect::<HashMap<_, _>>()`: a later entry replaces an earlier one.
  unfoldable pub collect_into : HashMap K V → List (K × V) → HashMap K V
  collect_into m [] = m
  collect_into m (e ∷ l) = collect_into (insert e.0 e.1 m) l

  unfoldable pub collect : List (K × V) → HashMap K V
  unfolding collect_into empty insert
  collect l = collect_into empty l

  -- The last value that the list has for the key.
  unfoldable pub last_for : K → List (K × V) → Option V
  last_for k [] = none
  last_for k (e ∷ l) = elim (last_for k l) [
    | some v ↦ some v
    | none ↦ if e.0 == k then some e.1 else none
  ]

  pub get-empty : (k : K) → get k empty ≡ none
  unfolding get empty
  get-empty k = refl

  pub get-insert :
      (k j : K) (v : V) (m : HashMap K V)
      → get j (insert k v m) ≡ (if k == j then some v else get j m)
  unfolding get insert
  get-insert k j v m = lookup-put k j v m.entries

  pub get-retain :
      (p : K → V → Bool) (k : K) (m : HashMap K V) → get k (retain p m) ≡ kept p k (get k m)
  unfolding get retain
  get-retain p k m = lookup-retain_entries p k m.entries m.distinct

  pub get-remove :
      (k j : K) (m : HashMap K V) → get j (remove k m) ≡ (if k == j then none else get j m)
  unfolding remove
  get-remove k j m = rw get-retain (ground (arith, ==_iff j k, ==_iff k j))

  pub contains-keys_of :
      (p : K → V → Bool) (k : K) (m : HashMap K V)
      → contains (keys_of p m) k ≡ holds_of p k (get k m)
  unfolding keys_of get
  contains-keys_of p k m = contains-keys_where p k m.entries m.distinct

  pub any_of-false :
      (p : V → Bool) (k : K) (v : V) (m : HashMap K V)
      → any_of p m ≡ false
      → get k m ≡ some v
      → p v ≡ false
  unfolding any_of get
  any_of-false p k v m = any_value-false p k v m.entries

  pub any_of-true :
      (p : V → Bool) (m : HashMap K V)
      → any_of p m ≡ true
      → (k : K) × (v : V) × (get k m ≡ some v) × (p v ≡ true)
  unfolding any_of get
  any_of-true p m h = any_value-true p m.entries m.distinct h

  pub size-insert-le : (k : K) (v : V) (m : HashMap K V) → size (insert k v m) ≤ size m + 1
  unfolding size insert
  size-insert-le k v m = length-put-le k v m.entries

  pub size-insert_present :
      (k : K) (v w : V) (m : HashMap K V) → get k m ≡ some w → size (insert k v m) ≡ size m
  unfolding size insert get
  size-insert_present k v w m = length-put_present k v w m.entries

  pub size-remove-le : (k : K) (m : HashMap K V) → size (remove k m) ≤ size m
  unfolding remove
  size-remove-le k m = size-retain-le _ m

  get-collect_into :
      (k : K) (m : HashMap K V) (l : List (K × V))
      → get k (collect_into m l) ≡ (elim (last_for k l) [ some v ↦ some v | none ↦ get k m ])
  unfolding collect_into last_for
  get-collect_into k m [] = refl
  get-collect_into k m (e ∷ l) =
      ground (arith, get-collect_into k (insert e.0 e.1 m) l, get-insert e.0 k e.1 m)

  pub get-collect : (k : K) (l : List (K × V)) → get k (collect l) ≡ last_for k l
  unfolding collect
  get-collect k l = ground (arith, get-collect_into k empty l, get-empty k)

  pub get-Member : (k : K) (v : V) (m : HashMap K V) → Memᴰ (k, v) m.entries → get k m ≡ some v
  unfolding get
  get-Member k v m = lookup-Member k v m.entries m.distinct

  pub Member-get : (k : K) (v : V) (m : HashMap K V) → get k m ≡ some v → Memᴰ (k, v) m.entries
  unfolding get
  Member-get k v m = Member-lookup k v m.entries

  pub get-map_values :
      (f : V → V) (k : K) (m : HashMap K V)
      → get k (map_values f m) ≡ (elim (get k m) [ none ↦ none | some v ↦ some (f v) ])
  unfolding get map_values
  get-map_values f k m = lookup-map_entries f k m.entries
