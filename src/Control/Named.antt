-- ===== src/Control/Named.antt =====
-- `replace_named` and `remove_named` of crates/gaterust-control/src/store.rs, and what becomes of the
-- elements of a list.
use gate_rust.Common.{
  ◌≡◌, ◌≢◌, any, Bool, true, false, not, none, some, List, [], ◌∷◌, map, arith, ◌==◌, ==_iff,
  ==_self, list_eq, ℕ_eq, contains, if◌then◌else◌, find_first, filter, length, Option-cases,
  Bool-cases, inl, inr, All,
}
use gate_rust.Common.Text.{Text}
use gate_rust.Common.Result.{Result, ok, err}
use gate_rust.Control.Errors.{ResourceKind, ControlError, resource_not_found}

module _ {T : Type 0} where
  -- What `iter_mut().find(..)` changes: the first element that passes the test.
  abbrev pub update_first : (T → Bool) → T → List T → List T
  update_first p new [] = []
  update_first p new (x ∷ items) =
      let rest = update_first p new items in if p x then new ∷ items else x ∷ rest

  -- `iter_mut().find(..).ok_or(..)`
  abbrev pub find_named : (T → Text) → List T → Text → ResourceKind → Result ControlError T
  find_named name items target kind = elim (find_first (λ x. name x == target) items) [
    | none ↦ err (resource_not_found kind target)
    | some current ↦ ok current
  ]

  unfoldable pub replace_named :
      List T → Text → T → ResourceKind → (T → Text) → Result ControlError (List T)
  replace_named items original_name replacement kind name =
      elim (find_first (λ x. name x == original_name) items) [
        | none ↦ err (resource_not_found kind original_name)
        | some current ↦ ok (update_first (λ x. name x == original_name) replacement items)
      ]

  unfoldable pub remove_named :
      List T → Text → ResourceKind → (T → Text) → Result ControlError (List T)
  remove_named items target kind name =
      let kept = filter (λ x. not (name x == target)) items in
      if length kept == length items then err (resource_not_found kind target) else ok kept

  pub find_named_sound :
      (name : T → Text) (items : List T) (target : Text) (kind : ResourceKind) (current : T)
      → find_named name items target kind ≡ ok current
      → find_first (λ x. name x == target) items ≡ some current
  find_named_sound name items target kind current h =
      elim (Option-cases (find_first (λ x. name x == target) items)) [
        | inl absent ↦ absurd (ground arith)
        | inr (c, found) ↦ ground arith
      ]

  pub remove_named_sound :
      (items : List T) (target : Text) (kind : ResourceKind) (name : T → Text) (kept : List T)
      → remove_named items target kind name ≡ ok kept
      → kept ≡ filter (λ x. not (name x == target)) items
  unfolding remove_named
  remove_named_sound items target kind name kept h = ground arith

  pub find_named_contains :
      (items : List T) (original : Text) (name : T → Text) (current : T)
      → find_first (λ x. name x == original) items ≡ some current
      → contains (map name items) original ≡ true
  find_named_contains [] original name current h = absurd (ground arith)
  find_named_contains (x ∷ items) original name current h = elim (Bool-cases (name x == original)) [
    | inl here ↦ ground (arith, ==_iff (name x) original, ==_self original)
    | inr other ↦
        let rest = find_named_contains items original name current (ground arith) in ground arith
  ]

  pub replace_named_sound :
      (items : List T) (original : Text) (replacement : T) (kind : ResourceKind) (name : T → Text)
      (after : List T)
      → replace_named items original replacement kind name ≡ ok after
      → (after ≡ update_first (λ x. name x == original) replacement items)
        × (contains (map name items) original ≡ true)
  unfolding replace_named
  replace_named_sound items original replacement kind name after h =
      elim (Option-cases (find_first (λ x. name x == original) items)) [
        | inl absent ↦ absurd (ground arith)
        | inr (current, found) ↦
            (ground arith, find_named_contains items original name current found)
      ]

  -- A name stays when elements of another name are removed.
  pub names_left :
      (name : T → Text) (target n : Text) (items : List T)
      → (n == target) ≡ false
      → contains (map name items) n ≡ true
      → contains (map name (filter (λ x. not (name x == target)) items)) n ≡ true
  names_left name target n [] other h = h
  names_left name target n (x ∷ items) other h = elim (Bool-cases (name x == target)) [
    | inl here ↦
        let away : (name x == n) ≡ false =
          ground (arith, ==_iff (name x) target, ==_iff (name x) n, ==_iff n target) in
        rw here (names_left name target n items other (ground arith))
    | inr there ↦ rw there (ground (arith, names_left name target n items other))
  ]

  -- A name stays when an element of another name is replaced.
  pub names_kept :
      (name : T → Text) (original n : Text) (new : T) (items : List T)
      → n ≢ original
      → contains (map name items) n ≡ true
      → contains (map name (update_first (λ x. name x == original) new items)) n ≡ true
  names_kept name original n new [] other h = h
  names_kept name original n new (x ∷ items) other h = elim (Bool-cases (name x == original)) [
    | inl here ↦
        let away : (name x == n) ≡ false =
          ground (arith, ==_iff (name x) original, ==_iff (name x) n) in
        rw here (ground arith)
    | inr there ↦ rw there (ground (arith, names_kept name original n new items other))
  ]

  -- The new element's name is in the list.
  pub name_replaced :
      (name : T → Text) (original : Text) (new : T) (items : List T)
      → contains (map name items) original ≡ true
      → contains (map name (update_first (λ x. name x == original) new items)) (name new) ≡ true
  name_replaced name original new [] h = absurd (ground arith)
  name_replaced name original new (x ∷ items) h = elim (Bool-cases (name x == original)) [
    | inl here ↦ rw here (ground (arith, ==_self (name new)))
    | inr there ↦ rw there (ground (arith, name_replaced name original new items))
  ]

  pub any-false :
      (p : T → Bool) (items : List T) → any p items ≡ false → All (λ x. p x ≡ false) items
  any-false p [] h = tt
  any-false p (x ∷ items) h = (ground arith, any-false p items (ground arith))
