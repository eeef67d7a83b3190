-- ===== src/Tunnel/Validation/Groups.antt =====
-- The loop over the groups in `ServerConfig::validate` of crates/gaterust-tunnel/src/config.rs.
use gate_rust.Common.{
  ◌≤◌, ◌≡◌, true, false, not, ◌||◌, List, [], ◌∷◌, map, arith, ==_iff, ℕ_eq, list_eq, contains, All,
}
use gate_rust.Common.Text.{Text}
use gate_rust.Common.Net.{addr_eq}
use gate_rust.Common.Result.{ok, bind-eq-ok, then_ok, require_ok}
use gate_rust.Tunnel.Config.{GroupConfig, min_group_key_length, max_group_key_length}
use gate_rust.Tunnel.Protocol.Declarations.{IsName}
use gate_rust.Tunnel.Validation.{
  group_repeated, key_repeated, validate_group_key, char_count, GroupSets, check_group,
  check_groups,
}
use gate_rust.Common.Distinct.{AllDifferent, Unseen, extend}
use gate_rust.Tunnel.Validation.Sets.{validate_name_sound}

abbrev pub group_names : List GroupConfig → List Text
group_names = map (λ (g : GroupConfig). g.name)

abbrev pub group_keys : List GroupConfig → List Text
group_keys = map (λ (g : GroupConfig). g.key)

pub record GroupIsValid (g : GroupConfig) : Type 0 where
  pub named : IsName g.name
  pub long : min_group_key_length ≤ char_count g.key
  pub short : char_count g.key ≤ max_group_key_length

pub record GroupStep (g : GroupConfig) (sets next : GroupSets) : Type 0 where
  pub valid : GroupIsValid g
  pub fresh_name : contains sets.groups g.name ≡ false
  pub fresh_key : contains sets.keys g.key ≡ false
  pub groups : next.groups ≡ g.name ∷ sets.groups
  pub keys : next.keys ≡ g.key ∷ sets.keys

pub validate_group_key_sound :
    (key : Text)
    → validate_group_key key ≡ ok tt
    → (min_group_key_length ≤ char_count key) × (char_count key ≤ max_group_key_length)
unfolding validate_group_key
validate_group_key_sound key h = let within = require_ok _ _ h in (ground arith, ground arith)

pub check_group_sound :
    (g : GroupConfig) (sets next : GroupSets) → check_group g sets ≡ ok next → GroupStep g sets next
unfolding check_group
check_group_sound g sets next h =
    let (named, h1) = then_ok _ _ h in
    let (fresh_name, h2) = then_ok _ _ h1 in
    let (key, h3) = then_ok _ _ h2 in
    let (fresh_key, done) = then_ok _ _ h3 in
    let (long, short) = validate_group_key_sound g.key key in
    let new_name = require_ok (not (contains sets.groups g.name)) group_repeated fresh_name in
    let new_key = require_ok (not (contains sets.keys g.key)) key_repeated fresh_key in
    record {
      valid = record { named = validate_name_sound g.name named; long = long; short = short };
      fresh_name = ground (arith, new_name);
      fresh_key = ground (arith, new_key);
      groups = ground arith;
      keys = ground arith;
    }

pub record GroupsAreAccepted (sets next : GroupSets) (groups : List GroupConfig) : Type 0 where
  pub valid : All GroupIsValid groups
  pub unseen_names : Unseen sets.groups (group_names groups)
  pub names : AllDifferent (group_names groups)
  pub unseen_keys : Unseen sets.keys (group_keys groups)
  pub keys : AllDifferent (group_keys groups)
  pub known :
      (name : Text)
      → contains next.groups name ≡ true
      → (contains sets.groups name || contains (group_names groups) name) ≡ true

pub check_groups_sound :
    (groups : List GroupConfig) (sets next : GroupSets)
    → check_groups groups sets ≡ ok next
    → GroupsAreAccepted sets next groups
unfolding check_groups
check_groups_sound [] sets next h = record {
  valid = tt;
  unseen_names = tt;
  names = tt;
  unseen_keys = tt;
  keys = tt;
  known = λ name found. ground arith;
}
check_groups_sound (g ∷ groups) sets next h =
    let (mid, stepped, later) = bind-eq-ok (check_group g sets) _ h in
    let step = check_group_sound g sets mid stepped in
    let rest = check_groups_sound groups mid next later in
    let (unseen_names, names) =
      extend sets.groups g.name (group_names groups) step.fresh_name
        (rw step.groups at rest.unseen_names) rest.names in
    let (unseen_keys, keys) =
      extend sets.keys g.key (group_keys groups) step.fresh_key (rw step.keys at rest.unseen_keys)
        rest.keys in
    record {
      valid = (step.valid, rest.valid);
      unseen_names = unseen_names;
      names = names;
      unseen_keys = unseen_keys;
      keys = keys;
      known = λ name found. ground (arith, ==_iff g.name name, rest.known name found, step.groups);
    }
