-- ===== src/Control/TunnelEdits/Membership.antt =====
-- The tunnels of a group that crates/gaterust-control/src/store.rs renames or deletes.
use gate_rust.Common.{
  ◌≡◌, ◌≢◌, refl, sym, ap, true, not, List, [], ◌∷◌, map, arith, ◌==◌, ==_iff, list_eq, ℕ_eq,
  contains, All, filter, find_first, find_first_sound, Option-cases, Bool-cases, inl, inr,
}
use gate_rust.Common.Text.{Text}
use gate_rust.Common.Result.{ok, bind-eq-ok}
use gate_rust.Tunnel.Config.{GroupConfig, ServerTunnelConfig, ServerConfig}
use gate_rust.Tunnel.Validation.Groups.{group_names}
use gate_rust.Control.Errors.{a_group}
use gate_rust.Control.Named.{
  update_first, remove_named, remove_named_sound, find_named_contains, names_left, names_kept,
  name_replaced,
}
use gate_rust.Control.TunnelEdits.{
  group_name, move_tunnel, rename_group, update_group, delete_group,
}

-- Every tunnel is in a group of the list.
abbrev pub GroupsAreKnown : List GroupConfig → List ServerTunnelConfig → Type 0
GroupsAreKnown groups =
    All (λ (t : ServerTunnelConfig). contains (group_names groups) t.group ≡ true)

-- A tunnel in no other group than before stays as it is.
move_tunnel_same : (name : Text) (t : ServerTunnelConfig) → move_tunnel name name t ≡ t
unfolding move_tunnel
move_tunnel_same name t = elim (Bool-cases (t.group == name)) [
  | inr other ↦ rw (other, move_tunnel) refl
  | inl here ↦
      let same = (==_iff t.group name).0 here in
      rw (here, move_tunnel) (ap (λ g. record t { group = g }) (sym same))
]

map_same :
    (name : Text) (tunnels : List ServerTunnelConfig)
    → map (move_tunnel name name) tunnels ≡ tunnels
map_same name [] = refl
map_same name (t ∷ tunnels) = rw (move_tunnel_same name t, map_same name tunnels) refl

rename_group_lem :
    (original name : Text) (tunnels : List ServerTunnelConfig)
    → rename_group (not (original == name)) original name tunnels
      ≡ map (move_tunnel original name) tunnels
unfolding rename_group
rename_group_lem original name tunnels = elim (Bool-cases (original == name)) [
  | inr other ↦ rw (other, rename_group) refl
  | inl here ↦
      let same = (==_iff original name).0 here in
      rw (here, rename_group) (rw same (sym (map_same name tunnels)))
]

moved_known :
    (original : Text) (new : GroupConfig) (groups : List GroupConfig)
    (tunnels : List ServerTunnelConfig)
    → contains (group_names groups) original ≡ true
    → GroupsAreKnown groups tunnels
    → GroupsAreKnown
        (update_first (λ (g : GroupConfig). g.name == original) new groups)
        (map (move_tunnel original new.name) tunnels)
unfolding move_tunnel
moved_known original new groups [] present h = tt
moved_known original new groups (t ∷ tunnels) present (known, h) =
    let rest = moved_known original new groups tunnels present h in
    elim (Bool-cases (t.group == original)) [
      | inl here ↦
          (rw (here, move_tunnel) (name_replaced group_name original new groups present), rest)
      | inr there ↦
          let other : t.group ≢ original = λ same. ground (arith, ==_iff t.group original) in
          (
            rw (there, move_tunnel) (names_kept group_name original t.group new groups other known),
            rest,
          )
    ]

-- What a group's update leaves.
pub record GroupIsUpdated (original : Text) (group : GroupConfig) (config after : ServerConfig)
    : Type 0 where
  pub existed : contains (group_names config.groups) original ≡ true
  pub groups :
      after.groups ≡ update_first (λ (g : GroupConfig). g.name == original) group config.groups
  pub tunnels : after.tunnels ≡ map (move_tunnel original group.name) config.tunnels
  pub quic : after.quic ≡ config.quic

group_updated :
    (original : Text) (group : GroupConfig) (config after : ServerConfig)
    → update_group original group config ≡ ok after
    → GroupIsUpdated original group config after
unfolding update_group
group_updated original group config after h =
    elim (Option-cases (find_first (λ (g : GroupConfig). g.name == original) config.groups)) [
      | inl absent ↦ absurd (ground arith)
      | inr (current, found) ↦
          let named = find_named_contains config.groups original group_name current found in
          let (_, test) =
            find_first_sound (λ (g : GroupConfig). g.name == original) config.groups found in
          let same = (==_iff current.name original).0 test in
          let moved = rename_group_lem original group.name config.tunnels in
          let result : (record config {
            groups = update_first (λ (g : GroupConfig). g.name == original) group config.groups;
            tunnels =
                rename_group (not (current.name == group.name)) original group.name config.tunnels;
          })
              ≡ after =
            ground arith in
          rw (← result)
            (record { existed = named; groups = refl; tunnels = rw same moved; quic = refl })
    ]

-- Where update_group succeeds, exactly the tunnels of the group are moved to its name, and the others are
-- as before; if every tunnel was in a group of the configuration, every one still is.
pub update_group-GroupIsUpdated :
    (original : Text) (group : GroupConfig) (config after : ServerConfig)
    → update_group original group config ≡ ok after
    → GroupsAreKnown config.groups config.tunnels
    → GroupIsUpdated original group config after × GroupsAreKnown after.groups after.tunnels
update_group-GroupIsUpdated original group config after h known =
    let u = group_updated original group config after h in
    (
      u,
      rw (u.groups, u.tunnels)
          (moved_known original group config.groups config.tunnels u.existed known),
    )

others_known :
    (target : Text) (groups : List GroupConfig) (tunnels : List ServerTunnelConfig)
    → GroupsAreKnown groups tunnels
    → GroupsAreKnown
        (filter (λ g. not (group_name g == target)) groups)
        (filter (λ (t : ServerTunnelConfig). not (t.group == target)) tunnels)
others_known target groups [] h = tt
others_known target groups (t ∷ tunnels) (known, h) =
    let rest = others_known target groups tunnels h in
    elim (Bool-cases (t.group == target)) [
      | inl here ↦ rw here rest
      | inr there ↦ rw there (names_left group_name target t.group groups there known, rest)
    ]

pub record GroupIsDeleted (name : Text) (config after : ServerConfig) : Type 0 where
  pub groups : after.groups ≡ filter (λ g. not (group_name g == name)) config.groups
  pub tunnels :
      after.tunnels ≡ filter (λ (t : ServerTunnelConfig). not (t.group == name)) config.tunnels
  pub known : GroupsAreKnown after.groups after.tunnels
  pub quic : after.quic ≡ config.quic

-- Where delete_group succeeds, the group and exactly its tunnels are gone; if every tunnel was in a group
-- of the configuration, every one that is left still is.
pub delete_group-GroupIsDeleted :
    (name : Text) (config after : ServerConfig)
    → delete_group name config ≡ ok after
    → GroupsAreKnown config.groups config.tunnels
    → GroupIsDeleted name config after
unfolding delete_group
delete_group-GroupIsDeleted name config after h known =
    let (groups, removed, last) =
      bind-eq-ok (remove_named config.groups name a_group group_name) _ h in
    let left = remove_named_sound config.groups name a_group group_name groups removed in
    let result : (record config {
      groups = groups;
      tunnels = filter (λ (t : ServerTunnelConfig). not (t.group == name)) config.tunnels;
    })
        ≡ after =
      ground arith in
    rw (← result) (record {
      groups = left;
      tunnels = refl;
      known = rw left (others_known name config.groups config.tunnels known);
      quic = refl;
    })
