-- ===== src/Tunnel/Validation.antt =====
-- `ServerConfig::validate` of crates/gaterust-tunnel/src/config.rs. The parser of IP addresses is a
-- parameter.
pub mod Sets
pub mod Tunnels
pub mod Groups
pub mod Accepted
pub mod Tests
use Prim.Native.Nat.{ℕ, ◌+◌, min}
use gate_rust.Common.{
  Bool, true, false, not, ◌&&◌, ◌||◌, Option, none, some, List, [], ◌∷◌, ◌==◌, ℕ_eq, list_eq,
  contains, ltb, leb, if◌then◌else◌, length, all, is_some,
}
use gate_rust.Common.Text.{Text, ascii, is_empty}
use gate_rust.Common.Net.{IpAddr, SocketAddr, addr_eq, is_loopback}
use gate_rust.Common.Result.{Result, ok, err, ◌>>=◌, ◌>>◌, require}
use gate_rust.HashMap
use gate_rust.HashMap.{HashMap}
use gate_rust.Tunnel.Config.{
  TunnelKind, tcp, udp, socks5, kind_eq, GroupConfig, ServerTunnelConfig, ServerConfig,
  max_client_services, max_data_streams, max_udp_sessions, max_udp_idle_seconds,
  min_group_key_length, max_group_key_length,
}
use gate_rust.Tunnel.Protocol.{is_name_byte}

-- `TunnelError::InvalidConfig` by its cause.
pub data ConfigError : Type 0 where
  too_many_entries invalid_name_length invalid_name_byte group_repeated : ConfigError
  invalid_key_length key_repeated tunnel_repeated unknown_group group_full : ConfigError
  zero_port socks5_local_port invalid_local_ip socks5_not_loopback : ConfigError
  invalid_connections invalid_udp_sessions invalid_udp_idle bind_repeated : ConfigError

unfoldable pub validate_name : Text → Result ConfigError (Unit {0})
unfolding is_name_byte
validate_name name =
    if is_empty name || ltb 64 (length name)
    then err invalid_name_length
    else if not (all is_name_byte name)
    then err invalid_name_byte
    else ok tt

-- `str::chars().count()`: the bytes that do not continue a character.
abbrev pub char_count : Text → ℕ
char_count [] = 0
char_count (b ∷ s) = let rest = char_count s in if leb 128 b && ltb b 192 then rest else rest + 1

unfoldable pub validate_group_key : Text → Result ConfigError (Unit {0})
validate_group_key key =
    let size = min (char_count key) (max_group_key_length + 1) in
    require (leb min_group_key_length size && leb size max_group_key_length) invalid_key_length

-- The sets of the loop over the groups.
pub record GroupSets : Type 0 where
  pub groups : List Text
  pub keys : List Text

unfoldable pub check_group : GroupConfig → GroupSets → Result ConfigError GroupSets
unfolding validate_name validate_group_key
check_group group sets =
    validate_name group.name
    >> (require (not (contains sets.groups group.name)) group_repeated
        >> (validate_group_key group.key
            >> (require (not (contains sets.keys group.key)) key_repeated
                >> ok
                    (record { groups = group.name ∷ sets.groups; keys = group.key ∷ sets.keys }))))

unfoldable pub check_groups : List GroupConfig → GroupSets → Result ConfigError GroupSets
unfolding check_group
check_groups [] sets = ok sets
check_groups (group ∷ groups) sets = check_group group sets >>= check_groups groups

-- The sets of the loop over the tunnels.
pub record TunnelSets : Type 0 where
  pub names : List Text
  pub per_group : HashMap Text ℕ
  pub stream_binds : List SocketAddr
  pub udp_binds : List SocketAddr

abbrev pub is_socks5 : TunnelKind → Bool
is_socks5 socks5 = true
is_socks5 _ = false

-- The tunnels of a group, with one more.
abbrev pub next_count : Option ℕ → ℕ
next_count none = 1
next_count (some n) = n + 1

abbrev pub in_range : ℕ → ℕ → Bool
in_range limit n = leb 1 n && leb n limit

-- `HashSet::insert` of the tunnel's address into the set of its transport.
unfoldable pub insert_bind : TunnelKind → SocketAddr → TunnelSets → Result ConfigError TunnelSets
insert_bind udp bind sets =
    if contains sets.udp_binds bind
    then err bind_repeated
    else ok (record sets { udp_binds = bind ∷ sets.udp_binds })
insert_bind _ bind sets =
    if contains sets.stream_binds bind
    then err bind_repeated
    else ok (record sets { stream_binds = bind ∷ sets.stream_binds })

abbrev pub no_tunnels : TunnelSets
no_tunnels = record { names = []; per_group = HashMap.empty; stream_binds = []; udp_binds = [] }

module _ (parse_ip : Text → Option IpAddr) where
  unfoldable pub is_local_ip : Text → Bool
  is_local_ip ip = ip == ascii "localhost" || is_some (parse_ip ip)

  -- The tests of a tunnel that need no set.
  unfoldable pub check_fields : ServerTunnelConfig → Result ConfigError (Unit {0})
  unfolding is_loopback is_local_ip
  check_fields t =
      require (not (t.bind.port == 0)) zero_port
      >> (require (not (is_socks5 t.kind && is_some t.local_port)) socks5_local_port
          >> (require (is_socks5 t.kind || is_local_ip t.local_ip) invalid_local_ip
              >> (require (not (is_socks5 t.kind) || is_loopback t.bind.ip) socks5_not_loopback
                  >> (require (in_range max_data_streams t.max_connections) invalid_connections
                      >> (require (in_range max_udp_sessions t.max_udp_sessions)
                            invalid_udp_sessions
                          >> require (in_range max_udp_idle_seconds t.udp_idle_seconds)
                              invalid_udp_idle)))))

  unfoldable pub check_tunnel :
      List Text → ServerTunnelConfig → TunnelSets → Result ConfigError TunnelSets
  unfolding validate_name check_fields insert_bind
  check_tunnel groups t sets =
      let count = next_count (HashMap.get t.group sets.per_group) in
      validate_name t.name
      >> (require (not (contains sets.names t.name)) tunnel_repeated
          >> (require (contains groups t.group) unknown_group
              >> (require (leb count max_client_services) group_full
                  >> (check_fields t
                      >> insert_bind t.kind t.bind (record sets {
                        names = t.name ∷ sets.names;
                        per_group = HashMap.insert t.group count sets.per_group;
                      })))))

  unfoldable pub check_tunnels :
      List Text → List ServerTunnelConfig → TunnelSets → Result ConfigError TunnelSets
  unfolding check_tunnel
  check_tunnels groups [] sets = ok sets
  check_tunnels groups (t ∷ tunnels) sets =
      check_tunnel groups t sets >>= check_tunnels groups tunnels

  -- The two loops of `validate`.
  unfoldable pub validate_entries : ServerConfig → Result ConfigError (Unit {0})
  unfolding check_groups check_tunnels
  validate_entries config =
      check_groups config.groups (record { groups = []; keys = [] })
      >>= (λ sets. check_tunnels sets.groups config.tunnels no_tunnels >>= (λ _. ok tt))

  unfoldable pub validate : ServerConfig → Result ConfigError (Unit {0})
  unfolding validate_entries
  validate config =
      if ltb 256 (length config.groups) || ltb 1024 (length config.tunnels)
      then err too_many_entries
      else validate_entries config
