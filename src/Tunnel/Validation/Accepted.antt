-- ===== src/Tunnel/Validation/Accepted.antt =====
-- What a configuration that `ServerConfig::validate` of crates/gaterust-tunnel/src/config.rs accepts
-- is known to satisfy.
use gate_rust.Common.{◌≤◌, ◌≡◌, Option, [], arith, ℕ_eq, list_eq, length, All}
use gate_rust.Common.Text.{Text}
use gate_rust.Common.Net.{IpAddr, addr_eq}
use gate_rust.Common.Result.{ok, bind-eq-ok}
use gate_rust.Tunnel.Config.{ServerConfig}
use gate_rust.Tunnel.Validation.{
  GroupSets, check_groups, check_tunnels, no_tunnels, validate_entries, validate,
}
use gate_rust.Common.Distinct.{AllDifferent}
use gate_rust.Tunnel.Validation.Tunnels.{
  TunnelIsValid, names_of, stream_binds_of, udp_binds_of, check_tunnels_sound, regroup_each,
}
use gate_rust.Tunnel.Validation.Groups.{GroupIsValid, group_names, group_keys, check_groups_sound}

-- What is known of a configuration that is accepted.
pub record ConfigIsValid (parse_ip : Text → Option IpAddr) (config : ServerConfig) : Type 0 where
  pub groups : All GroupIsValid config.groups
  pub names : AllDifferent (group_names config.groups)
  pub keys : AllDifferent (group_keys config.groups)
  pub tunnels : All (TunnelIsValid parse_ip (group_names config.groups)) config.tunnels
  pub tunnel_names : AllDifferent (names_of config.tunnels)
  pub stream_binds : AllDifferent (stream_binds_of config.tunnels)
  pub udp_binds : AllDifferent (udp_binds_of config.tunnels)
  pub few_groups : length config.groups ≤ 256
  pub few_tunnels : length config.tunnels ≤ 1024

-- Of a configuration that `validate` accepts: there are at most 256 groups and 1024 tunnels; names
-- are well formed, keys have 32 to 124 characters, and no two groups share a name or a key, and no
-- two tunnels a name; each tunnel is in a group of the configuration, listens on a port other than
-- zero, has its limits in range, and a SOCKS5 tunnel listens on a loopback address; no two tunnels
-- listen on one address with one transport.
pub validate-ConfigIsValid :
    (parse_ip : Text → Option IpAddr) (config : ServerConfig)
    → validate parse_ip config ≡ ok tt
    → ConfigIsValid parse_ip config
unfolding validate
validate-ConfigIsValid parse_ip config h =
    let none_yet : GroupSets = record { groups = []; keys = [] } in
    let passed : validate_entries parse_ip config ≡ ok tt = ground arith in
    let (sets, checked, later) = bind-eq-ok (check_groups config.groups none_yet) _ passed in
    let (last, listed, _) =
      bind-eq-ok (check_tunnels parse_ip sets.groups config.tunnels no_tunnels) _ later in
    let g = check_groups_sound config.groups none_yet sets checked in
    let t = check_tunnels_sound parse_ip sets.groups config.tunnels no_tunnels last listed in
    record {
      groups = g.valid;
      names = g.names;
      keys = g.keys;
      tunnels =
          regroup_each parse_ip sets.groups (group_names config.groups) config.tunnels g.known
            t.valid;
      tunnel_names = t.different;
      stream_binds = t.binds.different_stream;
      udp_binds = t.binds.different_udp;
      few_groups = ground arith;
      few_tunnels = ground arith;
    }
