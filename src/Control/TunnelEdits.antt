-- ===== src/Control/TunnelEdits.antt =====
-- The changes to the tunnel configuration in crates/gaterust-control/src/store.rs: what each method
-- gives to `mutate_tunnel`.
pub mod Membership
use gate_rust.Common.{
  Bool, not, Option, none, some, List, [], ◌∷◌, ◌++◌, map, ◌==◌, list_eq, ℕ_eq, if◌then◌else◌,
  find_first, filter,
}
use gate_rust.Common.Text.{Text, ascii}
use gate_rust.Common.Net.{ipv4_socket}
use gate_rust.Common.Result.{Result, ok, err, ◌>>=◌}
use gate_rust.Tunnel.Config.{GroupConfig, ServerTunnelConfig, ServerQuicConfig, ServerConfig}
use gate_rust.Control.Errors.{ControlError, a_group, a_tunnel, resource_not_found}
use gate_rust.Control.Named.{update_first, replace_named, remove_named}

abbrev pub group_name : GroupConfig → Text
group_name group = group.name

abbrev pub tunnel_name : ServerTunnelConfig → Text
tunnel_name t = t.name

unfoldable pub default_tunnel : ServerConfig
default_tunnel = record {
  quic = record {
    bind = ipv4_socket 0 2333;
    certificate = ascii "/etc/gaterust/tunnel/server.pem";
    private_key = ascii "/etc/gaterust/tunnel/server-key.pem";
  };
  groups = [];
  tunnels = [];
}

unfoldable pub set_tunnel_quic : ServerQuicConfig → ServerConfig → Result ControlError ServerConfig
set_tunnel_quic quic config = ok (record config { quic = quic })

unfoldable pub create_group : GroupConfig → ServerConfig → Result ControlError ServerConfig
create_group group config = ok (record config { groups = config.groups ++ group ∷ [] })

-- A tunnel of the group, in the group with its new name.
unfoldable pub move_tunnel : Text → Text → ServerTunnelConfig → ServerTunnelConfig
move_tunnel original_name name t = if t.group == original_name then record t { group = name } else t

unfoldable pub rename_group : Bool → Text → Text → List ServerTunnelConfig → List ServerTunnelConfig
unfolding move_tunnel
rename_group renamed original_name name tunnels =
    if renamed then map (move_tunnel original_name name) tunnels else tunnels

unfoldable pub update_group : Text → GroupConfig → ServerConfig → Result ControlError ServerConfig
unfolding rename_group
update_group original_name group config =
    elim (find_first (λ (g : GroupConfig). g.name == original_name) config.groups) [
      | none ↦ err (resource_not_found a_group original_name)
      | some current ↦ ok (record config {
        groups = update_first (λ (g : GroupConfig). g.name == original_name) group config.groups;
        tunnels =
            rename_group (not (current.name == group.name)) original_name group.name config.tunnels;
      })
    ]

unfoldable pub delete_group : Text → ServerConfig → Result ControlError ServerConfig
unfolding remove_named
delete_group name config = remove_named config.groups name a_group group_name >>= (λ groups.
    ok (record config {
      groups = groups;
      tunnels = filter (λ (t : ServerTunnelConfig). not (t.group == name)) config.tunnels;
    }))

unfoldable pub create_tunnel : ServerTunnelConfig → ServerConfig → Result ControlError ServerConfig
create_tunnel t config = ok (record config { tunnels = config.tunnels ++ t ∷ [] })

unfoldable pub update_tunnel_config :
    Text → ServerTunnelConfig → ServerConfig → Result ControlError ServerConfig
unfolding replace_named
update_tunnel_config original_name t config =
    replace_named config.tunnels original_name t a_tunnel tunnel_name
    >>= (λ tunnels. ok (record config { tunnels = tunnels }))

unfoldable pub delete_tunnel_config : Text → ServerConfig → Result ControlError ServerConfig
unfolding remove_named
delete_tunnel_config name config =
    remove_named config.tunnels name a_tunnel tunnel_name
    >>= (λ tunnels. ok (record config { tunnels = tunnels }))

-- The methods with their arguments.
pub data TunnelChange : Type 0 where
  quic_set : ServerQuicConfig → TunnelChange
  group_created : GroupConfig → TunnelChange
  group_updated : Text → GroupConfig → TunnelChange
  group_deleted : Text → TunnelChange
  tunnel_created : ServerTunnelConfig → TunnelChange
  tunnel_updated : Text → ServerTunnelConfig → TunnelChange
  tunnel_deleted : Text → TunnelChange

unfoldable pub change_tunnel : TunnelChange → ServerConfig → Result ControlError ServerConfig
unfolding set_tunnel_quic create_group update_group delete_group create_tunnel update_tunnel_config
    delete_tunnel_config
change_tunnel (quic_set quic) = set_tunnel_quic quic
change_tunnel (group_created group) = create_group group
change_tunnel (group_updated original_name group) = update_group original_name group
change_tunnel (group_deleted name) = delete_group name
change_tunnel (tunnel_created t) = create_tunnel t
change_tunnel (tunnel_updated original_name t) = update_tunnel_config original_name t
change_tunnel (tunnel_deleted name) = delete_tunnel_config name
