-- ===== src/Tunnel/Validation/Tests.antt =====
-- Runs of `ServerConfig::validate` of crates/gaterust-tunnel/src/config.rs. The parser here knows
-- one address.
use gate_rust.Common.{◌≡◌, refl, Option, none, some, [], ◌∷◌, if◌then◌else◌, ◌==◌, ℕ_eq, list_eq}
use gate_rust.Common.Text.{Text, ascii}
use gate_rust.Common.Net.{IpAddr, ipv4, ipv4_socket}
use gate_rust.Common.Result.{ok, err}
use gate_rust.HashMap
use gate_rust.Tunnel.Config.{TunnelKind, tcp, udp, socks5, ServerTunnelConfig, ServerConfig}
use gate_rust.Tunnel.Validation.{validate, bind_repeated, socks5_not_loopback}
use gate_rust.Tunnel.Validation.Accepted.{ConfigIsValid, validate-ConfigIsValid}

validation : Unit {0}
unfolding validate HashMap.get HashMap.insert HashMap.empty
validation = tt

abbrev parse_ip : Text → Option IpAddr
parse_ip ip = if ip == ascii "127.0.0.1" then some (ipv4 2130706433) else none

abbrev tunnel : Text → TunnelKind → ServerTunnelConfig
tunnel name kind = record {
  name = name;
  group = ascii "home";
  kind = kind;
  bind = ipv4_socket 2130706433 8080;
  local_ip = ascii "127.0.0.1";
  local_port = none;
  limit_bps = none;
  max_connections = 128;
  max_udp_sessions = 128;
  udp_idle_seconds = 60;
}

abbrev config : ServerConfig
config = record {
  quic = record { bind = ipv4_socket 0 4433; certificate = ascii "c"; private_key = ascii "k" };
  groups = record { name = ascii "home"; key = ascii "0123456789abcdef0123456789abcdef" } ∷ [];
  tunnels = tunnel (ascii "proxy") socks5 ∷ tunnel (ascii "dns") udp ∷ [];
}

config_accepted : validate parse_ip config ≡ ok tt
unfolding validation
config_accepted = refl

shared_address :
    validate parse_ip
      (record config { tunnels = tunnel (ascii "web") tcp ∷ tunnel (ascii "proxy") socks5 ∷ [] })
    ≡ err bind_repeated
unfolding validation
shared_address = refl

open_socks5 :
    validate parse_ip (record config {
      tunnels = record (tunnel (ascii "proxy") socks5) { bind = ipv4_socket 0 8080 } ∷ [];
    })
    ≡ err socks5_not_loopback
unfolding validation
open_socks5 = refl

validate-ConfigIsValid_example : ConfigIsValid parse_ip config
validate-ConfigIsValid_example = validate-ConfigIsValid parse_ip config config_accepted
