-- ===== src/Tunnel/Config.antt =====
-- crates/gaterust-tunnel/src/config.rs: the configuration types and their limits.
use gate_rust.Common.{ℕ, ◌*◌, ◌≡◌, ◌↔◌, Bool, true, false, Option, none, some, List, arith, EqTest}
use gate_rust.Common.Text.{Text}
use gate_rust.Common.Net.{SocketAddr}

abbrev pub max_data_streams : ℕ
max_data_streams = 512

abbrev pub max_udp_sessions : ℕ
max_udp_sessions = 128

abbrev pub max_udp_idle_seconds : ℕ
max_udp_idle_seconds = 3600

abbrev pub max_queued_udp_bytes : ℕ
max_queued_udp_bytes = 16 * 1024 * 1024

abbrev pub min_group_key_length : ℕ
min_group_key_length = 32

abbrev pub max_group_key_length : ℕ
max_group_key_length = 124

abbrev pub max_client_services : ℕ
max_client_services = 256

pub data TunnelKind : Type 0 where
  tcp udp socks5 : TunnelKind

abbrev pub kind_beq : TunnelKind → TunnelKind → Bool
kind_beq tcp tcp = true
kind_beq udp udp = true
kind_beq socks5 socks5 = true
kind_beq _ _ = false

pub kind_beq_iff : (a b : TunnelKind) → (kind_beq a b ≡ true) ↔ (a ≡ b)
kind_beq_iff tcp tcp = ground arith
kind_beq_iff tcp udp = ground arith
kind_beq_iff tcp socks5 = ground arith
kind_beq_iff udp tcp = ground arith
kind_beq_iff udp udp = ground arith
kind_beq_iff udp socks5 = ground arith
kind_beq_iff socks5 tcp = ground arith
kind_beq_iff socks5 udp = ground arith
kind_beq_iff socks5 socks5 = ground arith

instance abbrev pub kind_eq : EqTest TunnelKind
kind_eq = record { same = kind_beq; decides = kind_beq_iff }

pub record GroupConfig : Type 0 where
  pub name : Text
  pub key : Text

-- `local_port` and `limit_bps` are non-zero in the source.
pub record ServerTunnelConfig : Type 0 where
  pub name : Text
  pub group : Text
  pub kind : TunnelKind
  pub bind : SocketAddr
  pub local_ip : Text
  pub local_port : Option ℕ
  pub limit_bps : Option ℕ
  pub max_connections : ℕ
  pub max_udp_sessions : ℕ
  pub udp_idle_seconds : ℕ

pub record ServerQuicConfig : Type 0 where
  pub bind : SocketAddr
  pub certificate : Text
  pub private_key : Text

pub record ServerConfig : Type 0 where
  pub quic : ServerQuicConfig
  pub groups : List GroupConfig
  pub tunnels : List ServerTunnelConfig

-- `ServerTunnelConfig::client_local_port`
client_port : TunnelKind → Option ℕ → ℕ → Option ℕ
client_port socks5 port bind_port = none
client_port _ (some port) bind_port = some port
client_port _ none bind_port = some bind_port

unfoldable pub client_local_port : ServerTunnelConfig → Option ℕ
unfolding client_port
client_local_port t = client_port t.kind t.local_port t.bind.port

client_ip : TunnelKind → Text → Option Text
client_ip socks5 ip = none
client_ip _ ip = some ip

-- `ServerTunnelConfig::client_local_ip`
unfoldable pub client_local_ip : ServerTunnelConfig → Option Text
unfolding client_ip
client_local_ip t = client_ip t.kind t.local_ip
