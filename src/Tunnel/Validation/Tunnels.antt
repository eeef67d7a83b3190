-- ===== src/Tunnel/Validation/Tunnels.antt =====
-- The loop over the tunnels in `ServerConfig::validate` of crates/gaterust-tunnel/src/config.rs.
use gate_rust.Common.{
  ◌≤◌, ◌≡◌, refl, ◌∙◌, true, false, not, ◌&&◌, ◌||◌, Option, none, List, [], ◌∷◌, map, arith, ◌==◌,
  ℕ_eq, list_eq, contains, All, is_some,
}
use gate_rust.Common.Text.{Text}
use gate_rust.Common.Net.{IpAddr, SocketAddr, addr_eq, is_loopback}
use gate_rust.Common.Result.{ok, bind-eq-ok, then_ok, require_ok}
use gate_rust.Tunnel.Config.{
  TunnelKind, tcp, udp, socks5, ServerTunnelConfig, max_data_streams, max_udp_sessions,
  max_udp_idle_seconds,
}
use gate_rust.Tunnel.Protocol.Declarations.{IsName}
use gate_rust.Tunnel.Validation.{
  TunnelSets, is_socks5, in_range, insert_bind, is_local_ip, check_fields, check_tunnel,
  check_tunnels,
}
use gate_rust.Common.Distinct.{AllDifferent, Unseen, extend}
use gate_rust.Tunnel.Validation.Sets.{validate_name_sound}

abbrev pub names_of : List ServerTunnelConfig → List Text
names_of = map (λ (t : ServerTunnelConfig). t.name)

-- The addresses that the tunnels listen on with TCP, and with UDP.
abbrev pub add_stream : TunnelKind → SocketAddr → List SocketAddr → List SocketAddr
add_stream udp bind binds = binds
add_stream _ bind binds = bind ∷ binds

abbrev pub stream_binds_of : List ServerTunnelConfig → List SocketAddr
stream_binds_of [] = []
stream_binds_of (t ∷ tunnels) = add_stream t.kind t.bind (stream_binds_of tunnels)

abbrev pub add_udp : TunnelKind → SocketAddr → List SocketAddr → List SocketAddr
add_udp udp bind binds = bind ∷ binds
add_udp _ bind binds = binds

abbrev pub udp_binds_of : List ServerTunnelConfig → List SocketAddr
udp_binds_of [] = []
udp_binds_of (t ∷ tunnels) = add_udp t.kind t.bind (udp_binds_of tunnels)

pub record BindsAreFree (sets : TunnelSets) (stream datagram : List SocketAddr) : Type 0 where
  pub unseen_stream : Unseen sets.stream_binds stream
  pub different_stream : AllDifferent stream
  pub unseen_udp : Unseen sets.udp_binds datagram
  pub different_udp : AllDifferent datagram

-- A set that has taken an address, seen from the set before.
pub taken :
    (bind : SocketAddr) (before after binds : List SocketAddr)
    → contains before bind ≡ false
    → after ≡ bind ∷ before
    → Unseen after binds
    → AllDifferent binds
    → Unseen before (bind ∷ binds) × AllDifferent (bind ∷ binds)
taken bind before after binds fresh shape unseen different =
    extend before bind binds fresh (rw shape at unseen) different

-- What holds of the later tunnels' addresses holds with one more.
pub insert_bind_sound :
    (kind : TunnelKind) (bind : SocketAddr) (sets next : TunnelSets)
    (stream datagram : List SocketAddr)
    → insert_bind kind bind sets ≡ ok next
    → BindsAreFree next stream datagram
    → BindsAreFree sets (add_stream kind bind stream) (add_udp kind bind datagram)
unfolding insert_bind
insert_bind_sound tcp bind sets next stream datagram h free =
    let (unseen, different) =
      taken bind sets.stream_binds next.stream_binds stream (ground arith) (ground arith)
        free.unseen_stream free.different_stream in
    let kept : next.udp_binds ≡ sets.udp_binds = ground arith in
    record {
      unseen_stream = unseen;
      different_stream = different;
      unseen_udp = rw kept at free.unseen_udp;
      different_udp = free.different_udp;
    }
insert_bind_sound socks5 bind sets next stream datagram h free =
    let (unseen, different) =
      taken bind sets.stream_binds next.stream_binds stream (ground arith) (ground arith)
        free.unseen_stream free.different_stream in
    let kept : next.udp_binds ≡ sets.udp_binds = ground arith in
    record {
      unseen_stream = unseen;
      different_stream = different;
      unseen_udp = rw kept at free.unseen_udp;
      different_udp = free.different_udp;
    }
insert_bind_sound udp bind sets next stream datagram h free =
    let (unseen, different) =
      taken bind sets.udp_binds next.udp_binds datagram (ground arith) (ground arith)
        free.unseen_udp free.different_udp in
    let kept : next.stream_binds ≡ sets.stream_binds = ground arith in
    record {
      unseen_stream = rw kept at free.unseen_stream;
      different_stream = free.different_stream;
      unseen_udp = unseen;
      different_udp = different;
    }

pub insert_bind_names :
    (kind : TunnelKind) (bind : SocketAddr) (sets next : TunnelSets)
    → insert_bind kind bind sets ≡ ok next
    → next.names ≡ sets.names
unfolding insert_bind
insert_bind_names tcp bind sets next h = ground arith
insert_bind_names socks5 bind sets next h = ground arith
insert_bind_names udp bind sets next h = ground arith

module _ (parse_ip : Text → Option IpAddr) where
  -- A SOCKS5 tunnel, which has no authentication, listens on a loopback address and names no port
  -- of the client; another tunnel has an address for the client.
  abbrev pub KindIsValid : TunnelKind → ServerTunnelConfig → Type 0
  KindIsValid socks5 t = (is_loopback t.bind.ip ≡ true) × (t.local_port ≡ none)
  KindIsValid _ t = is_local_ip parse_ip t.local_ip ≡ true

  pub record TunnelIsValid (groups : List Text) (t : ServerTunnelConfig) : Type 0 where
    pub named : IsName t.name
    pub grouped : contains groups t.group ≡ true
    pub listens : 1 ≤ t.bind.port
    pub kind_valid : KindIsValid t.kind t
    pub connections : (1 ≤ t.max_connections) × (t.max_connections ≤ max_data_streams)
    pub sessions : (1 ≤ t.max_udp_sessions) × (t.max_udp_sessions ≤ max_udp_sessions)
    pub idle : (1 ≤ t.udp_idle_seconds) × (t.udp_idle_seconds ≤ max_udp_idle_seconds)

  pub record FieldsAreValid (t : ServerTunnelConfig) : Type 0 where
    port : (t.bind.port == 0) ≡ false
    socks5_port : (is_socks5 t.kind && is_some t.local_port) ≡ false
    local : (is_socks5 t.kind || is_local_ip parse_ip t.local_ip) ≡ true
    loopback : (not (is_socks5 t.kind) || is_loopback t.bind.ip) ≡ true
    connections : in_range max_data_streams t.max_connections ≡ true
    sessions : in_range max_udp_sessions t.max_udp_sessions ≡ true
    idle : in_range max_udp_idle_seconds t.udp_idle_seconds ≡ true

  pub check_fields_sound :
      (t : ServerTunnelConfig) → check_fields parse_ip t ≡ ok tt → FieldsAreValid t
  unfolding check_fields
  check_fields_sound t h =
      let (port, h1) = then_ok _ _ h in
      let (socks5_port, h2) = then_ok _ _ h1 in
      let (local, h3) = then_ok _ _ h2 in
      let (loopback, h4) = then_ok _ _ h3 in
      let (connections, h5) = then_ok _ _ h4 in
      let (sessions, idle) = then_ok _ _ h5 in
      record {
        port = ground (arith, require_ok _ _ port);
        socks5_port = ground (arith, require_ok _ _ socks5_port);
        local = require_ok _ _ local;
        loopback = require_ok _ _ loopback;
        connections = require_ok _ _ connections;
        sessions = require_ok _ _ sessions;
        idle = require_ok _ _ idle;
      }

  pub kind_valid_of :
      (kind : TunnelKind) (t : ServerTunnelConfig)
      → (is_socks5 kind && is_some t.local_port) ≡ false
      → (is_socks5 kind || is_local_ip parse_ip t.local_ip) ≡ true
      → (not (is_socks5 kind) || is_loopback t.bind.ip) ≡ true
      → KindIsValid kind t
  kind_valid_of socks5 t port local loopback = (loopback, ground arith)
  kind_valid_of tcp t port local loopback = local
  kind_valid_of udp t port local loopback = local

  pub record StepIsValid (groups : List Text) (t : ServerTunnelConfig) (sets next : TunnelSets)
      : Type 0 where
    pub valid : TunnelIsValid groups t
    fresh : contains sets.names t.name ≡ false
    counted : TunnelSets
    same_names : counted.names ≡ t.name ∷ sets.names
    same_streams : counted.stream_binds ≡ sets.stream_binds
    same_udp : counted.udp_binds ≡ sets.udp_binds
    inserted : insert_bind t.kind t.bind counted ≡ ok next

  pub check_tunnel_sound :
      (groups : List Text) (t : ServerTunnelConfig) (sets next : TunnelSets)
      → check_tunnel parse_ip groups t sets ≡ ok next
      → StepIsValid groups t sets next
  unfolding check_tunnel
  check_tunnel_sound groups t sets next h =
      let (named, h1) = then_ok _ _ h in
      let (fresh, h2) = then_ok _ _ h1 in
      let (grouped, h3) = then_ok _ _ h2 in
      let (room, h4) = then_ok _ _ h3 in
      let (fields, inserted) = then_ok _ _ h4 in
      let f = check_fields_sound t fields in
      record {
        valid = record {
          named = validate_name_sound t.name named;
          grouped = require_ok _ _ grouped;
          listens = ground (arith, f.port);
          kind_valid = kind_valid_of t.kind t f.socks5_port f.local f.loopback;
          connections = ground (arith, f.connections);
          sessions = ground (arith, f.sessions);
          idle = ground (arith, f.idle);
        };
        fresh = ground (arith, require_ok _ _ fresh);
        counted = _;
        same_names = refl;
        same_streams = refl;
        same_udp = refl;
        inserted = inserted;
      }

  -- What the loop accepts, when it has seen some tunnels.
  pub record IsAccepted (groups : List Text) (sets : TunnelSets) (tunnels : List ServerTunnelConfig)
      : Type 0 where
    pub valid : All (TunnelIsValid groups) tunnels
    pub unseen : Unseen sets.names (names_of tunnels)
    pub different : AllDifferent (names_of tunnels)
    pub binds : BindsAreFree sets (stream_binds_of tunnels) (udp_binds_of tunnels)

  pub check_tunnels_sound :
      (groups : List Text) (tunnels : List ServerTunnelConfig) (sets next : TunnelSets)
      → check_tunnels parse_ip groups tunnels sets ≡ ok next
      → IsAccepted groups sets tunnels
  unfolding check_tunnels
  check_tunnels_sound groups [] sets next h = record {
    valid = tt;
    unseen = tt;
    different = tt;
    binds = record {
      unseen_stream = tt;
      different_stream = tt;
      unseen_udp = tt;
      different_udp = tt;
    };
  }
  check_tunnels_sound groups (t ∷ tunnels) sets next h =
      let (mid, stepped, later) = bind-eq-ok (check_tunnel parse_ip groups t sets) _ h in
      let step = check_tunnel_sound groups t sets mid stepped in
      let rest = check_tunnels_sound groups tunnels mid next later in
      let shape : mid.names ≡ t.name ∷ sets.names =
        insert_bind_names t.kind t.bind step.counted mid step.inserted ∙ step.same_names in
      let (unseen, different) =
        extend sets.names t.name (names_of tunnels) step.fresh (rw shape at rest.unseen)
          rest.different in
      let free =
        insert_bind_sound t.kind t.bind step.counted mid (stream_binds_of tunnels)
          (udp_binds_of tunnels) step.inserted rest.binds in
      record {
        valid = (step.valid, rest.valid);
        unseen = unseen;
        different = different;
        binds = record {
          unseen_stream = rw step.same_streams at free.unseen_stream;
          different_stream = free.different_stream;
          unseen_udp = rw step.same_udp at free.unseen_udp;
          different_udp = free.different_udp;
        };
      }

  pub regroup :
      (groups names : List Text) (t : ServerTunnelConfig)
      → (contains groups t.group ≡ true → contains names t.group ≡ true)
      → TunnelIsValid groups t
      → TunnelIsValid names t
  regroup groups names t moved v = record {
    named = v.named;
    grouped = moved v.grouped;
    listens = v.listens;
    kind_valid = v.kind_valid;
    connections = v.connections;
    sessions = v.sessions;
    idle = v.idle;
  }

  pub regroup_each :
      (groups names : List Text) (tunnels : List ServerTunnelConfig)
      → ((name : Text) → contains groups name ≡ true → contains names name ≡ true)
      → All (TunnelIsValid groups) tunnels
      → All (TunnelIsValid names) tunnels
  regroup_each groups names [] moved h = tt
  regroup_each groups names (t ∷ tunnels) moved (h, hs) =
      (regroup groups names t (moved t.group) h, regroup_each groups names tunnels moved hs)
