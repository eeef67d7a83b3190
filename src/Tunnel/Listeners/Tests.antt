-- ===== src/Tunnel/Listeners/Tests.antt =====
-- `ListenerManager` of crates/gaterust-tunnel/src/server/mod.rs on concrete configurations.
use gate_rust.Common.{
  ℕ, ◌≡◌, refl, Bool, true, not, List, [], ◌∷◌, arith, ◌==◌, ==_iff, ℕ_eq, list_eq, none,
}
use gate_rust.Common.Text.{Text, ascii}
use gate_rust.Common.Net.{ipv4_socket}
use gate_rust.Common.Result.{err}
use gate_rust.HashMap
use gate_rust.Tunnel.Config.{tcp, ServerTunnelConfig}
use gate_rust.Tunnel.Runtime.{RuntimeState, new_runtime}
use gate_rust.Tunnel.Listeners.{ListenerManager, bind_failed, new_manager, apply}
use gate_rust.Tunnel.Listeners.Rollback.{fresh, applied, IsApplied, apply-IsApplied}

abbrev tunnel : Text → ℕ → ServerTunnelConfig
tunnel name port = record {
  name = name;
  group = ascii "home";
  kind = tcp;
  bind = ipv4_socket 0 port;
  local_ip = ascii "localhost";
  local_port = none;
  limit_bps = none;
  max_connections = 8;
  max_udp_sessions = 8;
  udp_idle_seconds = 30;
}

abbrev always : ServerTunnelConfig → Bool
always c = true

abbrev not_dns : ServerTunnelConfig → Bool
not_dns c = not (c.name == ascii "dns")

abbrev runtime : RuntimeState ℕ ℕ
unfolding new_runtime
runtime = new_runtime

abbrev web : ListenerManager
unfolding apply new_manager
web = (apply always always always (tunnel (ascii "web") 80 ∷ []) new_manager runtime).1.0

-- The web listener moves to another port, and the new one does not start.
abbrev moved : List ServerTunnelConfig
moved = tunnel (ascii "web") 81 ∷ tunnel (ascii "dns") 53 ∷ []

move_fails : (apply always not_dns always moved web runtime).0 ≡ err (bind_failed (ascii "dns"))
unfolding apply new_manager web HashMap.get HashMap.insert HashMap.empty HashMap.keys_of
    HashMap.remove HashMap.collect HashMap.retain
move_fails = refl

apply-IsApplied_example :
    IsApplied moved (ascii "web") web runtime (apply always not_dns always moved web runtime)
unfolding web
apply-IsApplied_example =
    apply-IsApplied web runtime (ascii "web") always not_dns always moved
      (applied new_manager runtime always always always (tunnel (ascii "web") 80 ∷ []) fresh
        (tt, tt))
      (((λ same. ground (arith, ==_iff (ascii "dns") (ascii "web"))), tt), (tt, tt))
