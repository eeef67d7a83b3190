-- ===== src/Tunnel/Runtime/Tests.antt =====
-- Runs of the runtime (crates/gaterust-tunnel/src/runtime.rs) on a small server: one group, two
-- tunnels, two clients. A connection is a number, and a key is its own digest.
use mathlib.Core.List.{Memᴰ}
use gate_rust.Common.{
  ℕ, ◌<◌, ◌≡◌, refl, ◌≢◌, ◌↔◌, true, none, some, List, [], ◌∷◌, arith, ◌==◌, list_eq, option_eq,
  ℕ_eq, contains, if◌then◌else◌, ◌&&◌, ==_iff,
}
use gate_rust.Common.Text.{Text, ascii}
use gate_rust.Common.Net.{SocketAddr, ipv4_socket}
use gate_rust.HashMap
use gate_rust.HashMap.{kept}
use gate_rust.Tunnel.Config.{ServerTunnelConfig, tcp, kind_eq}
use gate_rust.Tunnel.Runtime.{
  RuntimeState, SessionEntry, ServiceDeclaration, TunnelOwner, new_runtime, done,
  credentials_revoked, device_id_conflict, service_map, max_online_clients,
}
use gate_rust.Tunnel.Runtime.Operations.{
  register, update_services, unregister, disconnect_tunnel, apply_tunnels, apply_credentials, find,
  session_entry, spec_of,
}
use gate_rust.Tunnel.Runtime.Claims.{owner_of}
use gate_rust.Tunnel.Runtime.Consistent.{IsConsistent}
use gate_rust.Tunnel.Runtime.Credentials.{
  table_of, sessions-apply_credentials, closed-apply_credentials,
}
use gate_rust.Tunnel.Runtime.Reach
use gate_rust.Tunnel.Runtime.Reach.{Serving, Reach, Reach-IsConsistent, start, here, next}
use gate_rust.Tunnel.Runtime.Ownership.{update_services_owner}
use gate_rust.Tunnel.Runtime.Answers.{
  IsAnswer, find-IsAnswer, disconnect_answer, succeeded, disconnect_tunnel_lem,
  disconnect_tunnel_failed, disconnect_tunnel_token, register-eq-done_iff, register_failed,
  register_owner,
}

abbrev remote : ℕ → SocketAddr
remote c = ipv4_socket c 40000

abbrev digest_of : Text → Text
digest_of key = key

abbrev tunnel : Text → ServerTunnelConfig
tunnel name = record {
  name = name;
  group = ascii "office";
  kind = tcp;
  bind = ipv4_socket 0 22022;
  local_ip = ascii "127.0.0.1";
  local_port = none;
  limit_bps = none;
  max_connections = 8;
  max_udp_sessions = 8;
  udp_idle_seconds = 30;
}

abbrev declare : Text → ServiceDeclaration
declare name = record { name = name; kind = tcp }

abbrev ssh : Text
ssh = ascii "ssh"

abbrev web : Text
web = ascii "web"

abbrev configured : Serving ℕ Text
configured = record start {
  runtime =
      apply_tunnels (tunnel ssh ∷ tunnel web ∷ [])
        (apply_credentials digest_of ((ascii "office", ascii "k1") ∷ []) new_runtime);
}

-- The client `pc` is online and owns both tunnels.
abbrev joined : RuntimeState ℕ Text
joined =
    (register remote 100 1 (ascii "pc") (ascii "office") (ascii "k1") 7
      (declare ssh ∷ declare web ∷ []) configured.runtime).0

abbrev serving : Serving ℕ Text
serving = record { runtime = joined; next_id = 2; pending = [] }

runs : Unit {0}
unfolding register update_services unregister disconnect_tunnel apply_tunnels apply_credentials find
    owner_of new_runtime
runs = tt

Reach-serving : Reach remote digest_of serving
unfolding runs
Reach-serving =
    next
      (next
        (next (next here (Reach.reload_credentials start ((ascii "office", ascii "k1") ∷ [])))
          (Reach.reload_tunnels _ (tunnel ssh ∷ tunnel web ∷ [])))
        (Reach.accept configured (omega arith)))
      (Reach.authenticate (record configured { next_id = 2; pending = 1 ∷ [] }) 100 1 (ascii "pc")
        (ascii "office") (ascii "k1") 7 (declare ssh ∷ declare web ∷ []) refl)

Reach-IsConsistent_example : IsConsistent joined
Reach-IsConsistent_example = Reach-IsConsistent remote digest_of {s = serving} Reach-serving

owners_after_join : (owner_of joined ssh ≡ some 1) × (owner_of joined web ≡ some 1)
unfolding runs
owners_after_join = (refl, refl)

abbrev pc : SessionEntry ℕ Text
pc =
    session_entry remote 100 (ascii "pc") (ascii "office") (ascii "k1") 7
      (declare ssh ∷ declare web ∷ [])

pc_online : HashMap.get 1 joined.sessions ≡ some pc
unfolding runs session_entry
pc_online = refl

ssh_configured : HashMap.get ssh joined.tunnels ≡ some (spec_of (tunnel ssh))
unfolding runs spec_of
ssh_configured = refl

-- The client drops `ssh` and keeps `web`.
update_services_owner_example : owner_of (update_services 1 (declare web ∷ []) joined).0 ssh ≡ (
    let claims =
      pc.group == (spec_of (tunnel ssh)).group
      && HashMap.get ssh (service_map (declare web ∷ [])) == some (spec_of (tunnel ssh)).kind in
    let mine = if claims then some 1 else none in
    elim (owner_of joined ssh) [ none ↦ mine | some j ↦ if j == 1 then mine else some j ])
update_services_owner_example =
    update_services_owner 1 pc (declare web ∷ []) joined ssh (spec_of (tunnel ssh))
      Reach-IsConsistent_example pc_online ssh_configured

find-IsAnswer_example : IsAnswer joined ssh (find ssh joined)
find-IsAnswer_example = find-IsAnswer joined ssh Reach-IsConsistent_example

route_to_client : find ssh joined ≡ some (7, 0)
unfolding runs
route_to_client = refl

disconnect_answer_example : (disconnect_tunnel 1 ssh joined).1 ≡ done
unfolding runs
disconnect_answer_example = refl

disconnect_tunnel_failed_example : (disconnect_tunnel 2 ssh joined).0 ≡ joined
unfolding runs
disconnect_tunnel_failed_example = disconnect_tunnel_failed 2 ssh joined _ refl

abbrev owner_with : ℕ → TunnelOwner
owner_with token = record { session_id = 1; shutdown = token }

ssh_owner : HashMap.get ssh joined.owners ≡ some (owner_with 0)
unfolding runs
ssh_owner = refl

web_owner : HashMap.get web joined.owners ≡ some (owner_with 1)
unfolding runs
web_owner = refl

disconnect_tunnel_token_example :
    (contains (disconnect_tunnel 1 ssh joined).0.cancelled 1 ≡ (ssh == web))
    × (HashMap.contains_key 1 (disconnect_tunnel 1 ssh joined).0.sessions ≡ true)
disconnect_tunnel_token_example =
    disconnect_tunnel_token 1 ssh web joined (owner_with 0) (owner_with 1)
      Reach-IsConsistent_example ssh_owner web_owner disconnect_answer_example

-- A second device with a free id is admitted; the device `pc` is not.
abbrev phone : ServiceDeclaration → RuntimeState ℕ Text
phone s = (register remote 101 2 (ascii "phone") (ascii "office") (ascii "k1") 8 (s ∷ []) joined).0

register_failed_example :
    (register remote 101 2 (ascii "pc") (ascii "office") (ascii "k1") 8 [] joined).0 ≡ joined
unfolding runs
register_failed_example =
    register_failed remote 101 2 (ascii "pc") (ascii "office") (ascii "k1") 8 [] joined
      device_id_conflict refl

register-eq-done_iff_example :
    ((register remote 101 2 (ascii "phone") (ascii "office") (ascii "k1") 8 [] joined).1 ≡ done) ↔ (
      (HashMap.size joined.sessions < max_online_clients)
      × (HashMap.get (ascii "office") joined.credentials ≡ some (ascii "k1"))
      × ((i : ℕ) (s : SessionEntry ℕ Text)
          → HashMap.get i joined.sessions ≡ some s
          → s.device_id ≢ ascii "phone"))
register-eq-done_iff_example =
    register-eq-done_iff remote 101 2 (ascii "phone") (ascii "office") (ascii "k1") 8 [] joined

phone_admitted :
    (register remote 101 2
      (ascii "phone")
      (ascii "office")
      (ascii "k1")
      8
      (declare ssh ∷ [])
      joined).1
    ≡ done
unfolding runs
phone_admitted = refl

register_owner_example :
    (HashMap.get 2 (phone (declare ssh)).sessions
      ≡ some (
          session_entry remote 101
            (ascii "phone")
            (ascii "office")
            (ascii "k1")
            8
            (declare ssh ∷ [])))
    × (owner_of (phone (declare ssh)) ssh ≡ (
        let claims =
          ascii "office" == (spec_of (tunnel ssh)).group
          && HashMap.get ssh (service_map (declare ssh ∷ [])) == some (spec_of (tunnel ssh)).kind in
        elim (owner_of joined ssh) [ none ↦ if claims then some 2 else none | some j ↦ some j ]))
register_owner_example =
    register_owner remote 101 2 (ascii "phone") (ascii "office") (ascii "k1") 8 (declare ssh ∷ [])
      joined ssh (spec_of (tunnel ssh)) phone_admitted ssh_configured

-- The key of the group changes.
abbrev rotated : List (Text × Text)
rotated = (ascii "office", ascii "k2") ∷ []

sessions-apply_credentials_example :
    HashMap.get 1 (apply_credentials digest_of rotated joined).sessions
    ≡ kept {K = ℕ}
        (λ _ s. HashMap.get s.group (table_of digest_of rotated) == some s.credential_digest)
        1
        (HashMap.get 1 joined.sessions)
sessions-apply_credentials_example = sessions-apply_credentials digest_of rotated joined 1

stale_key : HashMap.get pc.group (table_of digest_of rotated) ≢ some pc.credential_digest
unfolding runs session_entry HashMap.collect HashMap.get
stale_key h = absurd (ground (arith, ==_iff (ascii "k2") (ascii "k1")))

closed-apply_credentials_example :
    Memᴰ (pc.connection, credentials_revoked) (apply_credentials digest_of rotated joined).closed
closed-apply_credentials_example =
    closed-apply_credentials digest_of rotated joined 1 pc pc_online stale_key

disconnect_tunnel_lem_example :
    ((disconnect_tunnel 1 ssh joined).1
      ≡ disconnect_answer
          (HashMap.get 1 joined.sessions)
          (HashMap.get ssh joined.tunnels)
          (owner_of joined ssh)
          1)
    × (owner_of (disconnect_tunnel 1 ssh joined).0 web ≡ (
        if succeeded (disconnect_tunnel 1 ssh joined).1 && ssh == web
        then none
        else owner_of joined web))
disconnect_tunnel_lem_example = disconnect_tunnel_lem 1 ssh web joined
