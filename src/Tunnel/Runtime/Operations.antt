-- ===== src/Tunnel/Runtime/Operations.antt =====
-- The public operations of `TunnelRuntime` (crates/gaterust-tunnel/src/runtime.rs), as functions
-- on its state. `digest` stands for SHA-256 of a group key, `remote_address` for the QUIC
-- connection's method, `now` for the clock.
use gate_rust.Common.{
  ℕ, Bool, true, false, not, ◌||◌, Option, none, some, List, [], ◌∷◌, ◌++◌, map, filter, leb,
  nat_eq, if◌then◌else◌, EqTest, ◌==◌, list_eq, option_eq, ℕ_eq, length, contains, all, ◌&&◌,
}
use gate_rust.Common.Text.{Text}
use gate_rust.Common.Net.{SocketAddr}
use gate_rust.Common.Sort.{sort, text_leb}
use gate_rust.HashMap
use gate_rust.HashMap.{HashMap}
use gate_rust.Tunnel.Config.{
  TunnelKind, kind_eq, ServerTunnelConfig, client_local_ip, client_local_port,
}
use gate_rust.Tunnel.Runtime.{
  RuntimeState, SessionEntry, TunnelOwner, TunnelSpec, administrator_disconnect,
  credentials_revoked, RegisterError, device_id_conflict, capacity, credentials_changed,
  TunnelDisconnectError, session_not_found, tunnel_not_found, not_owned_by_session, Outcome, done,
  failed, ServiceDeclaration, service_map, max_online_clients, notify, retain_valid_owners,
  release_session, owned_tunnels, claim_available,
}

pub record ServiceUpdate : Type 0 where
  pub declared_services : ℕ
  pub active_tunnels : ℕ
  pub claimed_tunnels : ℕ
  pub released_tunnels : ℕ
  pub changed : Bool

pub data ClientTunnelState : Type 0 where
  idle enabled occupied : ClientTunnelState

pub record ClientTunnel : Type 0 where
  pub name : Text
  pub kind : TunnelKind
  pub server_port : ℕ
  pub local_ip : Option Text
  pub local_port : Option ℕ
  pub state : ClientTunnelState

-- `HashSet::difference(..).count()`
unfoldable pub difference_count : List Text → List Text → ℕ
difference_count xs ys = length (filter (λ x. not (contains ys x)) xs)

-- `HashMap` equality, as the source's `!=` on declared services uses it.
unfoldable pub same_services : HashMap Text TunnelKind → HashMap Text TunnelKind → Bool
unfolding HashMap.size HashMap.get
same_services a b =
    nat_eq (HashMap.size a) (HashMap.size b) && all (λ e. HashMap.get e.0 b == some e.1) a.entries

unfoldable pub spec_of : ServerTunnelConfig → TunnelSpec
unfolding client_local_ip client_local_port
spec_of config = record {
  group = config.group;
  kind = config.kind;
  bind = config.bind;
  local_ip = client_local_ip config;
  local_port = client_local_port config;
}

module _ {C D : Type 0} where
  unfoldable pub disconnect : ℕ → RuntimeState C D → RuntimeState C D × Bool
  unfolding HashMap.get HashMap.remove release_session notify
  disconnect id st = elim (HashMap.get id st.sessions) [
    | none ↦ (st, false)
    | some session ↦ (
      let st₁ = release_session id (record st { sessions = HashMap.remove id st.sessions }) in
          let st₂ = notify st₁ in
          record st₂ { closed = (session.connection, administrator_disconnect) ∷ st₂.closed },
      true,
    )
  ]

  unfoldable pub unregister : ℕ → RuntimeState C D → RuntimeState C D
  unfolding HashMap.get HashMap.remove release_session notify
  unregister id st =
      if HashMap.contains_key id st.sessions
      then notify (release_session id (record st { sessions = HashMap.remove id st.sessions }))
      else st

  -- The state after the lock is released, the token cancelled and the watchers notified.
  unfoldable pub drop_tunnel :
      ℕ → Text → SessionEntry C D → TunnelOwner → RuntimeState C D → RuntimeState C D
  unfolding HashMap.remove HashMap.insert notify
  drop_tunnel id tunnel session owner st = notify (record st {
    sessions =
        HashMap.insert id (record session { services = HashMap.remove tunnel session.services })
          st.sessions;
    owners = HashMap.remove tunnel st.owners;
    cancelled = owner.shutdown ∷ st.cancelled;
  })

  unfoldable pub disconnect_tunnel :
      ℕ → Text → RuntimeState C D → RuntimeState C D × Outcome TunnelDisconnectError
  unfolding HashMap.get drop_tunnel
  disconnect_tunnel id tunnel st = elim (HashMap.get id st.sessions) [
    | none ↦ (st, failed session_not_found)
    | some session ↦ elim (HashMap.get tunnel st.tunnels) [
      | none ↦ (st, failed tunnel_not_found)
      | some spec ↦ elim (HashMap.get tunnel st.owners) [
        | none ↦ (st, failed not_owned_by_session)
        | some owner ↦
            if owner.session_id == id
            then (drop_tunnel id tunnel session owner st, done)
            else (st, failed not_owned_by_session)
      ]
    ]
  ]

  unfoldable pub apply_tunnels : List ServerTunnelConfig → RuntimeState C D → RuntimeState C D
  unfolding HashMap.collect spec_of retain_valid_owners notify
  apply_tunnels configs st = notify (
      retain_valid_owners
        (record st { tunnels = HashMap.collect (map (λ c. (c.name, spec_of c)) configs) }))

  -- The tables after a session's declarations are replaced: owners that are no longer eligible lose
  -- their tunnels, then the session claims what is free.
  unfoldable pub reassign :
      ℕ → SessionEntry C D → HashMap Text TunnelKind → RuntimeState C D → RuntimeState C D
  unfolding HashMap.insert retain_valid_owners claim_available
  reassign id session services st = claim_available id (
      retain_valid_owners (record st {
        sessions = HashMap.insert id (record session { services = services }) st.sessions;
      }))

  unfoldable pub notify_if : Bool → RuntimeState C D → RuntimeState C D
  unfolding notify
  notify_if changed st = if changed then notify st else st

  unfoldable pub update_services :
      ℕ → List ServiceDeclaration → RuntimeState C D → RuntimeState C D × Option ServiceUpdate
  unfolding HashMap.get HashMap.size service_map owned_tunnels same_services reassign
      difference_count notify_if
  update_services id declarations st = elim (HashMap.get id st.sessions) [
    | none ↦ (st, none)
    | some session ↦
        let before = owned_tunnels st id in
        let services = service_map declarations in
        let declarations_changed = not (same_services session.services services) in
        let st₁ = reassign id session services st in
        let after = owned_tunnels st₁ id in
        let claimed = difference_count after before in
        let released = difference_count before after in
        let changed = declarations_changed || not (nat_eq claimed 0) || not (nat_eq released 0) in
        (
          notify_if changed st₁,
          some (record {
            declared_services = HashMap.size services;
            active_tunnels = length after;
            claimed_tunnels = claimed;
            released_tunnels = released;
            changed = changed;
          }),
        )
  ]

  -- The connection to open a stream on, and the token that ends its relays.
  unfoldable pub find : Text → RuntimeState C D → Option (C × ℕ)
  unfolding HashMap.get
  find tunnel st = elim (HashMap.get tunnel st.owners) [
    | none ↦ none
    | some owner ↦ elim (HashMap.get owner.session_id st.sessions) [
      | none ↦ none
      | some session ↦ some (session.connection, owner.shutdown)
    ]
  ]

  -- What the catalog says of a tunnel to the session `id`.
  unfoldable pub tunnel_state : RuntimeState C D → ℕ → Text → ClientTunnelState
  unfolding HashMap.get
  tunnel_state st id name = elim (HashMap.get name st.owners) [
    | none ↦ idle
    | some owner ↦ if owner.session_id == id then enabled else occupied
  ]

  unfoldable pub client_tunnel : RuntimeState C D → ℕ → Text × TunnelSpec → ClientTunnel
  unfolding tunnel_state
  client_tunnel st id e = record {
    name = e.0;
    kind = e.1.kind;
    server_port = e.1.bind.port;
    local_ip = e.1.local_ip;
    local_port = e.1.local_port;
    state = tunnel_state st id e.0;
  }

  unfoldable pub catalog : ℕ → RuntimeState C D → List ClientTunnel
  unfolding HashMap.get client_tunnel sort text_leb
  catalog id st = elim (HashMap.get id st.sessions) [
    | none ↦ []
    | some session ↦
        sort (λ left right. text_leb left.name right.name)
          (map (client_tunnel st id) (filter (λ e. e.1.group == session.group) st.tunnels.entries))
  ]

module _ {C D : Type 0} where
  unfoldable pub session_entry :
      (C → SocketAddr) → ℕ → Text → Text → D → C → List ServiceDeclaration → SessionEntry C D
  unfolding service_map
  session_entry remote_address now device_id group digest connection services = record {
    connection = connection;
    device_id = device_id;
    group = group;
    credential_digest = digest;
    remote_address = remote_address connection;
    connected_at = now;
    services = service_map services;
  }

module _ {C D : Type 0} ⦃q : EqTest D⦄ where
  unfoldable pub register :
      (C → SocketAddr)
      → ℕ
      → ℕ
      → Text
      → Text
      → D
      → C
      → List ServiceDeclaration
      → RuntimeState C D
      → RuntimeState C D × Outcome RegisterError
  unfolding HashMap.size HashMap.get HashMap.any_of HashMap.insert session_entry claim_available
      notify
  register remote_address now id device_id group digest connection services st =
      if leb max_online_clients (HashMap.size st.sessions)
      then (st, failed capacity)
      else if not (HashMap.get group st.credentials == some digest)
      then (st, failed credentials_changed)
      else if HashMap.any_of (λ session. session.device_id == device_id) st.sessions
      then (st, failed device_id_conflict)
      else let entry =
          session_entry remote_address now device_id group digest connection services in
        (
          notify
              (claim_available id (record st { sessions = HashMap.insert id entry st.sessions })),
          done,
        )

  -- The test of `apply_credentials` that a session has to be closed.
  unfoldable pub is_revoked : HashMap Text D → ℕ → SessionEntry C D → Bool
  unfolding HashMap.get
  is_revoked credentials _ session =
      not (HashMap.get session.group credentials == some session.credential_digest)

  -- The loop over the revoked sessions.
  unfoldable pub revoke_all : List ℕ → List C → RuntimeState C D → RuntimeState C D × List C
  unfolding HashMap.get HashMap.remove release_session
  revoke_all [] connections st = (st, connections)
  revoke_all (id ∷ ids) connections st =
      let session = HashMap.get id st.sessions in
      revoke_all ids
        (elim session [ none ↦ connections | some s ↦ connections ++ s.connection ∷ [] ])
        (elim session [
          | none ↦ st
          | some s ↦ release_session id (record st { sessions = HashMap.remove id st.sessions })
        ])

  unfoldable pub close_revoked : RuntimeState C D → List C → RuntimeState C D
  unfolding notify
  close_revoked st [] = st
  close_revoked st (c ∷ cs) =
      let st₁ = notify st in
      record st₁ { closed = map (λ k. (k, credentials_revoked)) (c ∷ cs) ++ st₁.closed }

  unfoldable pub apply_credentials :
      (Text → D) → List (Text × Text) → RuntimeState C D → RuntimeState C D
  unfolding HashMap.collect HashMap.keys_of is_revoked revoke_all close_revoked
  apply_credentials digest credentials st =
      let table = HashMap.collect (map (λ c. (c.0, digest c.1)) credentials) in
      let st₁ = record st { credentials = table } in
      let (st₂, connections) =
        revoke_all (HashMap.keys_of (is_revoked table) st₁.sessions) [] st₁ in
      close_revoked st₂ connections
