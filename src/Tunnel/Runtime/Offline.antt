-- ===== src/Tunnel/Runtime/Offline.antt =====
-- A session id that is not online stays so under every operation of
-- crates/gaterust-tunnel/src/runtime.rs but its own registration.
use gate_rust.Common.{
  ℕ, ◌≡◌, ◌≢◌, none, some, List, arith, ==_iff, EqTest, list_eq, option_eq, ℕ_eq, Option-cases, inl,
  inr,
}
use gate_rust.Common.Text.{Text}
use gate_rust.Common.Net.{SocketAddr}
use gate_rust.HashMap
use gate_rust.HashMap.{HashMap, kept}
use gate_rust.Tunnel.Config.{ServerTunnelConfig}
use gate_rust.Tunnel.Runtime.{
  RuntimeState, SessionEntry, ServiceDeclaration, release_session, notify, retain_valid_owners,
  service_map,
}
use gate_rust.Tunnel.Runtime.Operations.{
  register, session_entry, update_services, reassign, notify_if, unregister, disconnect,
  disconnect_tunnel, drop_tunnel, apply_tunnels, apply_credentials,
}
use gate_rust.Tunnel.Runtime.Claims.{SameTables-claim_available}
use gate_rust.Tunnel.Runtime.SessionChanges.{with_session}
use gate_rust.Tunnel.Runtime.Credentials.{sessions-apply_credentials}

module _ {C D : Type 0} where
  abbrev pub Offline : ℕ → RuntimeState C D → Type 0
  Offline id st = HashMap.get id st.sessions ≡ none

  pub unregister-Offline :
      (id i : ℕ) (st : RuntimeState C D) → Offline i st → Offline i (unregister id st)
  unfolding unregister release_session notify
  unregister-Offline id i st h = ground (arith, HashMap.get-remove id i st.sessions)

  pub disconnect-Offline :
      (id i : ℕ) (st : RuntimeState C D) → Offline i st → Offline i (disconnect id st).0
  unfolding disconnect release_session notify
  disconnect-Offline id i st h = ground (arith, HashMap.get-remove id i st.sessions)

  pub disconnect_tunnel-Offline :
      (id i : ℕ) (tunnel : Text) (st : RuntimeState C D)
      → Offline i st
      → Offline i (disconnect_tunnel id tunnel st).0
  unfolding disconnect_tunnel drop_tunnel notify
  disconnect_tunnel-Offline id i tunnel st h = elim (Option-cases (HashMap.get id st.sessions)) [
    | inl e ↦ rw (e, disconnect_tunnel) h
    | inr (session, e) ↦
        let left = record session { services = HashMap.remove tunnel session.services } in
        ground (arith, e, HashMap.get-insert id i left st.sessions, ==_iff id i)
  ]

  pub apply_tunnels-Offline :
      (configs : List ServerTunnelConfig) (i : ℕ) (st : RuntimeState C D)
      → Offline i st
      → Offline i (apply_tunnels configs st)
  unfolding apply_tunnels retain_valid_owners notify
  apply_tunnels-Offline configs i st h = h

  pub reassign-Offline :
      (id i : ℕ) (session : SessionEntry C D) (declarations : List ServiceDeclaration)
      (st : RuntimeState C D)
      → HashMap.get id st.sessions ≡ some session
      → Offline i st
      → Offline i (reassign id session (service_map declarations) st)
  unfolding reassign retain_valid_owners
  reassign-Offline id i session declarations st e h =
      let left = record session { services = service_map declarations } in
      let st₁ = retain_valid_owners (with_session id left st) in
      rw (SameTables-claim_available id st₁).sessions
        (ground (arith, e, HashMap.get-insert id i left st.sessions, ==_iff id i))

  pub update_services-Offline :
      (id i : ℕ) (declarations : List ServiceDeclaration) (st : RuntimeState C D)
      → Offline i st
      → Offline i (update_services id declarations st).0
  unfolding update_services notify_if notify
  update_services-Offline id i declarations st h =
      elim (Option-cases (HashMap.get id st.sessions)) [
        | inl e ↦ rw (e, update_services) h
        | inr (session, e) ↦
            rw (e, update_services)
              (ground (arith, reassign-Offline id i session declarations st e h))
      ]

  module _ ⦃q : EqTest D⦄ where
    pub apply_credentials-Offline :
        (digest : Text → D) (credentials : List (Text × Text)) (i : ℕ) (st : RuntimeState C D)
        → Offline i st
        → Offline i (apply_credentials digest credentials st)
    apply_credentials-Offline digest credentials i st h =
        ground (arith, sessions-apply_credentials digest credentials st i)

    pub register-Offline :
        (remote_address : C → SocketAddr) (now id i : ℕ) (device_id group : Text) (digest : D)
        (connection : C) (services : List ServiceDeclaration) (st : RuntimeState C D)
        → i ≢ id
        → Offline i st
        → Offline i (register remote_address now id device_id group digest connection services st).0
    unfolding register notify
    register-Offline remote_address now id i device_id group digest connection services st n h =
        let entry = session_entry remote_address now device_id group digest connection services in
        ground (
          arith,
          (SameTables-claim_available id (with_session id entry st)).sessions,
          HashMap.get-insert id i entry st.sessions,
          ==_iff id i,
        )
