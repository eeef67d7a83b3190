-- ===== src/Tunnel/Runtime/Answers.antt =====
-- What `find`, `disconnect_tunnel` and `register` of crates/gaterust-tunnel/src/runtime.rs answer.
use gate_rust.Common.{
  ℕ, ◌<◌, ◌≡◌, refl, ◌≢◌, ◌↔◌, Bool, true, false, Option, none, some, List, arith, ◌==◌, ==_iff,
  EqTest, list_eq, option_eq, ℕ_eq, contains, Option-cases, Bool-cases, inl, inr, if◌then◌else◌,
  ◌&&◌,
}
use gate_rust.Common.Text.{Text}
use gate_rust.Common.Net.{SocketAddr}
use gate_rust.HashMap
use gate_rust.HashMap.{HashMap, kept}
use gate_rust.Tunnel.Config.{kind_eq}
use gate_rust.Tunnel.Runtime.{
  RuntimeState, SessionEntry, TunnelOwner, TunnelSpec, ServiceDeclaration, claim_available,
  eligible, notify, service_map, TunnelDisconnectError, session_not_found, tunnel_not_found,
  not_owned_by_session, Outcome, done, failed, RegisterError, max_online_clients,
}
use gate_rust.Tunnel.Runtime.Operations.{
  find, disconnect_tunnel, drop_tunnel, register, session_entry,
}
use gate_rust.Tunnel.Runtime.Claims.{Holds, owner_of, SameTables-claim_available}
use gate_rust.Tunnel.Runtime.Consistent.{IsConsistent}
use gate_rust.Tunnel.Runtime.Ownership.{owner_of-claim_spec}
use gate_rust.Tunnel.Runtime.SessionChanges.{with_session, owner_of-drop_tunnel}

abbrev pub succeeded : Outcome TunnelDisconnectError → Bool
succeeded done = true
succeeded (failed e) = false

module _ {C D : Type 0} where
  -- A route leads to the tunnel's owner, which is online in the tunnel's group and has declared its
  -- kind, and has a token that is not cancelled.
  pub record IsRoute (st : RuntimeState C D) (name : Text) (route : C × ℕ) : Type 0 where
    pub owner : ℕ
    pub owns : owner_of st name ≡ some owner
    pub holds : Holds st name owner
    pub connection : route.0 ≡ holds.session.connection
    pub live : contains st.cancelled route.1 ≡ false

  abbrev pub IsAnswer : RuntimeState C D → Text → Option (C × ℕ) → Type 0
  IsAnswer st name none = owner_of st name ≡ none
  IsAnswer st name (some route) = IsRoute st name route

  -- In a consistent state `find` answers `none` only for a tunnel that has no owner; otherwise it
  -- answers with the connection of the owner, which is online in the tunnel's group and has
  -- declared its kind, and with a shutdown token that has not been cancelled.
  pub find-IsAnswer :
      (st : RuntimeState C D) (name : Text) → IsConsistent st → IsAnswer st name (find name st)
  unfolding find owner_of
  find-IsAnswer st name c = elim (Option-cases (HashMap.get name st.owners)) [
    | inl free ↦ rw (free, find) (ground arith)
    | inr (o, e) ↦
        let owns : owner_of st name ≡ some o.session_id = ground arith in
        let held = c.owned name o.session_id owns in
        rw (e, held.online, find)
          (record {
            owner = o.session_id;
            owns = owns;
            holds = held;
            connection = refl;
            live = c.tokens.live name o e;
          })
  ]

  -- The answer of `disconnect_tunnel`, from the tables.
  abbrev pub disconnect_answer :
      Option (SessionEntry C D) → Option TunnelSpec → Option ℕ → ℕ → Outcome TunnelDisconnectError
  disconnect_answer none spec owner id = failed session_not_found
  disconnect_answer (some s) none owner id = failed tunnel_not_found
  disconnect_answer (some s) (some spec) none id = failed not_owned_by_session
  disconnect_answer (some s) (some spec) (some j) id =
      if j == id then done else failed not_owned_by_session

  -- `disconnect_tunnel` fails for a session that is offline, else for a tunnel that is not
  -- configured, else for a tunnel that the session does not own, and succeeds otherwise. The
  -- tunnel has no owner after a success, and in every other case the owner of a tunnel is the same
  -- as before.
  pub disconnect_tunnel_lem :
      (id : ℕ) (tunnel name : Text) (st : RuntimeState C D)
      → ((disconnect_tunnel id tunnel st).1
          ≡ disconnect_answer
              (HashMap.get id st.sessions)
              (HashMap.get tunnel st.tunnels)
              (owner_of st tunnel)
              id)
        × (owner_of (disconnect_tunnel id tunnel st).0 name ≡ (
            if succeeded (disconnect_tunnel id tunnel st).1 && tunnel == name
            then none
            else owner_of st name))
  unfolding disconnect_tunnel owner_of
  disconnect_tunnel_lem id tunnel name st = elim (Option-cases (HashMap.get id st.sessions)) [
    | inl offline ↦ (ground arith, ground arith)
    | inr (session, online) ↦ elim (Option-cases (HashMap.get tunnel st.owners)) [
      | inl free ↦ (ground arith, ground arith)
      | inr (owner, owns) ↦
          (ground arith, ground (arith, owner_of-drop_tunnel id tunnel session owner st name))
    ]
  ]

  -- Where `disconnect_tunnel` fails, the state is unchanged.
  pub disconnect_tunnel_failed :
      (id : ℕ) (tunnel : Text) (st : RuntimeState C D) (e : TunnelDisconnectError)
      → (disconnect_tunnel id tunnel st).1 ≡ failed e
      → (disconnect_tunnel id tunnel st).0 ≡ st
  unfolding disconnect_tunnel
  disconnect_tunnel_failed id tunnel st e h = ground arith

  -- Where it succeeds on a consistent state, the token of the tunnel's routes is cancelled, the tokens
  -- of all other owned tunnels are not, and the session stays online.
  pub disconnect_tunnel_token :
      (id : ℕ) (tunnel name : Text) (st : RuntimeState C D) (mine other : TunnelOwner)
      → IsConsistent st
      → HashMap.get tunnel st.owners ≡ some mine
      → HashMap.get name st.owners ≡ some other
      → (disconnect_tunnel id tunnel st).1 ≡ done
      → (contains (disconnect_tunnel id tunnel st).0.cancelled other.shutdown ≡ (tunnel == name))
        × (HashMap.contains_key id (disconnect_tunnel id tunnel st).0.sessions ≡ true)
  unfolding disconnect_tunnel drop_tunnel notify
  disconnect_tunnel_token id tunnel name st mine other c owns others h =
      elim (Option-cases (HashMap.get id st.sessions)) [
        | inl offline ↦ absurd (ground arith)
        | inr (session, online) ↦
            let left = record session { services = HashMap.remove tunnel session.services } in
            (
              ground (
                arith,
                c.tokens.unique tunnel name mine other owns others,
                c.tokens.live name other others,
                ==_iff tunnel name,
              ),
              ground (arith, HashMap.get-insert id id left st.sessions),
            )
      ]

  module _ ⦃q : EqTest D⦄ where
    -- Where `register` refuses, the state is unchanged.
    pub register_failed :
        (remote_address : C → SocketAddr) (now id : ℕ) (device_id group : Text) (digest : D)
        (connection : C) (services : List ServiceDeclaration) (st : RuntimeState C D)
        (e : RegisterError)
        → (register remote_address now id device_id group digest connection services st).1
          ≡ failed e
        → (register remote_address now id device_id group digest connection services st).0 ≡ st
    unfolding register
    register_failed remote_address now id device_id group digest connection services st e h =
        ground arith

    -- `register` succeeds exactly if fewer than 128 sessions are online, the key is the group's
    -- current one, and no session that is online has the device id.
    pub register-eq-done_iff :
        (remote_address : C → SocketAddr) (now id : ℕ) (device_id group : Text) (digest : D)
        (connection : C) (services : List ServiceDeclaration) (st : RuntimeState C D)
        → ((register remote_address now id device_id group digest connection services st).1 ≡ done)
          ↔ ((HashMap.size st.sessions < max_online_clients)
              × (HashMap.get group st.credentials ≡ some digest)
              × ((i : ℕ) (s : SessionEntry C D)
                  → HashMap.get i st.sessions ≡ some s
                  → s.device_id ≢ device_id))
    unfolding register
    register-eq-done_iff remote_address now id device_id group digest connection services st = (
      λ h. (
        ground arith,
        ground (arith, ==_iff (HashMap.get group st.credentials) (some digest)),
        λ i s online. ground (
          arith,
          HashMap.any_of-false (λ s'. s'.device_id == device_id) i s st.sessions,
          ==_iff s.device_id device_id,
        ),
      ),
      λ (room, current, unseen).
          elim (Bool-cases (HashMap.any_of (λ s. s.device_id == device_id) st.sessions)) [
            | inl seen ↦
                let (i, s, online, same) = HashMap.any_of-true _ st.sessions seen in
                absurd (unseen i s online ((==_iff s.device_id device_id).0 same))
            | inr fresh ↦ ground (arith, ==_iff (HashMap.get group st.credentials) (some digest))
          ],
    )

    admitted :
        (remote_address : C → SocketAddr) (now id : ℕ) (device_id group : Text) (digest : D)
        (connection : C) (services : List ServiceDeclaration) (st : RuntimeState C D)
        → (register remote_address now id device_id group digest connection services st).1 ≡ done
        → (let entry =
              session_entry remote_address now device_id group digest connection services in
            (register remote_address now id device_id group digest connection services st).0
            ≡ notify (claim_available id (with_session id entry st)))
    unfolding register
    admitted remote_address now id device_id group digest connection services st h = ground arith

    -- Where `register` succeeds, the new session is online with the declared services, it takes
    -- each configured tunnel that was free, is in its group and has the declared kind, and a
    -- tunnel that had an owner keeps it.
    pub register_owner :
        (remote_address : C → SocketAddr) (now id : ℕ) (device_id group : Text) (digest : D)
        (connection : C) (services : List ServiceDeclaration) (st : RuntimeState C D) (name : Text)
        (spec : TunnelSpec)
        → (register remote_address now id device_id group digest connection services st).1 ≡ done
        → HashMap.get name st.tunnels ≡ some spec
        → (HashMap.get id
              (register remote_address now id device_id group digest connection services
                st).0.sessions
            ≡ some (session_entry remote_address now device_id group digest connection services))
          × (owner_of
                (register remote_address now id device_id group digest connection services st).0
                name
              ≡ (let claims =
                    group == spec.group
                    && HashMap.get name (service_map services) == some spec.kind in
                  elim (owner_of st name) [
                    | none ↦ if claims then some id else none
                    | some j ↦ some j
                  ]))
    unfolding notify owner_of eligible session_entry
    register_owner remote_address now id device_id group digest connection services st name spec h
          e =
        let entry = session_entry remote_address now device_id group digest connection services in
        let added = with_session id entry st in
        let taken =
          admitted remote_address now id device_id group digest connection services st h in
        let here : HashMap.get id added.sessions ≡ some entry =
          ground (arith, HashMap.get-insert id id entry st.sessions) in
        (
          rw (taken, (SameTables-claim_available id added).sessions) here,
          rw (taken, owner_of-claim_spec id name added entry spec here e),
        )
