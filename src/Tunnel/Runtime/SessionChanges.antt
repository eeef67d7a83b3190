-- ===== src/Tunnel/Runtime/SessionChanges.antt =====
-- The operations of crates/gaterust-tunnel/src/runtime.rs that change a session (`register`,
-- `update_services`, `disconnect_tunnel`) or the credentials preserve the invariant.
use gate_rust.Common.{
  ℕ, ◌<◌, ◌≡◌, refl, ◌∙◌, ◌≢◌, Bool, true, false, none, some, List, arith, ◌==◌, ==_iff, EqTest,
  list_eq, option_eq, ℕ_eq, Option-cases, Bool-cases, inl, inr, if◌then◌else◌, leb, sym,
}
use gate_rust.Common.Text.{Text}
use gate_rust.Common.Net.{SocketAddr}
use gate_rust.HashMap
use gate_rust.HashMap.{HashMap, kept}
use gate_rust.Tunnel.Config.{TunnelKind}
use gate_rust.Tunnel.Runtime.{
  RuntimeState, SessionEntry, TunnelOwner, ServiceDeclaration, claim_available, retain_valid_owners,
  notify, max_online_clients, service_map,
}
use gate_rust.Tunnel.Runtime.Operations.{
  register, session_entry, update_services, disconnect_tunnel, drop_tunnel, reassign, notify_if,
}
use gate_rust.Tunnel.Runtime.Claims.{Holds, owner_of}
use gate_rust.Tunnel.Runtime.Tokens.{TokensFresh, tokens_transfer}
use gate_rust.Tunnel.Runtime.Consistent.{
  IsRegular, IsConsistent, retain_valid_owners-IsConsistent, claim_available-IsConsistent,
}
use gate_rust.Tunnel.Runtime.Preserved.{notify-IsConsistent}

module _ {C D : Type 0} where
  abbrev pub with_session : ℕ → SessionEntry C D → RuntimeState C D → RuntimeState C D
  with_session id entry st = record st { sessions = HashMap.insert id entry st.sessions }

  -- The sessions' part of the invariant, after one session is given new services.
  with_services-IsRegular :
      (id : ℕ) (session : SessionEntry C D) (services : HashMap Text TunnelKind)
      (st : RuntimeState C D)
      → HashMap.get id st.sessions ≡ some session
      → IsRegular st
      → IsRegular (with_session id (record session { services = services }) st)
  with_services-IsRegular id session services st online r =
      let updated : SessionEntry C D = record session { services = services } in
      record {
        devices = λ i j s t h k e.
            r.devices i j (before i s) (before j t) (found i s h) (found j t k)
              (same_device i s h ∙ e ∙ sym (same_device j t k));
        authorised = λ i s h. ground (
          arith,
          HashMap.get-insert id i updated st.sessions,
          r.authorised i s,
          r.authorised id session online,
        );
        bounded =
            omega
              (arith, HashMap.size-insert_present id updated session st.sessions online, r.bounded);
        tokens = tokens_transfer st (with_session id updated st) refl refl (λ name o h. h) r.tokens;
      }
    where
      new : SessionEntry C D
      new = record session { services = services }

      before : ℕ → SessionEntry C D → SessionEntry C D
      before i s = if id == i then session else s

      found :
          (i : ℕ) (s : SessionEntry C D)
          → HashMap.get i (HashMap.insert id new st.sessions) ≡ some s
          → HashMap.get i st.sessions ≡ some (before i s)
      found i s h = ground (arith, HashMap.get-insert id i new st.sessions)

      same_device :
          (i : ℕ) (s : SessionEntry C D)
          → HashMap.get i (HashMap.insert id new st.sessions) ≡ some s
          → (before i s).device_id ≡ s.device_id
      same_device i s h = ground (arith, HashMap.get-insert id i new st.sessions)

  pub reassign-IsConsistent :
      (id : ℕ) (session : SessionEntry C D) (services : HashMap Text TunnelKind)
      (st : RuntimeState C D)
      → HashMap.get id st.sessions ≡ some session
      → IsConsistent st
      → IsConsistent (reassign id session services st)
  unfolding reassign
  reassign-IsConsistent id session services st online c =
      let st₁ = with_session id (record session { services = services }) st in
      claim_available-IsConsistent id (retain_valid_owners st₁) (
        retain_valid_owners-IsConsistent st₁
          (with_services-IsRegular id session services st online c.regular))

  notify_if-IsConsistent :
      (changed : Bool) (st : RuntimeState C D)
      → IsConsistent st
      → IsConsistent (notify_if changed st)
  unfolding notify_if
  notify_if-IsConsistent true st c = notify-IsConsistent st c
  notify_if-IsConsistent false st c = c

  pub update_services-IsConsistent :
      (id : ℕ) (declarations : List ServiceDeclaration) (st : RuntimeState C D)
      → IsConsistent st
      → IsConsistent (update_services id declarations st).0
  unfolding update_services
  update_services-IsConsistent id declarations st c =
      elim (Option-cases (HashMap.get id st.sessions)) [
        | inl offline ↦ rw (offline, update_services) c
        | inr (session, online) ↦
            let st₁ = reassign id session (service_map declarations) st in
            rw (online, update_services)
              (notify_if-IsConsistent _ st₁
                (reassign-IsConsistent id session (service_map declarations) st online c))
      ]

  sessions_with_entry :
      (id j : ℕ) (entry : SessionEntry C D) (st : RuntimeState C D) (s : SessionEntry C D)
      → HashMap.get id st.sessions ≡ none
      → HashMap.get j st.sessions ≡ some s
      → HashMap.get j (HashMap.insert id entry st.sessions) ≡ some s
  sessions_with_entry id j entry st s free h =
      ground (arith, HashMap.get-insert id j entry st.sessions)

  -- A session with a new id, a new device and the current key of its group.
  pub with_session-IsConsistent :
      (id : ℕ) (entry : SessionEntry C D) (st : RuntimeState C D)
      → HashMap.get id st.sessions ≡ none
      → HashMap.size st.sessions < max_online_clients
      → HashMap.get entry.group st.credentials ≡ some entry.credential_digest
      → HashMap.any_of (λ s. s.device_id == entry.device_id) st.sessions ≡ false
      → IsConsistent st
      → IsConsistent (with_session id entry st)
  unfolding owner_of
  with_session-IsConsistent id entry st free room key unseen c = record {
    regular = record {
      devices = λ i j s t h k e. ground (
        arith,
        HashMap.get-insert id i entry st.sessions,
        HashMap.get-insert id j entry st.sessions,
        c.devices i j s t,
        HashMap.any_of-false (λ s. s.device_id == entry.device_id) i s st.sessions unseen,
        HashMap.any_of-false (λ s. s.device_id == entry.device_id) j t st.sessions unseen,
        ==_iff s.device_id entry.device_id,
        ==_iff t.device_id entry.device_id,
      );
      authorised =
          λ i s h. ground (arith, HashMap.get-insert id i entry st.sessions, c.authorised i s);
      bounded = omega (arith, HashMap.size-insert-le id entry st.sessions);
      tokens = tokens_transfer st (with_session id entry st) refl refl (λ name o h. h) c.tokens;
    };
    owned = λ name j h.
        let held = c.owned name j h in
        record {
          session = held.session;
          spec = held.spec;
          online = sessions_with_entry id j entry st held.session free held.online;
          configured = held.configured;
          same_group = held.same_group;
          declared = held.declared;
        };
  }

  -- `register` preserves the invariant where the session's id is new.
  pub register-IsConsistent :
      ⦃q : EqTest D⦄ (remote_address : C → SocketAddr) (now id : ℕ) (device_id group : Text)
      (digest : D) (connection : C) (services : List ServiceDeclaration) (st : RuntimeState C D)
      → HashMap.get id st.sessions ≡ none
      → IsConsistent st
      → IsConsistent
          (register remote_address now id device_id group digest connection services st).0
  unfolding register session_entry
  register-IsConsistent remote_address now id device_id group digest connection services st free c =
      elim (Bool-cases (leb max_online_clients (HashMap.size st.sessions))) [
        | inl full ↦ rw (full, register) c
        | inr room ↦ elim (Bool-cases (HashMap.get group st.credentials == some digest)) [
          | inr stale ↦ rw (room, stale, register) c
          | inl current ↦
              elim (Bool-cases (HashMap.any_of (λ s. s.device_id == device_id) st.sessions)) [
                | inl seen ↦ rw (room, current, seen, register) c
                | inr unseen ↦
                    let entry =
                      session_entry remote_address now device_id group digest connection services in
                    let added =
                      with_session-IsConsistent id entry st free (ground arith)
                        ((==_iff (HashMap.get group st.credentials) (some digest)).0 current) unseen
                        c in
                    rw (room, current, unseen, register)
                      (notify-IsConsistent (claim_available id (with_session id entry st))
                        (claim_available-IsConsistent id (with_session id entry st) added))
              ]
        ]
      ]

  drop_tunnel-TokensFresh :
      (id : ℕ) (tunnel : Text) (session : SessionEntry C D) (owner : TunnelOwner)
      (st : RuntimeState C D)
      → HashMap.get tunnel st.owners ≡ some owner
      → TokensFresh st
      → TokensFresh (drop_tunnel id tunnel session owner st)
  unfolding drop_tunnel notify
  drop_tunnel-TokensFresh id tunnel session owner st owns f = record {
    taken = λ name o h. ground (arith, HashMap.get-remove tunnel name st.owners, f.taken name o);
    live = λ name o h. ground (
      arith,
      HashMap.get-remove tunnel name st.owners,
      f.live name o,
      f.unique tunnel name owner o owns,
      ==_iff tunnel name,
    );
    unique = λ m n o p h k e. ground (
      arith,
      HashMap.get-remove tunnel m st.owners,
      HashMap.get-remove tunnel n st.owners,
      f.unique m n o p,
    );
    past = λ t h. ground (arith, f.past t, f.taken tunnel owner owns);
  }

  drop_tunnel-IsRegular :
      (id : ℕ) (tunnel : Text) (session : SessionEntry C D) (owner : TunnelOwner)
      (st : RuntimeState C D)
      → HashMap.get id st.sessions ≡ some session
      → HashMap.get tunnel st.owners ≡ some owner
      → IsRegular st
      → IsRegular (drop_tunnel id tunnel session owner st)
  unfolding drop_tunnel notify
  drop_tunnel-IsRegular id tunnel session owner st online owns r =
      let services = HashMap.remove tunnel session.services in
      let changed = with_services-IsRegular id session services st online r in
      record {
        devices = changed.devices;
        authorised = changed.authorised;
        bounded = changed.bounded;
        tokens = drop_tunnel-TokensFresh id tunnel session owner st owns r.tokens;
      }

  drop_tunnel-Holds :
      (id : ℕ) (tunnel : Text) (session : SessionEntry C D) (owner : TunnelOwner)
      (st : RuntimeState C D) (name : Text) (j : ℕ)
      → HashMap.get id st.sessions ≡ some session
      → name ≢ tunnel
      → Holds st name j
      → Holds (drop_tunnel id tunnel session owner st) name j
  unfolding drop_tunnel notify
  drop_tunnel-Holds id tunnel session owner st name j online ne h =
      let left : SessionEntry C D = record session {
        services = HashMap.remove tunnel session.services;
      } in
      record {
        session = if id == j then left else h.session;
        spec = h.spec;
        online = ground (arith, HashMap.get-insert id j left st.sessions, h.online);
        configured = h.configured;
        same_group = ground (arith, h.online, h.same_group, ==_iff id j);
        declared = ground (
          arith,
          h.online,
          h.declared,
          ==_iff id j,
          ==_iff tunnel name,
          HashMap.get-remove tunnel name session.services,
        );
      }

  pub owner_of-drop_tunnel :
      (id : ℕ) (tunnel : Text) (session : SessionEntry C D) (owner : TunnelOwner)
      (st : RuntimeState C D) (name : Text)
      → owner_of (drop_tunnel id tunnel session owner st) name
        ≡ (if tunnel == name then none else owner_of st name)
  unfolding drop_tunnel notify owner_of
  owner_of-drop_tunnel id tunnel session owner st name =
      ground (arith, HashMap.get-remove tunnel name st.owners)

  drop_tunnel-IsConsistent :
      (id : ℕ) (tunnel : Text) (session : SessionEntry C D) (owner : TunnelOwner)
      (st : RuntimeState C D)
      → HashMap.get id st.sessions ≡ some session
      → HashMap.get tunnel st.owners ≡ some owner
      → IsConsistent st
      → IsConsistent (drop_tunnel id tunnel session owner st)
  drop_tunnel-IsConsistent id tunnel session owner st online owns c = record {
    regular = drop_tunnel-IsRegular id tunnel session owner st online owns c.regular;
    owned = λ name j h.
        drop_tunnel-Holds id tunnel session owner st name j online
          (ground (arith, owner_of-drop_tunnel id tunnel session owner st name, ==_iff tunnel name))
          (c.owned name j (ground (arith, owner_of-drop_tunnel id tunnel session owner st name)));
  }

  pub disconnect_tunnel-IsConsistent :
      (id : ℕ) (tunnel : Text) (st : RuntimeState C D)
      → IsConsistent st
      → IsConsistent (disconnect_tunnel id tunnel st).0
  unfolding disconnect_tunnel
  disconnect_tunnel-IsConsistent id tunnel st c = elim (Option-cases (HashMap.get id st.sessions)) [
    | inl offline ↦ rw (offline, disconnect_tunnel) c
    | inr (session, online) ↦ elim (Option-cases (HashMap.get tunnel st.tunnels)) [
      | inl missing ↦ rw (online, missing, disconnect_tunnel) c
      | inr (spec, configured) ↦ elim (Option-cases (HashMap.get tunnel st.owners)) [
        | inl free ↦ rw (online, configured, free, disconnect_tunnel) c
        | inr (owner, owns) ↦ elim (Bool-cases (owner.session_id == id)) [
          | inr other ↦ rw (online, configured, owns, other, disconnect_tunnel) c
          | inl mine ↦
              rw (online, configured, owns, mine, disconnect_tunnel)
                (drop_tunnel-IsConsistent id tunnel session owner st online owns c)
        ]
      ]
    ]
  ]
