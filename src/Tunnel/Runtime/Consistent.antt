-- ===== src/Tunnel/Runtime/Consistent.antt =====
-- The invariant of the runtime's state (crates/gaterust-tunnel/src/runtime.rs), and how its parts
-- survive the helpers that the operations are made of.
use gate_rust.Common.{
  ℕ, ◌≤◌, ◌≡◌, refl, ◌∙◌, ◌≢◌, true, not, none, some, arith, ◌==◌, list_eq, option_eq, ℕ_eq,
  Option-cases, Bool-cases, inl, inr, is_some_and,
}
use gate_rust.Common.Text.{Text}
use gate_rust.HashMap
use gate_rust.HashMap.{HashMap, kept}
use gate_rust.Tunnel.Runtime.{
  RuntimeState, SessionEntry, TunnelOwner, claim_available, is_available, retain_valid_owners,
  release_session, is_valid_owner, max_online_clients,
}
use gate_rust.Tunnel.Runtime.Claims.{
  Holds, is_valid_owner-Holds, SameTables, SameTables-claim_available, owner_of,
  owner_of-claim_available, eligible_iff,
}
use gate_rust.Tunnel.Runtime.Tokens.{
  TokensFresh, tokens_transfer, claim_available-TokensFresh, retain_valid_owners-TokensFresh,
  release_session-TokensFresh,
}

module _ {C D : Type 0} where
  -- What holds of the sessions and the tokens, whoever owns the tunnels.
  pub record IsRegular (st : RuntimeState C D) : Type 0 where
    -- no two sessions have the same device
    pub devices :
        (i j : ℕ) (s t : SessionEntry C D)
        → HashMap.get i st.sessions ≡ some s
        → HashMap.get j st.sessions ≡ some t
        → s.device_id ≡ t.device_id
        → i ≡ j
    -- each session's key is the current key of its group
    pub authorised :
        (i : ℕ) (s : SessionEntry C D)
        → HashMap.get i st.sessions ≡ some s
        → HashMap.get s.group st.credentials ≡ some s.credential_digest
    pub bounded : HashMap.size st.sessions ≤ max_online_clients
    pub tokens : TokensFresh st

  -- Each tunnel's owner is online, in the tunnel's group, and has declared the tunnel.
  pub record IsConsistent (st : RuntimeState C D) : Type 0 where
    pub regular : IsRegular st
    pub open regular use *
    pub owned : (name : Text) (id : ℕ) → owner_of st name ≡ some id → Holds st name id

  owner_of-retain_valid_owners :
      (st : RuntimeState C D) (name : Text) (id : ℕ)
      → owner_of (retain_valid_owners st) name ≡ some id
      → (o : TunnelOwner) × (is_valid_owner st name o ≡ true) × (o.session_id ≡ id)
  unfolding owner_of retain_valid_owners
  owner_of-retain_valid_owners st name id h = elim (Option-cases (HashMap.get name st.owners)) [
    | inl e ↦ absurd (ground (arith, HashMap.get-retain (is_valid_owner st) name st.owners))
    | inr (o, e) ↦ (
      o,
      ground (arith, HashMap.get-retain (is_valid_owner st) name st.owners),
      ground (arith, HashMap.get-retain (is_valid_owner st) name st.owners),
    )
  ]

  retain_valid_owners-IsRegular :
      (st : RuntimeState C D) → IsRegular st → IsRegular (retain_valid_owners st)
  unfolding retain_valid_owners
  retain_valid_owners-IsRegular st r = record {
    devices = r.devices;
    authorised = r.authorised;
    bounded = r.bounded;
    tokens = retain_valid_owners-TokensFresh st r.tokens;
  }

  Holds-retain_valid_owners :
      (st : RuntimeState C D) (name : Text) (id : ℕ)
      → Holds st name id
      → Holds (retain_valid_owners st) name id
  unfolding retain_valid_owners
  Holds-retain_valid_owners st name id h = record {
    session = h.session;
    spec = h.spec;
    online = h.online;
    configured = h.configured;
    same_group = h.same_group;
    declared = h.declared;
  }

  -- Whatever was done to the sessions and tunnels, the check of the owners restores the invariant.
  pub retain_valid_owners-IsConsistent :
      (st : RuntimeState C D) → IsRegular st → IsConsistent (retain_valid_owners st)
  retain_valid_owners-IsConsistent st r = record {
    regular = retain_valid_owners-IsRegular st r;
    owned = λ name id h.
        let (o, valid, same) = owner_of-retain_valid_owners st name id h in
        Holds-retain_valid_owners st name id (rw (← same) (is_valid_owner-Holds st name o valid));
  }

  owner_of-release_session :
      (id j : ℕ) (st : RuntimeState C D) (name : Text)
      → owner_of (release_session id st) name ≡ some j
      → (owner_of st name ≡ some j) × (j ≢ id)
  unfolding owner_of release_session
  owner_of-release_session id j st name h = elim (Option-cases (HashMap.get name st.owners)) [
    | inl e ↦ absurd (
        ground (arith, HashMap.get-retain (λ _ owner. not (owner.session_id == id)) name st.owners))
    | inr (o, e) ↦ (
      ground (arith, HashMap.get-retain (λ _ owner. not (owner.session_id == id)) name st.owners),
      ground (arith, HashMap.get-retain (λ _ owner. not (owner.session_id == id)) name st.owners),
    )
  ]

  get-remove_ne :
      (id j : ℕ) (m : HashMap ℕ (SessionEntry C D))
      → j ≢ id
      → HashMap.get j (HashMap.remove id m) ≡ HashMap.get j m
  get-remove_ne id j m h = ground (arith, HashMap.get-remove id j m)

  claim_available_offline :
      (id : ℕ) (st : RuntimeState C D)
      → HashMap.get id st.sessions ≡ none
      → (name : Text) (j : ℕ) → owner_of (claim_available id st) name ≡ some j
      → owner_of st name ≡ some j
  unfolding claim_available
  claim_available_offline id st e name j h = rw (e, claim_available) at h

  -- Taking a session out of the table.
  abbrev pub removed : ℕ → RuntimeState C D → RuntimeState C D
  removed id st = record st { sessions = HashMap.remove id st.sessions }

  pub sessions-removed :
      (id j : ℕ) (m : HashMap ℕ (SessionEntry C D)) (s : SessionEntry C D)
      → HashMap.get j (HashMap.remove id m) ≡ some s
      → HashMap.get j m ≡ some s
  sessions-removed id j m s h = ground (arith, HashMap.get-remove id j m)

  release_removed-IsRegular :
      (id : ℕ) (st : RuntimeState C D)
      → IsRegular st
      → IsRegular (release_session id (removed id st))
  unfolding release_session
  release_removed-IsRegular id st r = record {
    devices = λ i j s t h k.
        r.devices i j s t (sessions-removed id i st.sessions s h)
          (sessions-removed id j st.sessions t k);
    authorised = λ i s h. r.authorised i s (sessions-removed id i st.sessions s h);
    bounded = omega (arith, HashMap.size-remove-le id st.sessions);
    tokens =
        release_session-TokensFresh id (removed id st)
          (tokens_transfer st (removed id st) refl refl (λ name o h. h) r.tokens);
  }

  Holds-release_removed :
      (id j : ℕ) (st : RuntimeState C D) (name : Text)
      → j ≢ id
      → Holds st name j
      → Holds (release_session id (removed id st)) name j
  unfolding release_session
  Holds-release_removed id j st name n h = record {
    session = h.session;
    spec = h.spec;
    online = get-remove_ne id j st.sessions n ∙ h.online;
    configured = h.configured;
    same_group = h.same_group;
    declared = h.declared;
  }

  owner_of-removed :
      (id : ℕ) (st : RuntimeState C D) (name : Text)
      → owner_of (removed id st) name ≡ owner_of st name
  unfolding owner_of
  owner_of-removed id st name = refl

  -- After a session is taken out, releasing its tunnels restores the invariant.
  pub release_removed-IsConsistent :
      (id : ℕ) (st : RuntimeState C D)
      → IsConsistent st
      → IsConsistent (release_session id (removed id st))
  release_removed-IsConsistent id st c = record {
    regular = release_removed-IsRegular id st c.regular;
    owned = λ name j h.
        let (was, ne) = owner_of-release_session id j (removed id st) name h in
        Holds-release_removed id j st name ne
          (c.owned name j (rw (owner_of-removed id st name) at was));
  }

  claim_available-IsRegular :
      (id : ℕ) (st : RuntimeState C D) → IsRegular st → IsRegular (claim_available id st)
  claim_available-IsRegular id st r =
      let same = SameTables-claim_available id st in
      record {
        devices = rw same.sessions r.devices;
        authorised = rw (same.sessions, same.credentials) r.authorised;
        bounded = rw same.sessions r.bounded;
        tokens = claim_available-TokensFresh id st r.tokens;
      }

  Holds-SameTables :
      (a b : RuntimeState C D) (name : Text) (id : ℕ)
      → SameTables a b
      → Holds b name id
      → Holds a name id
  Holds-SameTables a b name id same h = record {
    session = h.session;
    spec = h.spec;
    online = rw same.sessions h.online;
    configured = rw same.tunnels h.configured;
    same_group = h.same_group;
    declared = h.declared;
  }

  is_available-Holds :
      (st : RuntimeState C D) (name : Text) (id : ℕ) (session : SessionEntry C D)
      → HashMap.get id st.sessions ≡ some session
      → is_some_and (is_available st session name) (HashMap.get name st.tunnels) ≡ true
      → Holds st name id
  unfolding is_available
  is_available-Holds st name id session online free =
      elim (Option-cases (HashMap.get name st.tunnels)) [
        | inl e ↦ absurd (ground arith)
        | inr (spec, e) ↦
            let (group, kind) = eligible_iff session name spec (ground arith) in
            record {
              session = session;
              spec = spec;
              online = online;
              configured = e;
              same_group = group;
              declared = kind;
            }
      ]

  pub claim_available-IsConsistent :
      (id : ℕ) (st : RuntimeState C D) → IsConsistent st → IsConsistent (claim_available id st)
  claim_available-IsConsistent id st c = record {
    regular = claim_available-IsRegular id st c.regular;
    owned = λ name j h.
        Holds-SameTables (claim_available id st) st name j (SameTables-claim_available id st)
          (claimed_Holds name j h);
  }
    where
      claimed_Holds :
          (name : Text) (j : ℕ) → owner_of (claim_available id st) name ≡ some j → Holds st name j
      claimed_Holds name j h = elim (Option-cases (HashMap.get id st.sessions)) [
        | inl offline ↦ c.owned name j (claim_available_offline id st offline name j h)
        | inr (session, online) ↦
            let free = is_some_and (is_available st session name) (HashMap.get name st.tunnels) in
            elim (Bool-cases free) [
              | inl claims ↦
                  let same : id ≡ j =
                    ground
                      (arith, owner_of-claim_available id name st {session = session} online) in
                  rw (← same) (is_available-Holds st name id session online claims)
              | inr keeps ↦
                  c.owned name j
                    (ground (arith, owner_of-claim_available id name st {session = session} online))
            ]
      ]
