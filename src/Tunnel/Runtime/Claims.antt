-- ===== src/Tunnel/Runtime/Claims.antt =====
-- What the helpers of the runtime (crates/gaterust-tunnel/src/runtime.rs) do to the table of
-- owners, and that they leave the other tables alone.
use gate_rust.Common.{
  ℕ, ◌≡◌, refl, true, Option, none, some, List, [], ◌∷◌, arith, if◌then◌else◌, is_some_and, ==_iff,
  list_eq, option_eq, ℕ_eq, contains, Option-cases, inl, inr,
}
use gate_rust.Common.Text.{Text}
use gate_rust.HashMap
use gate_rust.HashMap.{HashMap}
use gate_rust.Tunnel.Config.{kind_eq}
use gate_rust.Tunnel.Runtime.{
  RuntimeState, SessionEntry, TunnelOwner, TunnelSpec, eligible, is_valid_owner, is_available,
  claim_one, claim_all, claim_available,
}

module _ {C D : Type 0} where
  -- The owner of a tunnel is online, in the tunnel's group, and has declared the tunnel's kind.
  pub record Holds (st : RuntimeState C D) (name : Text) (id : ℕ) : Type 0 where
    pub session : SessionEntry C D
    pub spec : TunnelSpec
    pub online : HashMap.get id st.sessions ≡ some session
    pub configured : HashMap.get name st.tunnels ≡ some spec
    pub same_group : session.group ≡ spec.group
    pub declared : HashMap.get name session.services ≡ some spec.kind

  pub eligible_iff :
      (session : SessionEntry C D) (name : Text) (spec : TunnelSpec)
      → eligible session name spec ≡ true
      → (session.group ≡ spec.group) × (HashMap.get name session.services ≡ some spec.kind)
  unfolding eligible
  eligible_iff session name spec h = ground (
    arith,
    ==_iff session.group spec.group,
    ==_iff (HashMap.get name session.services) (some spec.kind),
  )

  pub eligible_of :
      (session : SessionEntry C D) (name : Text) (spec : TunnelSpec)
      → session.group ≡ spec.group
      → HashMap.get name session.services ≡ some spec.kind
      → eligible session name spec ≡ true
  unfolding eligible
  eligible_of session name spec h k = ground (
    arith,
    ==_iff session.group spec.group,
    ==_iff (HashMap.get name session.services) (some spec.kind),
  )

  pub is_valid_owner-Holds :
      (st : RuntimeState C D) (name : Text) (o : TunnelOwner)
      → is_valid_owner st name o ≡ true
      → Holds st name o.session_id
  unfolding is_valid_owner
  is_valid_owner-Holds st name o h = elim (Option-cases (HashMap.get name st.tunnels)) [
    | inl missing ↦ absurd (ground arith)
    | inr (spec, configured) ↦ elim (Option-cases (HashMap.get o.session_id st.sessions)) [
      | inl offline ↦ absurd (ground arith)
      | inr (session, online) ↦
          let (group, kind) = eligible_iff session name spec (ground arith) in
          record {
            session = session;
            spec = spec;
            online = online;
            configured = configured;
            same_group = group;
            declared = kind;
          }
    ]
  ]

  pub is_valid_owner_of_Holds :
      (st : RuntimeState C D) (name : Text) (o : TunnelOwner)
      → Holds st name o.session_id
      → is_valid_owner st name o ≡ true
  unfolding is_valid_owner
  is_valid_owner_of_Holds st name o h =
      ground (arith, eligible_of h.session name h.spec h.same_group h.declared)

  -- Tables that `claim_all` does not write.
  pub record SameTables (a b : RuntimeState C D) : Type 0 where
    pub credentials : a.credentials ≡ b.credentials
    pub sessions : a.sessions ≡ b.sessions
    pub tunnels : a.tunnels ≡ b.tunnels

  pub SameTables-claim_all :
      (id : ℕ) (names : List Text) (st : RuntimeState C D) → SameTables (claim_all id names st) st
  unfolding claim_all
  SameTables-claim_all id [] st = record { credentials = refl; sessions = refl; tunnels = refl }
  SameTables-claim_all id (name ∷ names) st =
      let same = SameTables-claim_all id names (claim_one id name st) in
      record { credentials = same.credentials; sessions = same.sessions; tunnels = same.tunnels }

  pub SameTables-claim_available :
      (id : ℕ) (st : RuntimeState C D) → SameTables (claim_available id st) st
  unfolding claim_available
  SameTables-claim_available id st = elim (Option-cases (HashMap.get id st.sessions)) [
    | inl e ↦
        rw (e, claim_available) (record { credentials = refl; sessions = refl; tunnels = refl })
    | inr (session, e) ↦
        rw (e, claim_available)
          (SameTables-claim_all id (HashMap.keys_of (is_available st session) st.tunnels) st)
  ]

  -- The session that owns a tunnel.
  unfoldable pub owner_of : RuntimeState C D → Text → Option ℕ
  unfolding HashMap.get
  owner_of st name = elim (HashMap.get name st.owners) [ none ↦ none | some o ↦ some o.session_id ]

  pub owner_of-claim_all :
      (id : ℕ) (name : Text) (names : List Text) (st : RuntimeState C D)
      → owner_of (claim_all id names st) name
        ≡ (if contains names name then some id else owner_of st name)
  unfolding claim_all owner_of
  owner_of-claim_all id name [] st = refl
  owner_of-claim_all id name (n ∷ names) st = ground (
    arith,
    owner_of-claim_all id name names (claim_one id n st),
    ==_iff n name,
    HashMap.get-insert n name (record { session_id = id; shutdown = st.next_token }) st.owners,
  )

  pub owner_of-claim_available :
      (id : ℕ) (name : Text) (st : RuntimeState C D) {session : SessionEntry C D}
      → HashMap.get id st.sessions ≡ some session
      → owner_of (claim_available id st) name ≡ (
          if is_some_and (is_available st session name) (HashMap.get name st.tunnels)
          then some id
          else owner_of st name)
  unfolding claim_available
  owner_of-claim_available id name st {session} online = ground (
    arith,
    owner_of-claim_all id name (HashMap.keys_of (is_available st session) st.tunnels) st,
    HashMap.contains-keys_of (is_available st session) name st.tunnels,
  )
