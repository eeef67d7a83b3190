-- ===== src/Tunnel/Runtime/Ownership.antt =====
-- Who owns a tunnel after an operation of crates/gaterust-tunnel/src/runtime.rs, where
-- a session's declarations change.
use gate_rust.Common.{
  ℕ, ◌≡◌, refl, ◌≢◌, Bool, true, false, none, some, List, arith, ◌==◌, ==_iff, list_eq, option_eq,
  ℕ_eq, Option-cases, Bool-cases, inl, inr, if◌then◌else◌, ◌&&◌,
}
use gate_rust.Common.Text.{Text}
use gate_rust.HashMap
use gate_rust.HashMap.{HashMap, kept}
use gate_rust.Tunnel.Config.{TunnelKind, kind_eq}
use gate_rust.Tunnel.Runtime.{
  RuntimeState, SessionEntry, TunnelOwner, TunnelSpec, ServiceDeclaration, claim_available,
  is_available, retain_valid_owners, is_valid_owner, eligible, notify, service_map,
}
use gate_rust.Tunnel.Runtime.Operations.{update_services, reassign, notify_if}
use gate_rust.Tunnel.Runtime.Claims.{owner_of, owner_of-claim_available, is_valid_owner_of_Holds}
use gate_rust.Tunnel.Runtime.Consistent.{IsConsistent}
use gate_rust.Tunnel.Runtime.SessionChanges.{with_session}

module _ {C D : Type 0} where
  -- The session may own the tunnel: it is configured, in the session's group, and of the kind that
  -- the services declare for it.
  pub record MayOwn (st : RuntimeState C D) (group : Text) (services : HashMap Text TunnelKind)
      (name : Text) : Type 0 where
    pub spec : TunnelSpec
    pub configured : HashMap.get name st.tunnels ≡ some spec
    pub same_group : group ≡ spec.group
    pub declared : HashMap.get name services ≡ some spec.kind

  owner_of-retain_valid_owners :
      (st : RuntimeState C D) (name : Text)
      → owner_of (retain_valid_owners st) name ≡ (elim (HashMap.get name st.owners) [
        | none ↦ none
        | some o ↦ if is_valid_owner st name o then some o.session_id else none
      ])
  unfolding owner_of retain_valid_owners
  owner_of-retain_valid_owners st name =
      ground (arith, HashMap.get-retain (is_valid_owner st) name st.owners)

  -- A claim takes a tunnel that is free and eligible, and no other.
  pub owner_of-claim_spec :
      (id : ℕ) (name : Text) (st : RuntimeState C D) (session : SessionEntry C D)
      (spec : TunnelSpec)
      → HashMap.get id st.sessions ≡ some session
      → HashMap.get name st.tunnels ≡ some spec
      → owner_of (claim_available id st) name ≡ (elim (owner_of st name) [
        | none ↦ if eligible session name spec then some id else none
        | some j ↦ some j
      ])
  unfolding owner_of is_available
  owner_of-claim_spec id name st session spec online configured =
      ground (arith, owner_of-claim_available id name st {session = session} online, configured)

  online_in_retained :
      (st : RuntimeState C D) (i : ℕ) (s : SessionEntry C D)
      → HashMap.get i st.sessions ≡ some s
      → HashMap.get i (retain_valid_owners st).sessions ≡ some s
  unfolding retain_valid_owners
  online_in_retained st i s h = h

  configured_in_retained :
      (st : RuntimeState C D) (name : Text) (spec : TunnelSpec)
      → HashMap.get name st.tunnels ≡ some spec
      → HashMap.get name (retain_valid_owners st).tunnels ≡ some spec
  unfolding retain_valid_owners
  configured_in_retained st name spec h = h

  module _ (id : ℕ) (session : SessionEntry C D) (services : HashMap Text TunnelKind)
      (st : RuntimeState C D) (online : HashMap.get id st.sessions ≡ some session)
      (c : IsConsistent st) where
    abbrev updated : SessionEntry C D
    updated = record session { services = services }

    abbrev replaced : RuntimeState C D
    replaced = with_session id updated st

    -- Another session's tunnel stays with it.
    kept_by_other :
        (name : Text) (o : TunnelOwner)
        → HashMap.get name st.owners ≡ some o
        → o.session_id ≢ id
        → is_valid_owner replaced name o ≡ true
    unfolding owner_of
    kept_by_other name o e n =
        let h = c.owned name o.session_id (ground (arith, e)) in
        is_valid_owner_of_Holds replaced name o (record {
          session = h.session;
          spec = h.spec;
          online = ground (arith, HashMap.get-insert id o.session_id updated st.sessions, h.online);
          configured = h.configured;
          same_group = h.same_group;
          declared = h.declared;
        })

    valid_iff_eligible :
        (name : Text) (o : TunnelOwner) (spec : TunnelSpec)
        → HashMap.get name st.tunnels ≡ some spec
        → o.session_id ≡ id
        → is_valid_owner replaced name o ≡ eligible updated name spec
    unfolding is_valid_owner
    valid_iff_eligible name o spec e same =
        ground
          (arith, e, HashMap.get-insert id o.session_id updated st.sessions, ==_iff id o.session_id)

    -- Who owns the tunnel when the declarations have been replaced.
    owner_of-reassign :
        (name : Text) (spec : TunnelSpec)
        → HashMap.get name st.tunnels ≡ some spec
        → owner_of (reassign id session services st) name ≡ (elim (owner_of st name) [
          | none ↦ if eligible updated name spec then some id else none
          | some j ↦
              if j == id then (if eligible updated name spec then some id else none) else some j
        ])
    unfolding reassign owner_of
    owner_of-reassign name spec e =
        let st₂ = retain_valid_owners replaced in
        let claimed =
          owner_of-claim_spec id name st₂ updated spec
            (online_in_retained replaced id updated
              (ground (arith, HashMap.get-insert id id updated st.sessions)))
            (configured_in_retained replaced name spec e) in
        elim (Option-cases (HashMap.get name st.owners)) [
          | inl free ↦ ground (arith, claimed, owner_of-retain_valid_owners replaced name, free)
          | inr (o, owns) ↦ elim (Bool-cases (o.session_id == id)) [
            | inl mine ↦ ground (
              arith,
              claimed,
              owner_of-retain_valid_owners replaced name,
              owns,
              mine,
              valid_iff_eligible name o spec e ((==_iff o.session_id id).0 mine),
            )
            | inr other ↦ ground (
              arith,
              claimed,
              owner_of-retain_valid_owners replaced name,
              owns,
              other,
              kept_by_other name o owns (λ same. ground (arith, ==_iff o.session_id id)),
            )
          ]
        ]

  owner_of-notify_if :
      (changed : Bool) (st : RuntimeState C D) (name : Text)
      → owner_of (notify_if changed st) name ≡ owner_of st name
  unfolding notify_if notify owner_of
  owner_of-notify_if true st name = refl
  owner_of-notify_if false st name = refl

  owner_of-update_services :
      (id : ℕ) (session : SessionEntry C D) (declarations : List ServiceDeclaration)
      (st : RuntimeState C D) (name : Text)
      → HashMap.get id st.sessions ≡ some session
      → owner_of (update_services id declarations st).0 name
        ≡ owner_of (reassign id session (service_map declarations) st) name
  unfolding update_services
  owner_of-update_services id session declarations st name online =
      rw (online, update_services)
        (owner_of-notify_if _ (reassign id session (service_map declarations) st) name)

  -- When an online session replaces its declarations, a configured tunnel that another session owns
  -- stays with it. One that is free, or that the session owns, is the session's afterwards
  -- if the group and the newly declared kind are the tunnel's, and is free otherwise.
  pub update_services_owner :
      (id : ℕ) (session : SessionEntry C D) (declarations : List ServiceDeclaration)
      (st : RuntimeState C D) (name : Text) (spec : TunnelSpec)
      → IsConsistent st
      → HashMap.get id st.sessions ≡ some session
      → HashMap.get name st.tunnels ≡ some spec
      → owner_of (update_services id declarations st).0 name ≡ (
          let claims =
            session.group == spec.group
            && HashMap.get name (service_map declarations) == some spec.kind in
          let mine = if claims then some id else none in
          elim (owner_of st name) [ none ↦ mine | some j ↦ if j == id then mine else some j ])
  unfolding eligible
  update_services_owner id session declarations st name spec c online configured = ground (
    arith,
    owner_of-update_services id session declarations st name online,
    owner_of-reassign id session (service_map declarations) st online c name spec configured,
  )
