-- ===== src/Tunnel/Runtime/Preserved.antt =====
-- Every operation of crates/gaterust-tunnel/src/runtime.rs preserves the invariant.
use gate_rust.Common.{
  ℕ, ◌≡◌, refl, List, arith, list_eq, option_eq, ℕ_eq, Option-cases, Bool-cases, inl, inr, map,
}
use gate_rust.HashMap
use gate_rust.HashMap.{HashMap, kept}
use gate_rust.Tunnel.Config.{ServerTunnelConfig}
use gate_rust.Tunnel.Runtime.{
  RuntimeState, retain_valid_owners, release_session, notify, new_runtime,
}
use gate_rust.Tunnel.Runtime.Operations.{unregister, disconnect, apply_tunnels, spec_of}
use gate_rust.Tunnel.Runtime.Claims.{owner_of}
use gate_rust.Tunnel.Runtime.Tokens.{tokens_transfer}
use gate_rust.Tunnel.Runtime.Consistent.{
  IsConsistent, removed, retain_valid_owners-IsConsistent, release_removed-IsConsistent,
}

module _ {C D : Type 0} where
  -- The invariant reads the tables and the tokens only.
  pub transfer :
      (a b : RuntimeState C D)
      → a.credentials ≡ b.credentials
      → a.sessions ≡ b.sessions
      → a.tunnels ≡ b.tunnels
      → a.owners ≡ b.owners
      → a.next_token ≡ b.next_token
      → a.cancelled ≡ b.cancelled
      → IsConsistent a
      → IsConsistent b
  unfolding owner_of
  transfer a b credentials sessions tunnels owners next cancelled c = record {
    regular = record {
      devices = rw (← sessions) c.devices;
      authorised = rw (← sessions, ← credentials) c.authorised;
      bounded = rw (← sessions) c.bounded;
      tokens = tokens_transfer a b cancelled next (λ name o h. rw owners h) c.tokens;
    };
    owned = λ name id h.
        let held = c.owned name id (rw owners h) in
        record {
          session = held.session;
          spec = held.spec;
          online = rw (← sessions) held.online;
          configured = rw (← tunnels) held.configured;
          same_group = held.same_group;
          declared = held.declared;
        };
  }

  pub notify-IsConsistent : (st : RuntimeState C D) → IsConsistent st → IsConsistent (notify st)
  unfolding notify
  notify-IsConsistent st c = transfer st (notify st) refl refl refl refl refl refl c

  pub new_runtime-IsConsistent : IsConsistent (new_runtime {C = C} {D = D})
  unfolding new_runtime owner_of HashMap.size HashMap.empty HashMap.get
  new_runtime-IsConsistent = record {
    regular = record {
      devices = λ i j s t h k. cc;
      authorised = λ i s h. cc;
      bounded = omega arith;
      tokens = record {
        taken = λ name o h. absurd (ground arith);
        live = λ name o h. absurd (ground arith);
        unique = λ m n o p h k e. absurd (ground arith);
        past = λ t h. absurd (ground arith);
      };
    };
    owned = λ name id h. absurd (ground arith);
  }

  pub unregister-IsConsistent :
      (id : ℕ) (st : RuntimeState C D) → IsConsistent st → IsConsistent (unregister id st)
  unfolding unregister
  unregister-IsConsistent id st c = elim (Bool-cases (HashMap.contains_key id st.sessions)) [
    | inl online ↦
        rw (online, unregister)
          (notify-IsConsistent (release_session id (removed id st))
            (release_removed-IsConsistent id st c))
    | inr offline ↦ rw (offline, unregister) c
  ]

  pub disconnect-IsConsistent :
      (id : ℕ) (st : RuntimeState C D) → IsConsistent st → IsConsistent (disconnect id st).0
  unfolding disconnect
  disconnect-IsConsistent id st c = elim (Option-cases (HashMap.get id st.sessions)) [
    | inl offline ↦ rw (offline, disconnect) c
    | inr (session, online) ↦
        let st₁ = notify (release_session id (removed id st)) in
        let c₁ =
          notify-IsConsistent (release_session id (removed id st))
            (release_removed-IsConsistent id st c) in
        rw (online, disconnect)
          (transfer st₁ (record st₁ { closed = _ }) refl refl refl refl refl refl c₁)
  ]

  pub apply_tunnels-IsConsistent :
      (configs : List ServerTunnelConfig) (st : RuntimeState C D)
      → IsConsistent st
      → IsConsistent (apply_tunnels configs st)
  unfolding apply_tunnels
  apply_tunnels-IsConsistent configs st c =
      let table = HashMap.collect (map (λ (t : ServerTunnelConfig). (t.name, spec_of t)) configs) in
      let st₁ = record st { tunnels = table } in
      notify-IsConsistent (retain_valid_owners st₁) (
        retain_valid_owners-IsConsistent st₁ (record {
          devices = c.devices;
          authorised = c.authorised;
          bounded = c.bounded;
          tokens = tokens_transfer st st₁ refl refl (λ name o h. h) c.tokens;
        }))
