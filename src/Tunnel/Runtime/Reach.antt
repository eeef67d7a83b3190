-- ===== src/Tunnel/Runtime/Reach.antt =====
-- The runtime under the server (crates/gaterust-tunnel/src/server/mod.rs, `accept_connections` and
-- `authenticate`): connections are accepted and take an id from the counter, authenticate in any
-- order, and the operations of crates/gaterust-tunnel/src/runtime.rs interleave freely.
use gate_rust.Common.{
  ℕ, ◌+◌, ◌^◌, ◌<◌, ◌≤◌, ◌≡◌, refl, ◌≢◌, true, not, List, [], ◌∷◌, arith, ◌==◌, ==_iff, EqTest,
  list_eq, option_eq, ℕ_eq, contains, filter, Bool-cases, inl, inr,
}
use gate_rust.Common.Text.{Text}
use gate_rust.Common.Net.{SocketAddr}
use gate_rust.HashMap
use gate_rust.Tunnel.Config.{ServerTunnelConfig}
use gate_rust.Tunnel.Runtime.{RuntimeState, ServiceDeclaration, new_runtime}
use gate_rust.Tunnel.Runtime.Operations.{
  register, update_services, unregister, disconnect, disconnect_tunnel, apply_tunnels,
  apply_credentials,
}
use gate_rust.Tunnel.Runtime.Consistent.{IsConsistent}
use gate_rust.Tunnel.Runtime.Preserved.{
  new_runtime-IsConsistent, unregister-IsConsistent, disconnect-IsConsistent,
  apply_tunnels-IsConsistent,
}
use gate_rust.Tunnel.Runtime.SessionChanges.{
  register-IsConsistent, update_services-IsConsistent, disconnect_tunnel-IsConsistent,
}
use gate_rust.Tunnel.Runtime.Credentials.{apply_credentials-IsConsistent}
use gate_rust.Tunnel.Runtime.Offline.{
  Offline, unregister-Offline, disconnect-Offline, disconnect_tunnel-Offline, apply_tunnels-Offline,
  update_services-Offline, apply_credentials-Offline, register-Offline,
}

-- The runtime, the counter of `accept_connections`, and the ids of the connections that are still
-- authenticating.
pub record Serving (C D : Type 0) : Type 0 where
  pub runtime : RuntimeState C D
  pub next_id : ℕ
  pub pending : List ℕ

abbrev pub without : ℕ → List ℕ → List ℕ
without id = filter (λ j. not (j == id))

contains-without :
    (id i : ℕ) (l : List ℕ) → contains (without id l) i ≡ true → (contains l i ≡ true) × (i ≢ id)
contains-without id i [] h = absurd (ground arith)
contains-without id i (j ∷ l) h = ground (arith, contains-without id i l, ==_iff j i, ==_iff j id)

-- `AtomicU64::new(1)`
abbrev pub start : {C D : Type 0} → Serving C D
start = record { runtime = new_runtime; next_id = 1; pending = [] }

module _ {C D : Type 0} ⦃q : EqTest D⦄ (remote_address : C → SocketAddr) (digest : Text → D) where
  pub data Step : Serving C D → Serving C D → Type 0 where
    -- The counter is 64 bits wide; the step is possible while it has not wrapped.
    accept :
        (s : Serving C D)
        → s.next_id + 1 < 2 ^ 64
        → Step s (record s { next_id = s.next_id + 1; pending = s.next_id ∷ s.pending })
    authenticate :
        (s : Serving C D) (now id : ℕ) (device_id group : Text) (key_digest : D) (connection : C)
        (services : List ServiceDeclaration)
        → contains s.pending id ≡ true
        → Step s (record s {
          runtime =
              (register remote_address now id device_id group key_digest connection services
                s.runtime).0;
          pending = without id s.pending;
        })
    update :
        (s : Serving C D) (id : ℕ) (services : List ServiceDeclaration)
        → Step s (record s { runtime = (update_services id services s.runtime).0 })
    leave : (s : Serving C D) (id : ℕ) → Step s (record s { runtime = unregister id s.runtime })
    administrator :
        (s : Serving C D) (id : ℕ) → Step s (record s { runtime = (disconnect id s.runtime).0 })
    administrator_tunnel :
        (s : Serving C D) (id : ℕ) (tunnel : Text)
        → Step s (record s { runtime = (disconnect_tunnel id tunnel s.runtime).0 })
    reload_tunnels :
        (s : Serving C D) (configs : List ServerTunnelConfig)
        → Step s (record s { runtime = apply_tunnels configs s.runtime })
    reload_credentials :
        (s : Serving C D) (credentials : List (Text × Text))
        → Step s (record s { runtime = apply_credentials digest credentials s.runtime })

  pub data Reach : Serving C D → Type 0 where
    here : Reach start
    next : {s t : Serving C D} → Reach s → Step s t → Reach t

  -- The ids that are still to be used are new.
  record IsServing (s : Serving C D) : Type 0 where
    consistent : IsConsistent s.runtime
    waiting : (i : ℕ) → contains s.pending i ≡ true → Offline i s.runtime × (i < s.next_id)
    future : (i : ℕ) → s.next_id ≤ i → Offline i s.runtime

  -- An operation that preserves the invariant and brings no session online.
  keep :
      (s : Serving C D) (r : RuntimeState C D)
      → IsConsistent r
      → ((i : ℕ) → Offline i s.runtime → Offline i r)
      → IsServing s
      → IsServing (record s { runtime = r })
  keep s r c stays v = record {
    consistent = c;
    waiting = λ i h. (stays i (v.waiting i h).0, (v.waiting i h).1);
    future = λ i h. stays i (v.future i h);
  }

  Step-IsServing : {s t : Serving C D} → Step s t → IsServing s → IsServing t
  Step-IsServing (accept s h) v = record {
    consistent = v.consistent;
    waiting = λ i p. accepted i p;
    future = λ i p. v.future i (omega arith);
  }
    where
      accepted :
          (i : ℕ)
          → contains (s.next_id ∷ s.pending) i ≡ true
          → Offline i s.runtime × (i < s.next_id + 1)
      accepted i p = elim (Bool-cases (s.next_id == i)) [
        | inl same ↦
            let e : s.next_id ≡ i = (==_iff s.next_id i).0 same in
            (v.future i (omega arith), omega arith)
        | inr other ↦ let (off, below) = v.waiting i (ground arith) in (off, omega arith)
      ]
  Step-IsServing (authenticate s now id device_id group key_digest connection services p) v =
      let (off, below) = v.waiting id p in
      let stays = λ (i : ℕ) (n : i ≢ id).
        register-Offline remote_address now id i device_id group key_digest connection services
          s.runtime n in
      record {
        consistent =
            register-IsConsistent remote_address now id device_id group key_digest connection
              services s.runtime off v.consistent;
        waiting = λ i h.
            let (still, ne) = contains-without id i s.pending h in
            (stays i ne (v.waiting i still).0, (v.waiting i still).1);
        future = λ i h. stays i (λ e. omega arith) (v.future i h);
      }
  Step-IsServing (update s id services) v =
      keep s (update_services id services s.runtime).0
        (update_services-IsConsistent id services s.runtime v.consistent)
        (λ i. update_services-Offline id i services s.runtime) v
  Step-IsServing (leave s id) v =
      keep s (unregister id s.runtime) (unregister-IsConsistent id s.runtime v.consistent)
        (λ i. unregister-Offline id i s.runtime) v
  Step-IsServing (administrator s id) v =
      keep s (disconnect id s.runtime).0 (disconnect-IsConsistent id s.runtime v.consistent)
        (λ i. disconnect-Offline id i s.runtime) v
  Step-IsServing (administrator_tunnel s id tunnel) v =
      keep s (disconnect_tunnel id tunnel s.runtime).0
        (disconnect_tunnel-IsConsistent id tunnel s.runtime v.consistent)
        (λ i. disconnect_tunnel-Offline id i tunnel s.runtime) v
  Step-IsServing (reload_tunnels s configs) v =
      keep s (apply_tunnels configs s.runtime)
        (apply_tunnels-IsConsistent configs s.runtime v.consistent)
        (λ i. apply_tunnels-Offline configs i s.runtime) v
  Step-IsServing (reload_credentials s credentials) v =
      keep s (apply_credentials digest credentials s.runtime)
        (apply_credentials-IsConsistent digest credentials s.runtime v.consistent)
        (λ i. apply_credentials-Offline digest credentials i s.runtime) v

  start-IsServing : IsServing (start {C = C} {D = D})
  unfolding new_runtime HashMap.get
  start-IsServing = record {
    consistent = new_runtime-IsConsistent;
    waiting = λ i h. absurd (ground arith);
    future = λ i h. refl;
  }

  Reach-IsServing : {s : Serving C D} → Reach s → IsServing s
  Reach-IsServing here = start-IsServing
  Reach-IsServing (next r st) = Step-IsServing st (Reach-IsServing r)

  -- In every state that the server can reach: a tunnel's owner is online, in the tunnel's group and
  -- has declared the tunnel with its kind; no two sessions have one device id; each session's key
  -- is the current key of its group; at most 128 sessions are online; and the owners' shutdown
  -- tokens are distinct and not cancelled.
  pub Reach-IsConsistent : {s : Serving C D} → Reach s → IsConsistent s.runtime
  Reach-IsConsistent r = (Reach-IsServing r).consistent
