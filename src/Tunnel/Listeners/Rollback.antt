-- ===== src/Tunnel/Listeners/Rollback.antt =====
-- What `ListenerManager::apply` of crates/gaterust-tunnel/src/server/mod.rs goes back to, and what it
-- leaves in every case.
use gate_rust.Common.{
  ◌≡◌, refl, sym, ap, ◌∙◌, ◌⊎◌, inl, inr, Bool, true, false, Option, none, some, List, [], ◌∷◌, map,
  arith, ℕ_eq, list_eq, option_eq, contains, Bool-cases, Option-cases, Memᴰ, head, tail,
}
use gate_rust.Common.Text.{Text}
use gate_rust.Common.Result.{Result, ok, err, Result-cases}
use gate_rust.Common.Distinct.{AllDifferent}
use gate_rust.HashMap
use gate_rust.HashMap.{HashMap, get-Member, Member-get, get-empty}
use gate_rust.Tunnel.Config.{ServerTunnelConfig}
use gate_rust.Tunnel.Runtime.{RuntimeState}
use gate_rust.Tunnel.Runtime.Operations.{apply_tunnels}
use gate_rust.Tunnel.Listeners.{
  ListenerHandle, ListenerManager, ListenerError, bind_failed, rollback_failed, new_manager,
  desired_of, configs_of, stop_all, stale_names, start_all, update_configs, finish, apply_once,
  rolled_back, reap_retired, settle, apply,
}
use gate_rust.Tunnel.Listeners.Served.{Tended}
use gate_rust.Tunnel.Listeners.Attempts.{names_in, start_all_present}
use gate_rust.Tunnel.Listeners.Wanted.{
  Unique, different-Unique, last_named, last_present, contains-named, get-desired_of,
}
use gate_rust.Tunnel.Listeners.Applied.{Serves, Held-Tended, started-Held, updated-Serves}

abbrev AllTended : ListenerManager → Type 0
AllTended m = (n : Text) → Tended n (HashMap.get n m.active)

finish_failed :
    (configs : List ServerTunnelConfig)
    (outcome : Result ListenerError (Unit {0}) × ListenerManager) (e : ListenerError)
    → outcome.0 ≡ err e
    → finish configs outcome ≡ (err e, outcome.1)
unfolding finish
finish_failed configs (err f, m) e h = ap (λ r. (r, m)) h
finish_failed configs (ok done, m) e h = absurd (ground arith)

finish_done :
    (configs : List ServerTunnelConfig)
    (outcome : Result ListenerError (Unit {0}) × ListenerManager)
    → outcome.0 ≡ ok tt
    → ((finish configs outcome).0 ≡ ok tt)
      × ((finish configs outcome).1.active ≡ (update_configs configs outcome.1).active)
unfolding finish
finish_done configs (err f, m) h = absurd (ground arith)
finish_done configs (ok done, m) h = (refl, refl)

-- An attempt's result: where it succeeds, every name is served; in every case the handles are tended.
abbrev AttemptLeaves :
    List ServerTunnelConfig → Text → Result ListenerError (Unit {0}) × ListenerManager → Type 0
AttemptLeaves configs n (err e, after) = Tended n (HashMap.get n after.active)
AttemptLeaves configs n (ok done, after) =
    Serves (HashMap.get n (desired_of configs)) (HashMap.get n after.active)
    × Tended n (HashMap.get n after.active)

leaves_done :
    (configs : List ServerTunnelConfig) (n : Text)
    (outcome : Result ListenerError (Unit {0}) × ListenerManager)
    → outcome.0 ≡ ok tt
    → Serves (HashMap.get n (desired_of configs)) (HashMap.get n outcome.1.active)
      × Tended n (HashMap.get n outcome.1.active)
    → AttemptLeaves configs n outcome
leaves_done configs n (err e, after) h both = absurd (ground arith)
leaves_done configs n (ok done, after) h both = both

listed_or_not :
    (starts : ServerTunnelConfig → Bool) (configs : List ServerTunnelConfig) (m : ListenerManager)
    (n : Text)
    → (start_all starts configs m).0 ≡ ok tt
    → (contains (names_in configs) n ≡ false)
      ⊎ (HashMap.contains_key n (start_all starts configs m).1.active ≡ true)
listed_or_not starts configs m n passed = elim (Bool-cases (contains (names_in configs) n)) [
  | inr unlisted ↦ inl unlisted
  | inl listed ↦ inr (start_all_present starts configs m n passed listed)
]

apply_once_leaves :
    (starts : ServerTunnelConfig → Bool) (configs : List ServerTunnelConfig) (m : ListenerManager)
    (n : Text)
    → Unique configs
    → Tended n (HashMap.get n m.active)
    → AttemptLeaves configs n (apply_once starts configs m)
unfolding apply_once
apply_once_leaves starts configs m n unique tended =
    let stopped = stop_all (stale_names (desired_of configs) m) m in
    let started = start_all starts configs stopped in
    let held = started-Held starts configs m n unique tended in
    elim (Result-cases started.0) [
      | inr (e, failed) ↦
          rw (apply_once, finish_failed configs started e failed)
            (Held-Tended (HashMap.get n (desired_of configs)) n (HashMap.get n started.1.active)
              held)
      | inl (done, passed) ↦
          let (ok_again, active) = finish_done configs started passed in
          let listed = listed_or_not starts configs stopped n passed in
          leaves_done configs n (finish configs started) ok_again
            (rw active (updated-Serves configs started.1 n unique held listed))
    ]

abbrev pub config_of : Option ListenerHandle → Option ServerTunnelConfig
config_of none = none
config_of (some handle) = some handle.config

member_entry :
    (a : ServerTunnelConfig) (entries : List (Text × ListenerHandle))
    → Memᴰ a (map (λ (e : Text × ListenerHandle). e.1.config) entries)
    → (k : Text) × (handle : ListenerHandle) × Memᴰ (k, handle) entries × (handle.config ≡ a)
member_entry a [] member = elim member [ ]
member_entry a ((k, handle) ∷ entries) (head same) = (k, handle, head refl, sym same)
member_entry a (e ∷ entries) (tail member) =
    let (k, handle, there, same) = member_entry a entries member in (k, handle, tail there, same)

entry_member :
    (k : Text) (handle : ListenerHandle) (entries : List (Text × ListenerHandle))
    → Memᴰ (k, handle) entries
    → Memᴰ handle.config (map (λ (e : Text × ListenerHandle). e.1.config) entries)
entry_member k handle [] member = elim member [ ]
entry_member k handle (e ∷ entries) (head same) =
    head (ap (λ (x : Text × ListenerHandle). x.1.config) same)
entry_member k handle (e ∷ entries) (tail member) = tail (entry_member k handle entries member)

-- A configuration of the list is its name's.
config_found :
    (m : ListenerManager) (a : ServerTunnelConfig)
    → AllTended m
    → Memᴰ a (configs_of m)
    → (handle : ListenerHandle) × (HashMap.get a.name m.active ≡ some handle) × (handle.config ≡ a)
unfolding configs_of
config_found m a tended member =
    let (k, handle, entry, same) = member_entry a m.active.entries member in
    let found = get-Member k handle m.active entry in
    let there : Tended k (HashMap.get k m.active) = tended k in
    let (_, named) = rw found at there in
    let key : k ≡ a.name = sym named ∙ ap (λ (c : ServerTunnelConfig). c.name) same in
    (handle, rw (← key) found, same)

configs_of-Unique : (m : ListenerManager) → AllTended m → Unique (configs_of m)
configs_of-Unique m tended a b ma mb same =
    let (h, found, ha) = config_found m a tended ma in
    let (k, again, kb) = config_found m b tended mb in
    let equal : h ≡ k = ground arith in sym ha ∙ ap (λ (x : ListenerHandle). x.config) equal ∙ kb

-- What the running listeners want for a name is what its listener has.
previous_wanted :
    (m : ListenerManager) (n : Text)
    → AllTended m
    → HashMap.get n (desired_of (configs_of m)) ≡ config_of (HashMap.get n m.active)
unfolding configs_of
previous_wanted m n tended = elim (Option-cases (HashMap.get n m.active)) [
  | inl absent ↦ elim (Option-cases (HashMap.get n (desired_of (configs_of m)))) [
    | inl unwanted ↦ rw absent unwanted
    | inr (c, wanted) ↦
        let (member, named) =
          last_named n (configs_of m) c (sym (get-desired_of n (configs_of m)) ∙ wanted) in
        let (h, found, same) = config_found m c tended member in
        let here : HashMap.get n m.active ≡ some h = rw named at found in absurd (ground arith)
  ]
  | inr (handle, found) ↦
      let member = entry_member n handle m.active.entries (Member-get n handle m.active found) in
      let there : Tended n (HashMap.get n m.active) = tended n in
      let (_, named) = rw found at there in
      let (c, last) =
        last_present n (configs_of m)
          (contains-named n (configs_of m) handle.config member named) in
      let (listed, called) = last_named n (configs_of m) c last in
      let same = configs_of-Unique m tended c handle.config listed member (called ∙ sym named) in
      rw found (get-desired_of n (configs_of m) ∙ last ∙ ap some same)
]

module _ {C D : Type 0} where
  -- What a call of `apply` has done to a name and to the runtime.
  abbrev pub IsApplied :
      List ServerTunnelConfig
      → Text
      → ListenerManager
      → RuntimeState C D
      → Result ListenerError (Unit {0}) × (ListenerManager × RuntimeState C D)
      → Type 0
  IsApplied configs n before st (ok done, (after, now)) =
      Serves (HashMap.get n (desired_of configs)) (HashMap.get n after.active)
      × (now ≡ apply_tunnels configs st)
  IsApplied configs n before st (err (bind_failed name), (after, now)) =
      Serves (config_of (HashMap.get n before.active)) (HashMap.get n after.active) × (now ≡ st)
  IsApplied configs n before st (err (rollback_failed name), (after, now)) = now ≡ st

  -- The rollback's part of it.
  rolled_back-IsApplied :
      (configs : List ServerTunnelConfig) (n : Text) (before : ListenerManager)
      (st : RuntimeState C D) (e : ListenerError)
      (outcome : Result ListenerError (Unit {0}) × ListenerManager)
      → HashMap.get n (desired_of (configs_of before)) ≡ config_of (HashMap.get n before.active)
      → AttemptLeaves (configs_of before) n outcome
      → IsApplied configs n before st ((rolled_back e outcome).0, ((rolled_back e outcome).1, st))
        × Tended n (HashMap.get n (rolled_back e outcome).1.active)
  rolled_back-IsApplied configs n before st (bind_failed name) (err f, m) wanted h = (refl, h)
  rolled_back-IsApplied configs n before st (rollback_failed name) (err f, m) wanted h = (refl, h)
  rolled_back-IsApplied configs n before st (bind_failed name) (ok done, m) wanted (serves, h) =
      ((rw wanted at serves, refl), h)
  rolled_back-IsApplied configs n before st (rollback_failed name) (ok done, m) wanted (serves, h) =
      (refl, h)

  settle-IsApplied :
      (restarts : ServerTunnelConfig → Bool) (configs : List ServerTunnelConfig) (n : Text)
      (before : ListenerManager) (st : RuntimeState C D)
      (outcome : Result ListenerError (Unit {0}) × ListenerManager)
      → AllTended before
      → AttemptLeaves configs n outcome
      → IsApplied configs n before st (settle restarts configs before st outcome)
        × Tended n (HashMap.get n (settle restarts configs before st outcome).1.0.active)
  unfolding settle
  settle-IsApplied restarts configs n before st (ok done, m) tended (serves, h) =
      ((serves, refl), h)
  settle-IsApplied restarts configs n before st (err e, m) tended h =
      let previous = configs_of before in
      let again = apply_once restarts previous (record m { limiters = before.limiters }) in
      rolled_back-IsApplied configs n before st e again (previous_wanted before n tended) (
        apply_once_leaves restarts previous (record m { limiters = before.limiters }) n
          (configs_of-Unique before tended) h)

  apply-both :
      (finished starts restarts : ServerTunnelConfig → Bool) (configs : List ServerTunnelConfig)
      (n : Text) (m : ListenerManager) (st : RuntimeState C D)
      → AllTended m
      → Unique configs
      → IsApplied configs n m st (apply finished starts restarts configs m st)
        × Tended n (HashMap.get n (apply finished starts restarts configs m st).1.0.active)
  unfolding apply reap_retired
  apply-both finished starts restarts configs n m st tended unique =
      let before = reap_retired finished m in
      settle-IsApplied restarts configs n before st (apply_once starts configs before) tended
        (apply_once_leaves starts configs before n unique (tended n))

-- The managers that calls of `apply` lead to, whatever starts and whatever fails.
pub data Reach (C D : Type 0) : ListenerManager → Type 0 where
  fresh : Reach C D new_manager
  applied :
      (m : ListenerManager) (st : RuntimeState C D)
      (finished starts restarts : ServerTunnelConfig → Bool) (configs : List ServerTunnelConfig)
      → Reach C D m
      → AllDifferent (names_in configs)
      → Reach C D (apply finished starts restarts configs m st).1.0

module _ {C D : Type 0} where
  Reach-AllTended : (m : ListenerManager) → Reach C D m → AllTended m
  unfolding new_manager
  Reach-AllTended _ fresh n = rw (get-empty n) tt
  Reach-AllTended _ (applied m st finished starts restarts configs r different) n =
      (apply-both finished starts restarts configs n m st (Reach-AllTended m r)
        (different-Unique configs different)).1

  -- After any calls of apply, whatever listeners have failed to start, of a call with configurations of
  -- different names and of each name: where it succeeds, the name has a listener exactly if it is
  -- configured, with that configuration and a task of its kind, address and limits, and the runtime
  -- has the configurations; where a listener does not start and the rollback succeeds, the same holds
  -- with the configurations that ran before; and in each failure the runtime is the same.
  pub apply-IsApplied :
      (m : ListenerManager) (st : RuntimeState C D) (n : Text)
      (finished starts restarts : ServerTunnelConfig → Bool) (configs : List ServerTunnelConfig)
      → Reach C D m
      → AllDifferent (names_in configs)
      → IsApplied configs n m st (apply finished starts restarts configs m st)
  apply-IsApplied m st n finished starts restarts configs r different =
      (apply-both finished starts restarts configs n m st (Reach-AllTended m r)
        (different-Unique configs different)).0
