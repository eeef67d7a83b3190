-- ===== src/Tunnel/Listeners/Applied.antt =====
-- What `ListenerManager::apply` of crates/gaterust-tunnel/src/server/mod.rs leaves running.
use gate_rust.Common.{
  ◌≡◌, sym, ◌∙◌, ◌⊎◌, inl, inr, Bool, true, false, Option, none, some, List, arith, ℕ_eq, list_eq,
  option_eq, contains, Option-cases,
}
use gate_rust.Common.Text.{Text}
use gate_rust.HashMap
use gate_rust.HashMap.{HashMap, last_for, get-collect, get-Member, Member-get, get-empty}
use gate_rust.Tunnel.Config.{ServerTunnelConfig}
use gate_rust.Tunnel.Listeners.{
  ListenerHandle, ListenerManager, same_listener, desired_of, stop_all, stale_names, start_all,
  update_configs,
}
use gate_rust.Tunnel.Listeners.Served.{Held, Tended, Held-left_after, get-stale_stopped}
use gate_rust.Tunnel.Listeners.Attempts.{
  names_in, start_all-Held, update_configs_absent, update_configs_present,
}
use gate_rust.Tunnel.Listeners.Wanted.{
  Unique, last_named, contains-named, get-desired_of, Agree-all,
}

-- A name that is not wanted has no listener; one that is wanted has one, with the wanted configuration,
-- and a task whose kind, address and limits are the wanted ones.
abbrev pub Serves : Option ServerTunnelConfig → Option ListenerHandle → Type 0
Serves none none = Unit
Serves none (some handle) = false ≡ true
Serves (some config) none = false ≡ true
Serves (some config) (some handle) =
    (handle.config ≡ config) × (same_listener handle.task config ≡ true)

pub Held-Tended :
    (want : Option ServerTunnelConfig) (n : Text) (o : Option ListenerHandle)
    → Held want n o
    → Tended n o
Held-Tended want n none h = tt
Held-Tended want n (some handle) (config, wanted, right, same, named) = (same, named)

-- After the listeners that are missing are started.
pub started-Held :
    (starts : ServerTunnelConfig → Bool) (configs : List ServerTunnelConfig) (m : ListenerManager)
    (n : Text)
    → Unique configs
    → Tended n (HashMap.get n m.active)
    → let stopped = stop_all (stale_names (desired_of configs) m) m in
      Held
        (HashMap.get n (desired_of configs))
        n
        (HashMap.get n (start_all starts configs stopped).1.active)
started-Held starts configs m n unique tended =
    let desired = desired_of configs in
    let stopped = stop_all (stale_names desired m) m in
    let before : Held (HashMap.get n desired) n (HashMap.get n stopped.active) =
      rw (get-stale_stopped n desired m)
        (Held-left_after (HashMap.get n desired) n (HashMap.get n m.active) tended) in
    start_all-Held starts configs desired stopped n (Agree-all configs unique) before

-- A wanted name is listed.
wanted_listed :
    (n : Text) (configs : List ServerTunnelConfig) (c : ServerTunnelConfig)
    → HashMap.get n (desired_of configs) ≡ some c
    → contains (names_in configs) n ≡ true
wanted_listed n configs c wanted =
    let (member, named) = last_named n configs c (sym (get-desired_of n configs) ∙ wanted) in
    contains-named n configs c member named

pub updated-Serves :
    (configs : List ServerTunnelConfig) (m : ListenerManager) (n : Text)
    → Unique configs
    → Held (HashMap.get n (desired_of configs)) n (HashMap.get n m.active)
    → (contains (names_in configs) n ≡ false) ⊎ (HashMap.contains_key n m.active ≡ true)
    → Serves (HashMap.get n (desired_of configs)) (HashMap.get n (update_configs configs m).active)
      × Tended n (HashMap.get n (update_configs configs m).active)
updated-Serves configs m n unique held listed =
    let desired = desired_of configs in
    elim (Option-cases (HashMap.get n m.active)) [
      | inl absent ↦
          let gone = update_configs_absent configs m n absent in
          elim (Option-cases (HashMap.get n desired)) [
            | inl unwanted ↦ rw (gone, unwanted) (tt, tt)
            | inr (c, wanted) ↦
                let there = wanted_listed n configs c wanted in absurd (ground (arith, listed))
          ]
      | inr (handle, found) ↦
          let (after, got, u) =
            update_configs_present configs desired m n handle (Agree-all configs unique) found in
          let (config, wanted, right, same, named) = rw found at held in
          let there = wanted_listed n configs config wanted in
          let stored : after.config ≡ config = elim u.config [
            | inl (unlisted, _) ↦ absurd (ground arith)
            | inr later ↦ ground arith
          ] in
          let task = u.task in
          let right_after : same_listener after.task config ≡ true = rw task right in
          let (_, member_name) =
            last_named n configs config (sym (get-desired_of n configs) ∙ wanted) in
          rw (got, wanted) ((stored, right_after), (rw stored right_after, rw stored member_name))
    ]
