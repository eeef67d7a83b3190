-- ===== src/Tunnel/Listeners.antt =====
-- `ListenerManager` of crates/gaterust-tunnel/src/server/mod.rs: which listeners run, with which
-- configuration and which limiter. Whether a listener starts is an argument, and so is which retired
-- tasks are finished. A task is what it was started with; a limiter is its number.
pub mod Same
pub mod Served
pub mod Attempts
pub mod Wanted
pub mod Applied
pub mod Rollback
pub mod Tests
use Prim.Native.Nat.{◌+◌}
use gate_rust.Common.{
  ℕ, Bool, true, false, not, ◌&&◌, Option, none, some, List, [], ◌∷◌, ◌++◌, map, if◌then◌else◌,
  filter, ◌==◌, ℕ_eq, list_eq, option_eq,
}
use gate_rust.Common.Text.{Text}
use gate_rust.Common.Net.{addr_eq}
use gate_rust.Common.Result.{Result, ok, err}
use gate_rust.HashMap
use gate_rust.HashMap.{HashMap}
use gate_rust.Tunnel.Runtime.{RuntimeState}
use gate_rust.Tunnel.Runtime.Operations.{apply_tunnels}
use gate_rust.Tunnel.Config.{TunnelKind, tcp, udp, socks5, kind_eq, ServerTunnelConfig}

pub record ListenerHandle : Type 0 where
  pub config : ServerTunnelConfig
  pub task : ServerTunnelConfig
  pub limiter : ℕ

pub record LimiterEntry : Type 0 where
  pub limit : Option ℕ
  pub limiter : ℕ

pub record ListenerManager : Type 0 where
  pub limiters : HashMap Text LimiterEntry
  pub next_limiter : ℕ
  pub active : HashMap Text ListenerHandle
  pub retired : List ServerTunnelConfig

-- `bind_failed` is the error of `start_listener`, and `rollback_failed` that of `apply` when both
-- attempts fail.
pub data ListenerError : Type 0 where
  bind_failed rollback_failed : Text → ListenerError

unfoldable pub new_manager : ListenerManager
new_manager = record {
  limiters = HashMap.empty;
  next_limiter = 0;
  active = HashMap.empty;
  retired = [];
}

-- The limits that a listener of the kind has.
abbrev pub same_limits : TunnelKind → ServerTunnelConfig → ServerTunnelConfig → Bool
same_limits udp current updated =
    current.max_udp_sessions == updated.max_udp_sessions
    && current.udp_idle_seconds == updated.udp_idle_seconds
same_limits _ current updated = current.max_connections == updated.max_connections

unfoldable pub same_listener : ServerTunnelConfig → ServerTunnelConfig → Bool
same_listener current updated =
    current.name == updated.name
    && (current.kind == updated.kind
        && (current.bind == updated.bind
            && (current.limit_bps == updated.limit_bps
                && same_limits current.kind current updated)))

-- `ListenerManager::configs`
unfoldable pub configs_of : ListenerManager → List ServerTunnelConfig
configs_of m = map (λ (e : Text × ListenerHandle). e.1.config) m.active.entries

abbrev pub by_name : List ServerTunnelConfig → List (Text × ServerTunnelConfig)
by_name = map (λ (c : ServerTunnelConfig). (c.name, c))

unfoldable pub desired_of : List ServerTunnelConfig → HashMap Text ServerTunnelConfig
unfolding HashMap.collect
desired_of configs = HashMap.collect (by_name configs)

-- A listener whose tunnel is gone, or needs another one.
unfoldable pub is_stale : Option ServerTunnelConfig → ListenerHandle → Bool
unfolding same_listener
is_stale none handle = true
is_stale (some config) handle = not (same_listener handle.config config)

abbrev pub retire : Option ListenerHandle → List ServerTunnelConfig → List ServerTunnelConfig
retire none retired = retired
retire (some handle) retired = retired ++ handle.task ∷ []

unfoldable pub stop : Text → ListenerManager → ListenerManager
unfolding HashMap.get HashMap.remove
stop name m = record m {
  active = HashMap.remove name m.active;
  retired = retire (HashMap.get name m.active) m.retired;
}

unfoldable pub stop_all : List Text → ListenerManager → ListenerManager
unfolding stop
stop_all [] m = m
stop_all (name ∷ names) m = stop_all names (stop name m)

unfoldable pub stale_names : HashMap Text ServerTunnelConfig → ListenerManager → List Text
unfolding HashMap.keys_of is_stale HashMap.get
stale_names desired m =
    HashMap.keys_of (λ name handle. is_stale (HashMap.get name desired) handle) m.active

unfoldable pub new_entry : ServerTunnelConfig → ListenerManager → ℕ × ListenerManager
unfolding HashMap.insert
new_entry config m = (
  m.next_limiter,
  record m {
    limiters =
        HashMap.insert config.name (record { limit = config.limit_bps; limiter = m.next_limiter })
          m.limiters;
    next_limiter = m.next_limiter + 1;
  },
)

-- The limiter of a tunnel that keeps its limit is kept.
unfoldable pub take_limiter : ServerTunnelConfig → ListenerManager → ℕ × ListenerManager
unfolding HashMap.get new_entry
take_limiter config m = elim (HashMap.get config.name m.limiters) [
  | none ↦ new_entry config m
  | some entry ↦ if entry.limit == config.limit_bps then (entry.limiter, m) else new_entry config m
]

unfoldable pub start_listener :
    Bool
    → ServerTunnelConfig
    → ℕ × ListenerManager
    → Result ListenerError (Unit {0}) × ListenerManager
unfolding HashMap.insert
start_listener false config (limiter, m) = (err (bind_failed config.name), m)
start_listener true config (limiter, m) = (
  ok tt,
  record m {
    active =
        HashMap.insert config.name (record { config = config; task = config; limiter = limiter })
          m.active;
  },
)

unfoldable pub start_missing :
    (ServerTunnelConfig → Bool)
    → ServerTunnelConfig
    → ListenerManager
    → Result ListenerError (Unit {0}) × ListenerManager
unfolding take_limiter start_listener HashMap.get
start_missing starts config m =
    if HashMap.contains_key config.name m.active
    then (ok tt, m)
    else start_listener (starts config) config (take_limiter config m)

abbrev pub start_next :
    (ListenerManager → Result ListenerError (Unit {0}) × ListenerManager)
    → Result ListenerError (Unit {0}) × ListenerManager
    → Result ListenerError (Unit {0}) × ListenerManager
start_next rest (err e, m) = (err e, m)
start_next rest (ok done, m) = rest m

unfoldable pub start_all :
    (ServerTunnelConfig → Bool)
    → List ServerTunnelConfig
    → ListenerManager
    → Result ListenerError (Unit {0}) × ListenerManager
unfolding start_missing
start_all starts [] m = (ok tt, m)
start_all starts (config ∷ configs) m =
    start_next (start_all starts configs) (start_missing starts config m)

unfoldable pub with_config :
    ServerTunnelConfig → Option ListenerHandle → ListenerManager → ListenerManager
unfolding HashMap.insert
with_config config none m = m
with_config config (some handle) m = record m {
  active = HashMap.insert config.name (record handle { config = config }) m.active;
}

unfoldable pub update_configs : List ServerTunnelConfig → ListenerManager → ListenerManager
unfolding HashMap.get with_config
update_configs [] m = m
update_configs (config ∷ configs) m =
    update_configs configs (with_config config (HashMap.get config.name m.active) m)

unfoldable pub finish :
    List ServerTunnelConfig
    → Result ListenerError (Unit {0}) × ListenerManager
    → Result ListenerError (Unit {0}) × ListenerManager
unfolding update_configs HashMap.retain desired_of HashMap.get
finish configs (err e, m) = (err e, m)
finish configs (ok done, m) =
    let updated = update_configs configs m in
    (
      ok tt,
      record updated {
        limiters =
            HashMap.retain (λ name _. HashMap.contains_key name (desired_of configs))
              updated.limiters;
      },
    )

-- `ListenerManager::apply_once`
unfoldable pub apply_once :
    (ServerTunnelConfig → Bool)
    → List ServerTunnelConfig
    → ListenerManager
    → Result ListenerError (Unit {0}) × ListenerManager
unfolding start_all stop_all stale_names desired_of finish
apply_once starts configs m =
    finish configs (start_all starts configs (stop_all (stale_names (desired_of configs) m) m))

-- The tasks that are not finished; their order has no effect.
unfoldable pub reap_retired : (ServerTunnelConfig → Bool) → ListenerManager → ListenerManager
reap_retired finished m = record m { retired = filter (λ task. not (finished task)) m.retired }

abbrev pub rolled_back :
    ListenerError
    → Result ListenerError (Unit {0}) × ListenerManager
    → Result ListenerError (Unit {0}) × ListenerManager
rolled_back (bind_failed name) (err e, m) = (err (rollback_failed name), m)
rolled_back (rollback_failed name) (err e, m) = (err (rollback_failed name), m)
rolled_back e (ok done, m) = (err e, m)

module _ {C D : Type 0} where
  -- The first attempt's result decides: the runtime takes the configurations, or the configurations
  -- and the limiters before are applied again.
  unfoldable pub settle :
      (ServerTunnelConfig → Bool)
      → List ServerTunnelConfig
      → ListenerManager
      → RuntimeState C D
      → Result ListenerError (Unit {0}) × ListenerManager
      → Result ListenerError (Unit {0}) × (ListenerManager × RuntimeState C D)
  unfolding apply_once configs_of apply_tunnels
  settle restarts configs before st (ok done, m) = (ok tt, (m, apply_tunnels configs st))
  settle restarts configs before st (err e, m) =
      let again =
        rolled_back e
          (apply_once restarts (configs_of before) (record m { limiters = before.limiters })) in
      (again.0, (again.1, st))

  -- `ListenerManager::apply`
  unfoldable pub apply :
      (ServerTunnelConfig → Bool)
      → (ServerTunnelConfig → Bool)
      → (ServerTunnelConfig → Bool)
      → List ServerTunnelConfig
      → ListenerManager
      → RuntimeState C D
      → Result ListenerError (Unit {0}) × (ListenerManager × RuntimeState C D)
  unfolding reap_retired apply_once settle
  apply finished starts restarts configs m st =
      let before = reap_retired finished m in
      settle restarts configs before st (apply_once starts configs before)
