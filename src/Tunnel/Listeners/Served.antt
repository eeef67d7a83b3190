-- ===== src/Tunnel/Listeners/Served.antt =====
-- What the steps of `apply_once` in crates/gaterust-tunnel/src/server/mod.rs leave of one name.
use gate_rust.Common.{
  ℕ, ◌≡◌, refl, ◌∙◌, inl, inr, Bool, true, false, Option, none, some, List, [], ◌∷◌, if◌then◌else◌,
  arith, ◌==◌, ==_iff, ==_self, ℕ_eq, list_eq, option_eq, contains, All, is_some, Bool-cases,
  Option-cases,
}
use gate_rust.Common.Text.{Text}
use gate_rust.Common.Net.{addr_eq}
use gate_rust.Common.Result.{ok}
use gate_rust.HashMap
use gate_rust.HashMap.{HashMap, holds_of, get-insert, get-remove, contains-keys_of}
use gate_rust.Tunnel.Config.{kind_eq, ServerTunnelConfig}
use gate_rust.Tunnel.Listeners.{
  ListenerHandle, ListenerManager, same_listener, is_stale, stop, stop_all, stale_names,
  take_limiter, new_entry, start_listener, start_missing,
}
use gate_rust.Tunnel.Listeners.Same.{same_listener_self, same_listener_trans}

get-stop_all :
    (n : Text) (names : List Text) (m : ListenerManager)
    → HashMap.get n (stop_all names m).active
      ≡ (if contains names n then none else HashMap.get n m.active)
unfolding stop_all stop
get-stop_all n [] m = refl
get-stop_all n (name ∷ names) m =
    ground (arith, get-stop_all n names (stop name m), get-remove name n m.active)

-- What is left of a name once the stale listeners are stopped.
abbrev pub left_after : Option ServerTunnelConfig → Option ListenerHandle → Option ListenerHandle
left_after want none = none
left_after want (some handle) = if is_stale want handle then none else some handle

if_same : (b : Bool) → ◌≡◌ {A = Option ListenerHandle} (if b then none else none) none
if_same true = refl
if_same false = refl

contains-stale_names :
    (n : Text) (desired : HashMap Text ServerTunnelConfig) (m : ListenerManager)
    → contains (stale_names desired m) n
      ≡ holds_of
          (λ name handle. is_stale (HashMap.get name desired) handle)
          n
          (HashMap.get n m.active)
unfolding stale_names
contains-stale_names n desired m =
    contains-keys_of (λ name handle. is_stale (HashMap.get name desired) handle) n m.active

pub get-stale_stopped :
    (n : Text) (desired : HashMap Text ServerTunnelConfig) (m : ListenerManager)
    → HashMap.get n (stop_all (stale_names desired m) m).active
      ≡ left_after (HashMap.get n desired) (HashMap.get n m.active)
get-stale_stopped n desired m =
    let first = get-stop_all n (stale_names desired m) m in
    let stale = contains-stale_names n desired m in
    elim (Option-cases (HashMap.get n m.active)) [
      | inl absent ↦ rw absent (rw absent at first ∙ if_same (contains (stale_names desired m) n))
      | inr (handle, found) ↦
          let stopped = rw found at stale in rw found (rw (found, stopped) at first)
    ]

take_limiter-active :
    (config : ServerTunnelConfig) (m : ListenerManager)
    → (take_limiter config m).1.active ≡ m.active
unfolding take_limiter new_entry
take_limiter-active config m = elim (Option-cases (HashMap.get config.name m.limiters)) [
  | inl absent ↦ rw (absent, take_limiter) refl
  | inr (entry, found) ↦ elim (Bool-cases (entry.limit == config.limit_bps)) [
    | inl same ↦ rw (found, same, take_limiter) refl
    | inr other ↦ rw (found, other, take_limiter) refl
  ]
]

-- A handle of a name that is wanted with a configuration: the task has what the handle's configuration
-- and the wanted one ask for.
abbrev pub Held : Option ServerTunnelConfig → Text → Option ListenerHandle → Type 0
Held want n none = Unit
Held want n (some handle) =
    (config : ServerTunnelConfig) × (want ≡ some config)
    × (same_listener handle.task config ≡ true)
    × (same_listener handle.task handle.config ≡ true)
    × (handle.config.name ≡ n)

-- A handle as every step leaves it.
abbrev pub Tended : Text → Option ListenerHandle → Type 0
Tended n none = Unit
Tended n (some handle) = (same_listener handle.task handle.config ≡ true) × (handle.config.name ≡ n)

pub Held-left_after :
    (want : Option ServerTunnelConfig) (n : Text) (o : Option ListenerHandle)
    → Tended n o
    → Held want n (left_after want o)
unfolding is_stale
Held-left_after want n none h = tt
Held-left_after none n (some handle) h = tt
Held-left_after (some config) n (some handle) (same, named) =
    elim (Bool-cases (same_listener handle.config config)) [
      | inr stale ↦ rw (stale, is_stale) tt
      | inl fresh ↦
          rw (fresh, is_stale)
            (
              config,
              refl,
              same_listener_trans handle.task handle.config config same fresh,
              same,
              named,
            )
    ]

-- Every configuration of the list is the wanted one of its name.
abbrev pub Agree : HashMap Text ServerTunnelConfig → List ServerTunnelConfig → Type 0
Agree desired = All (λ (c : ServerTunnelConfig). HashMap.get c.name desired ≡ some c)

Held-new :
    (config : ServerTunnelConfig) (limiter : ℕ) (desired : HashMap Text ServerTunnelConfig)
    (n : Text) (o : Option ListenerHandle)
    → HashMap.get config.name desired ≡ some config
    → Held (HashMap.get n desired) n o
    → Held (HashMap.get n desired) n (
        if config.name == n
        then some (record { config = config; task = config; limiter = limiter })
        else o)
Held-new config limiter desired n o wanted h = elim (Bool-cases (config.name == n)) [
  | inr other ↦ rw other h
  | inl here ↦
      let same = (==_iff config.name n).0 here in
      rw here
        (config, rw (← same) wanted, same_listener_self config, same_listener_self config, same)
]

pub start_missing-Held :
    (starts : ServerTunnelConfig → Bool) (config : ServerTunnelConfig)
    (desired : HashMap Text ServerTunnelConfig) (m : ListenerManager) (n : Text)
    → HashMap.get config.name desired ≡ some config
    → Held (HashMap.get n desired) n (HashMap.get n m.active)
    → Held (HashMap.get n desired) n (HashMap.get n (start_missing starts config m).1.active)
unfolding start_missing start_listener
start_missing-Held starts config desired m n wanted h =
    elim (Bool-cases (HashMap.contains_key config.name m.active)) [
      | inl present ↦ rw (present, start_missing) h
      | inr missing ↦ elim (Bool-cases (starts config)) [
        | inr refused ↦ rw (missing, refused, start_missing) (rw (take_limiter-active config m) h)
        | inl started ↦
            rw (missing, started, start_missing)
              (rw
                (
                  get-insert config.name n
                      (record {
                        config = config;
                        task = config;
                        limiter = (take_limiter config m).0;
                      })
                      (take_limiter config m).1.active,
                  take_limiter-active config m,
                )
                (Held-new config (take_limiter config m).0 desired n (HashMap.get n m.active) wanted
                  h))
      ]
    ]

is_some_if :
    (b : Bool) (handle : ListenerHandle) (o : Option ListenerHandle)
    → is_some o ≡ true
    → is_some (if b then some handle else o) ≡ true
is_some_if true handle o h = refl
is_some_if false handle o h = h

pub start_missing_keeps :
    (starts : ServerTunnelConfig → Bool) (config : ServerTunnelConfig) (m : ListenerManager)
    (n : Text)
    → HashMap.contains_key n m.active ≡ true
    → HashMap.contains_key n (start_missing starts config m).1.active ≡ true
unfolding start_missing start_listener
start_missing_keeps starts config m n h =
    elim (Bool-cases (HashMap.contains_key config.name m.active)) [
      | inl present ↦ rw (present, start_missing) h
      | inr missing ↦ elim (Bool-cases (starts config)) [
        | inr refused ↦ rw (missing, refused, start_missing) (rw (take_limiter-active config m) h)
        | inl started ↦
            rw (missing, started, start_missing)
              (rw
                (
                  get-insert config.name n
                      (record {
                        config = config;
                        task = config;
                        limiter = (take_limiter config m).0;
                      })
                      (take_limiter config m).1.active,
                  take_limiter-active config m,
                )
                (is_some_if (config.name == n) _ (HashMap.get n m.active) h))
      ]
    ]

pub start_missing_present :
    (starts : ServerTunnelConfig → Bool) (config : ServerTunnelConfig) (m after : ListenerManager)
    → start_missing starts config m ≡ (ok tt, after)
    → HashMap.contains_key config.name after.active ≡ true
unfolding start_missing start_listener
start_missing_present starts config m after h =
    elim (Bool-cases (HashMap.contains_key config.name m.active)) [
      | inl present ↦ let same : m ≡ after = ground arith in rw (← same) present
      | inr missing ↦ elim (Bool-cases (starts config)) [
        | inr refused ↦ absurd (ground arith)
        | inl started ↦
            let handle : ListenerHandle = record {
              config = config;
              task = config;
              limiter = (take_limiter config m).0;
            } in
            let taken = (take_limiter config m).1 in
            let same : record taken { active = HashMap.insert config.name handle taken.active }
                ≡ after =
              ground arith in
            rw (← same) (
              rw (get-insert config.name config.name handle taken.active, ==_self config.name) refl)
      ]
    ]
