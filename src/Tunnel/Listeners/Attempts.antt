-- ===== src/Tunnel/Listeners/Attempts.antt =====
-- What one attempt of `apply_once` in crates/gaterust-tunnel/src/server/mod.rs leaves of each name.
use gate_rust.Common.{
  ◌≡◌, refl, sym, ap, ◌∙◌, ◌⊎◌, inl, inr, Bool, true, false, Option, none, some, List, [], ◌∷◌, map,
  if◌then◌else◌, arith, ◌==◌, ==_iff, ℕ_eq, list_eq, option_eq, contains, Bool-cases, Option-cases,
}
use gate_rust.Common.Text.{Text}
use gate_rust.Common.Result.{Result, ok, err, Result-cases}
use gate_rust.HashMap
use gate_rust.HashMap.{HashMap, get-insert}
use gate_rust.Tunnel.Config.{ServerTunnelConfig}
use gate_rust.Tunnel.Listeners.{
  ListenerHandle, ListenerManager, ListenerError, start_missing, start_all, start_next, with_config,
  update_configs,
}
use gate_rust.Tunnel.Listeners.Served.{
  Held, Agree, start_missing-Held, start_missing_keeps, start_missing_present,
}

abbrev pub names_in : List ServerTunnelConfig → List Text
names_in = map (λ (c : ServerTunnelConfig). c.name)

next_failed :
    (rest : ListenerManager → Result ListenerError (Unit {0}) × ListenerManager)
    (outcome : Result ListenerError (Unit {0}) × ListenerManager) (e : ListenerError)
    → outcome.0 ≡ err e
    → start_next rest outcome ≡ (err e, outcome.1)
next_failed rest (err f, m) e h = ap (λ r. (r, m)) h
next_failed rest (ok done, m) e h = absurd (ground arith)

next_done :
    (rest : ListenerManager → Result ListenerError (Unit {0}) × ListenerManager)
    (outcome : Result ListenerError (Unit {0}) × ListenerManager)
    → outcome.0 ≡ ok tt
    → start_next rest outcome ≡ rest outcome.1
next_done rest (err f, m) h = absurd (ground arith)
next_done rest (ok done, m) h = refl

pub start_all-Held :
    (starts : ServerTunnelConfig → Bool) (configs : List ServerTunnelConfig)
    (desired : HashMap Text ServerTunnelConfig) (m : ListenerManager) (n : Text)
    → Agree desired configs
    → Held (HashMap.get n desired) n (HashMap.get n m.active)
    → Held (HashMap.get n desired) n (HashMap.get n (start_all starts configs m).1.active)
unfolding start_all
start_all-Held starts [] desired m n agree h = h
start_all-Held starts (config ∷ configs) desired m n (wanted, agree) h =
    let one = start_missing-Held starts config desired m n wanted h in
    let outcome = start_missing starts config m in
    elim (Result-cases outcome.0) [
      | inr (e, failed) ↦ rw (next_failed (start_all starts configs) outcome e failed) one
      | inl (done, passed) ↦
          rw (next_done (start_all starts configs) outcome passed)
            (start_all-Held starts configs desired outcome.1 n agree one)
    ]

start_all_keeps :
    (starts : ServerTunnelConfig → Bool) (configs : List ServerTunnelConfig) (m : ListenerManager)
    (n : Text)
    → HashMap.contains_key n m.active ≡ true
    → HashMap.contains_key n (start_all starts configs m).1.active ≡ true
unfolding start_all
start_all_keeps starts [] m n h = h
start_all_keeps starts (config ∷ configs) m n h =
    let one = start_missing_keeps starts config m n h in
    let outcome = start_missing starts config m in
    elim (Result-cases outcome.0) [
      | inr (e, failed) ↦ rw (next_failed (start_all starts configs) outcome e failed) one
      | inl (done, passed) ↦
          rw (next_done (start_all starts configs) outcome passed)
            (start_all_keeps starts configs outcome.1 n one)
    ]

present_as :
    (name n : Text) (after : ListenerManager)
    → name ≡ n
    → HashMap.contains_key name after.active ≡ true
    → HashMap.contains_key n after.active ≡ true
present_as name n after same h = rw (← same) h

-- After an attempt that succeeds every configuration of the list has a listener.
pub start_all_present :
    (starts : ServerTunnelConfig → Bool) (configs : List ServerTunnelConfig) (m : ListenerManager)
    (n : Text)
    → (start_all starts configs m).0 ≡ ok tt
    → contains (names_in configs) n ≡ true
    → HashMap.contains_key n (start_all starts configs m).1.active ≡ true
unfolding start_all
start_all_present starts [] m n h listed = absurd (ground arith)
start_all_present starts (config ∷ configs) m n h listed =
    let outcome = start_missing starts config m in
    elim (Result-cases outcome.0) [
      | inr (e, failed) ↦
          let shape = next_failed (start_all starts configs) outcome e failed in
          absurd (ground arith)
      | inl (done, passed) ↦
          let shape = next_done (start_all starts configs) outcome passed in
          let later : (start_all starts configs outcome.1).0 ≡ ok tt = rw shape at h in
          rw shape (elim (Bool-cases (config.name == n)) [
            | inl here ↦
                let same = (==_iff config.name n).0 here in
                let present =
                  start_missing_present starts config m outcome.1 (λ i. (passed i, outcome.1)) in
                start_all_keeps starts configs outcome.1 n
                  (present_as config.name n outcome.1 same present)
            | inr other ↦ start_all_present starts configs outcome.1 n later (ground arith)
          ])
    ]

-- A handle after the configurations are updated: the task is the same, and the configuration is the
-- wanted one if the list has the name.
pub record IsUpdated (configs : List ServerTunnelConfig) (n : Text)
    (want : Option ServerTunnelConfig) (before after : ListenerHandle) : Type 0 where
  pub task : after.task ≡ before.task
  pub config :
      ((contains (names_in configs) n ≡ false) × (after.config ≡ before.config))
      ⊎ (want ≡ some after.config)

pub update_configs_absent :
    (configs : List ServerTunnelConfig) (m : ListenerManager) (n : Text)
    → HashMap.get n m.active ≡ none
    → HashMap.get n (update_configs configs m).active ≡ none
unfolding update_configs
update_configs_absent [] m n h = h
update_configs_absent (config ∷ configs) m n h =
    update_configs_absent configs (with_config config (HashMap.get config.name m.active) m) n
      (elim (Option-cases (HashMap.get config.name m.active)) [
        | inl absent ↦ rw (absent, with_config) h
        | inr (handle, found) ↦
            let other : (config.name == n) ≡ false = ground (arith, ==_iff config.name n) in
            rw (found, with_config)
              (rw (get-insert config.name n (record handle { config = config }) m.active, other) h)
      ])

get_as :
    {V : Type 0} (name n : Text) (m : HashMap Text V) (o : Option V)
    → name ≡ n
    → HashMap.get name m ≡ o
    → HashMap.get n m ≡ o
get_as name n m o same h = rw (← same) h

IsUpdated-here :
    (configs : List ServerTunnelConfig) (n : Text) (want : Option ServerTunnelConfig)
    (config : ServerTunnelConfig) (old handle after : ListenerHandle)
    → old ≡ handle
    → want ≡ some config
    → IsUpdated configs n want (record old { config = config }) after
    → IsUpdated (config ∷ configs) n want handle after
IsUpdated-here configs n want config old handle after equal wanted u = record {
  task = u.task ∙ ap (λ (h : ListenerHandle). h.task) equal;
  config = elim u.config [
    | inl (_, same) ↦ inr (wanted ∙ ap some (sym same))
    | inr later ↦ inr later
  ];
}

IsUpdated-later :
    (configs : List ServerTunnelConfig) (n : Text) (want : Option ServerTunnelConfig)
    (config : ServerTunnelConfig) (handle after : ListenerHandle)
    → (config.name == n) ≡ false
    → IsUpdated configs n want handle after
    → IsUpdated (config ∷ configs) n want handle after
IsUpdated-later configs n want config handle after other u = record {
  task = u.task;
  config = elim u.config [
    | inl (unlisted, same) ↦ inl (ground arith, same)
    | inr later ↦ inr later
  ];
}

get_changed :
    (name n : Text) (changed handle : ListenerHandle) (m : ListenerManager)
    → HashMap.get n m.active ≡ some handle
    → HashMap.get n (HashMap.insert name changed m.active)
      ≡ some (if name == n then changed else handle)
get_changed name n changed handle m h = ground (arith, get-insert name n changed m.active)

pub update_configs_present :
    (configs : List ServerTunnelConfig) (desired : HashMap Text ServerTunnelConfig)
    (m : ListenerManager) (n : Text) (handle : ListenerHandle)
    → Agree desired configs
    → HashMap.get n m.active ≡ some handle
    → (after : ListenerHandle) × (HashMap.get n (update_configs configs m).active ≡ some after)
      × IsUpdated configs n (HashMap.get n desired) handle after
unfolding update_configs
update_configs_present [] desired m n handle agree h =
    (handle, h, record { task = refl; config = inl (refl, refl) })
update_configs_present (config ∷ configs) desired m n handle (wanted, agree) h =
    let next = with_config config (HashMap.get config.name m.active) m in
    elim (Option-cases (HashMap.get config.name m.active)) [
      | inl absent ↦
          let same : next ≡ m = rw (absent, with_config) refl in
          let other : (config.name == n) ≡ false = ground (arith, ==_iff config.name n) in
          let (after, got, updated) = update_configs_present configs desired m n handle agree h in
          (
            after,
            rw (same, update_configs) got,
            IsUpdated-later configs n (HashMap.get n desired) config handle after other updated,
          )
      | inr (old, found) ↦
          let changed : ListenerHandle = record old { config = config } in
          let shape : next ≡ record m { active = HashMap.insert config.name changed m.active } =
            rw (found, with_config) refl in
          let (after, got, updated) =
            update_configs_present configs desired
              (record m { active = HashMap.insert config.name changed m.active }) n
              (if config.name == n then changed else handle) agree
              (get_changed config.name n changed handle m h) in
          let kept : IsUpdated (config ∷ configs) n (HashMap.get n desired) handle after =
            elim (Bool-cases (config.name == n)) [
              | inr other ↦
                  IsUpdated-later configs n (HashMap.get n desired) config handle after other
                    (rw other at updated)
              | inl here ↦
                  let same = (==_iff config.name n).0 here in
                  let found_n = get_as config.name n m.active (some old) same found in
                  let equal : old ≡ handle = ground arith in
                  IsUpdated-here configs n (HashMap.get n desired) config old handle after equal
                    (get_as config.name n desired (some config) same wanted) (rw here at updated)
            ] in
          (after, rw (shape, update_configs) got, kept)
    ]
