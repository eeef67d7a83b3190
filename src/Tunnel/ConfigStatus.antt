-- ===== src/Tunnel/ConfigStatus.antt =====
-- The status of the configuration in crates/gaterust-tunnel/src/runtime.rs: what the server reports
-- about the configurations that it loads, and `wait_for_config`. The fingerprint of a configuration,
-- which needs TOML and SHA-256, is a parameter.
pub mod Reports
pub mod Waiting
pub mod Tests
use Prim.Native.Nat.{◌+◌, ◌%◌, ◌^◌}
use gate_rust.Common.{
  ℕ, Bool, not, ◌&&◌, Option, none, some, List, [], ◌∷◌, if◌then◌else◌, ltb, EqTest, ◌==◌, ℕ_eq,
  option_eq,
}
use gate_rust.Common.Text.{Text}
use gate_rust.Tunnel.Config.{ServerConfig}

pub record TunnelConfigStatus : Type 0 where
  pub revision : ℕ
  pub last_apply_error : Option Text

pub record ConfigApplyState (D : Type 0) : Type 0 where
  pub fingerprint : Option D
  pub status : TunnelConfigStatus

-- The calls that report: the configuration is applied, or is not, or could not be loaded.
pub data Report : Type 0 where
  applied : ServerConfig → Report
  failed : ServerConfig → Text → Report
  load_failed : Text → Report

abbrev pub next_status : Option Text → TunnelConfigStatus → TunnelConfigStatus
next_status error status = record {
  revision = (status.revision + 1) % 2 ^ 64;
  last_apply_error = error;
}

module _ {D : Type 0} where
  unfoldable pub publish_config_status : D → Option Text → ConfigApplyState D → ConfigApplyState D
  publish_config_status fingerprint error state = record {
    fingerprint = some fingerprint;
    status = next_status error state.status;
  }

  unfoldable pub report_config_load_error : Text → ConfigApplyState D → ConfigApplyState D
  report_config_load_error error state = record {
    fingerprint = none;
    status = next_status (some error) state.status;
  }

module _ {D : Type 0} ⦃e : EqTest D⦄ where
  -- The first of the states that is not of the revision and has the fingerprint.
  unfoldable pub first_match : D → ℕ → List (ConfigApplyState D) → Option TunnelConfigStatus
  first_match fingerprint after_revision [] = none
  first_match fingerprint after_revision (current ∷ changes) =
      let later = first_match fingerprint after_revision changes in
      if not (current.status.revision == after_revision) && current.fingerprint == some fingerprint
      then some current.status
      else later

  -- The states that the loop still sees when a change comes at an instant: none from the deadline on.
  unfoldable pub seen_before : ℕ → List (ℕ × ConfigApplyState D) → List (ConfigApplyState D)
  seen_before deadline [] = []
  seen_before deadline (change ∷ changes) =
      let later = seen_before deadline changes in
      if ltb change.0 deadline then change.1 ∷ later else []

  -- `wait_for_config` once it has the fingerprint: the state that it finds is tested even when the
  -- deadline has come, and then each change that it is woken for before the deadline. The changes
  -- come with their instants, up to the end of the channel.
  unfoldable pub wait_for :
      D → ℕ → ℕ → ConfigApplyState D → List (ℕ × ConfigApplyState D) → Option TunnelConfigStatus
  unfolding first_match seen_before
  wait_for fingerprint after_revision deadline current changes =
      first_match fingerprint after_revision (current ∷ seen_before deadline changes)

module _ {D : Type 0} (fingerprint : ServerConfig → Option D) where
  -- Without a fingerprint a report fails, and changes nothing.
  unfoldable pub published : Option D → Option Text → ConfigApplyState D → ConfigApplyState D
  unfolding publish_config_status
  published none error state = state
  published (some digest) error state = publish_config_status digest error state

  -- `report_config_applied`, `report_config_failed` and `report_config_load_error`
  unfoldable pub report : Report → ConfigApplyState D → ConfigApplyState D
  unfolding published report_config_load_error
  report (applied config) state = published (fingerprint config) none state
  report (failed config error) state = published (fingerprint config) (some error) state
  report (load_failed error) state = report_config_load_error error state

  -- The states of the channel while reports are made.
  unfoldable pub states_of : List Report → ConfigApplyState D → List (ConfigApplyState D)
  unfolding report
  states_of [] state = []
  states_of (r ∷ reports) state = let next = report r state in next ∷ states_of reports next
