-- ===== src/Control/Errors.antt =====
-- `ControlError` of crates/gaterust-control/src/error.rs, by what fails.
use gate_rust.Common.Text.{Text}

pub data ResourceKind : Type 0 where
  a_group a_tunnel an_acme_account a_dns_account a_certificate a_route : ResourceKind

pub data Conflict : Type 0 where
  acme_id_changed acme_in_use dns_id_changed dns_in_use : Conflict
  certificate_migrating certificate_id_changed certificate_in_use : Conflict

pub data WriteCause : Type 0 where
  not_serialized no_directory open_failed write_failed read_back_failed : WriteCause
  rename_failed sync_failed : WriteCause

pub data ApplyCause : Type 0 where
  no_fingerprint timed_out : ApplyCause
  apply_failed : Text → ApplyCause

pub data ControlError : Type 0 where
  resource_not_found : ResourceKind → Text → ControlError
  resource_conflict : Conflict → ControlError
  read_runtime_config : ControlError
  write_runtime_config : WriteCause → ControlError
  tunnel_runtime_apply proxy_runtime_apply : ApplyCause → ControlError
