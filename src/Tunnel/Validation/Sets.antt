-- ===== src/Tunnel/Validation/Sets.antt =====
-- What the sets and the tests of crates/gaterust-tunnel/src/config.rs establish.
use gate_rust.Common.{◌≡◌, arith, ℕ_eq, list_eq}
use gate_rust.Common.Text.{Text}
use gate_rust.Common.Net.{addr_eq}
use gate_rust.Common.Result.{ok}
use gate_rust.Tunnel.Protocol.Declarations.{IsName, all_name_bytes_iff, present_of_not_empty}
use gate_rust.Tunnel.Validation.{validate_name}

pub validate_name_sound : (name : Text) → validate_name name ≡ ok tt → IsName name
unfolding validate_name
validate_name_sound name h = record {
  present = present_of_not_empty name (ground arith);
  short = ground arith;
  bytes = (all_name_bytes_iff name).0 (ground arith);
}
