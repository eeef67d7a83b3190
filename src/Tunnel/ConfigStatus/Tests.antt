-- ===== src/Tunnel/ConfigStatus/Tests.antt =====
-- A wait for a configuration, in crates/gaterust-tunnel/src/runtime.rs. Here the fingerprint is the number
-- of groups.
use gate_rust.Common.{ℕ, ◌≡◌, refl, Option, none, some, List, [], ◌∷◌, arith, length, ℕ_eq}
use gate_rust.Common.Text.{Text, ascii}
use gate_rust.Common.Net.{ipv4_socket}
use gate_rust.Tunnel.Config.{ServerConfig}
use gate_rust.Tunnel.ConfigStatus.{
  TunnelConfigStatus, ConfigApplyState, Report, applied, load_failed, seen_before, wait_for,
  states_of,
}
use gate_rust.Tunnel.ConfigStatus.Reports.{Reported}
use gate_rust.Tunnel.ConfigStatus.Waiting.{Observes, at_last, seen, missed, wait_for-Reported}

abbrev config : ServerConfig
config = record {
  quic = record { bind = ipv4_socket 0 4433; certificate = ascii "c"; private_key = ascii "k" };
  groups = [];
  tunnels = [];
}

abbrev group_count : ServerConfig → Option ℕ
group_count c = some (length c.groups)

abbrev state : Option ℕ → ℕ → Option Text → ConfigApplyState ℕ
state print revision error = record {
  fingerprint = print;
  status = record { revision = revision; last_apply_error = error };
}

abbrev broken : Report
broken = load_failed (ascii "toml")

-- The waiter misses the report of a file that could not be loaded.
abbrev changes : List (ℕ × ConfigApplyState ℕ)
changes = (3, state (some 0) 6 none) ∷ []

late_change_times_out : wait_for 0 4 3 (state (some 0) 4 none) changes ≡ none
unfolding wait_for
late_change_times_out = refl

sees :
    Observes
      (state (some 0) 4 none
        ∷ states_of group_count (broken ∷ applied config ∷ []) (state (some 0) 4 none))
      (state (some 0) 4 none ∷ seen_before 5 changes)
unfolding states_of seen_before
sees =
    seen (state (some 0) 4 none) (state none 5 (some (ascii "toml")) ∷ state (some 0) 6 none ∷ [])
      (state (some 0) 6 none ∷ [])
      (missed (state none 5 (some (ascii "toml"))) (state (some 0) 6 none ∷ [])
        (state (some 0) 6 none ∷ []) (at_last (state (some 0) 6 none)))

wait_for-Reported_example :
    (status : TunnelConfigStatus) × (wait_for 0 4 5 (state (some 0) 4 none) changes ≡ some status)
    × Reported group_count (broken ∷ applied config ∷ []) 0 status
wait_for-Reported_example =
    wait_for-Reported group_count (broken ∷ []) (applied config) (state (some 0) 4 none)
      (state (some 0) 4 none) 0 5 changes (omega arith) (omega arith) (config, refl, refl) sees
