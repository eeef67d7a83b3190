-- ===== src/Proxy/Hosts.antt =====
-- Wildcard host names: `wildcard_matches` and `certificate_for_host` of
-- crates/gaterust-proxy/src/config.rs.
pub mod Wildcards
pub mod Certificates
pub mod Tests
use gate_rust.Common.{
  or_else, ℕ, Bool, true, false, not, ◌&&◌, Option, none, some, List, [], ◌∷◌, ◌==◌, ℕ_eq, list_eq,
  contains, is_some_and, leb, if◌then◌else◌, length,
}
use gate_rust.Common.Text.{Text, ascii, strip_prefix, strip_suffix, without_last, ends_with_byte}
use gate_rust.HashMap
use gate_rust.HashMap.{HashMap}

-- A label and its dot: `prefix.ends_with('.') && !prefix[..prefix.len() - 1].contains('.')`
unfoldable pub is_label : Text → Bool
is_label prefix = ends_with_byte b'.' prefix && not (contains (without_last prefix) b'.')

unfoldable pub wildcard_matches : Text → Text → Bool
unfolding is_label
wildcard_matches host suffix = is_some_and is_label (strip_suffix suffix host)

-- The suffix of a wildcard name, `*.` taken off.
abbrev pub wildcard_suffix : Text → Option Text
wildcard_suffix = strip_prefix (b'*' ∷ b'.' ∷ [])

-- What an entry offers the host: the length of its suffix, and its owner.
unfoldable pub candidate : Text → Text × Text → Option (ℕ × Text)
unfolding wildcard_matches
candidate host (domain, owner) = elim (wildcard_suffix domain) [
  | none ↦ none
  | some suffix ↦ if wildcard_matches host suffix then some (length suffix, owner) else none
]

-- `max_by_key` takes the later of two elements with one key.
unfoldable pub take_longer : Option (ℕ × Text) → Option (ℕ × Text) → Option (ℕ × Text)
take_longer none rest = rest
take_longer (some a) none = some a
take_longer (some a) (some b) = if leb a.0 b.0 then some b else some a

unfoldable pub longest_match : Text → List (Text × Text) → Option (ℕ × Text)
unfolding candidate take_longer
longest_match host [] = none
longest_match host (e ∷ owners) = take_longer (candidate host e) (longest_match host owners)

abbrev pub matched_owner : Option (ℕ × Text) → Option Text
matched_owner none = none
matched_owner (some (size, owner)) = some owner

unfoldable pub certificate_for_host : HashMap Text Text → Text → Option Text
unfolding longest_match
certificate_for_host owners host =
    or_else (HashMap.get host owners) (matched_owner (longest_match host owners.entries))
