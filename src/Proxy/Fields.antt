-- ===== src/Proxy/Fields.antt =====
-- crates/gaterust-proxy/src/config.rs: the tests of single fields, of host names and of accounts.
use gate_rust.Common.{
  Bool, not, ◌&&◌, ◌||◌, Option, none, some, List, ◌∷◌, ◌==◌, ℕ_eq, list_eq, option_eq, pair_eq,
  contains, ltb, if◌then◌else◌, length, all,
}
use gate_rust.Common.Text.{
  Text, ascii, is_empty, is_ascii_alphanumeric, starts_with_byte, ends_with_byte,
}
use gate_rust.Common.Trim.{trim, trim_end_matches, to_ascii_lowercase, split}
use gate_rust.Common.Net.{addr_eq}
use gate_rust.Common.Result.{Result, ok, err, ◌>>◌, require}
use gate_rust.Proxy.Hosts.{wildcard_suffix}
use gate_rust.Proxy.Config.{
  AcmeProvider, lets_encrypt, google_cloud, AcmeAccountConfig, DnsProvider, cloudflare,
  DnsAccountConfig,
}

-- `ProxyError::InvalidConfig` by its cause.
pub data ConfigError : Type 0 where
  same_bind no_connections too_many_entries invalid_id invalid_name repeated : ConfigError
  invalid_email secret_missing secret_unexpected unknown_acme_account : ConfigError
  unknown_dns_account manual_renewal no_validation invalid_domain_count : ConfigError
  invalid_domain domain_repeated domain_owned invalid_path_prefix : ConfigError
  invalid_upstream unknown_certificate host_not_covered : ConfigError

-- What `validate_upstream` asks of a parsed URI.
pub record UriParts : Type 0 where
  pub scheme : Option Text
  pub has_authority : Bool
  pub has_query : Bool

-- One label of a domain.
unfoldable pub is_domain_label : Text → Bool
is_domain_label label =
    not (is_empty label)
    && (not (ltb 63 (length label))
        && (not (starts_with_byte b'-' label)
            && (not (ends_with_byte b'-' label)
                && all (λ b. is_ascii_alphanumeric b || b == b'-') label)))

-- `strip_prefix("*.").unwrap_or(&value)`
abbrev pub plain_or : Option Text → Text → Text
plain_or none value = value
plain_or (some plain) value = plain

unfoldable pub is_domain : Text → Bool
unfolding is_domain_label
is_domain value =
    let plain = plain_or (wildcard_suffix value) value in
    not (is_empty plain)
    && (not (ltb 253 (length plain))
        && (contains plain b'.' && all is_domain_label (split b'.' plain)))

unfoldable pub normalize : Text → Text
unfolding trim
normalize value = to_ascii_lowercase (trim_end_matches b'.' (trim value))

unfoldable pub normalize_domain : Text → Result ConfigError Text
unfolding normalize is_domain
normalize_domain value =
    if is_domain (normalize value) then ok (normalize value) else err invalid_domain

unfoldable pub normalize_route_host : Text → Result ConfigError Text
unfolding normalize normalize_domain
normalize_route_host value =
    if normalize value == ascii "localhost"
    then ok (normalize value)
    else normalize_domain (normalize value)

unfoldable pub validate_id : Text → Result ConfigError (Unit {0})
validate_id id =
    require
      (not (is_empty id || (ltb 128 (length id) || (id == ascii "." || id == ascii "..")))
        && all (λ b. is_ascii_alphanumeric b || (b == b'-' || (b == b'_' || b == b'.'))) id)
      invalid_id

unfoldable pub validate_display_name : Text → Result ConfigError (Unit {0})
unfolding trim
validate_display_name name =
    require (not (is_empty (trim name) || ltb 128 (length name))) invalid_name

unfoldable pub insert_unique : List Text → Text → Result ConfigError (List Text)
insert_unique values value = if contains values value then err repeated else ok (value ∷ values)

unfoldable pub validate_path_prefix : Text → Result ConfigError (Unit {0})
validate_path_prefix value =
    require (starts_with_byte b'/' value && not (contains value b'?' || contains value b'#'))
      invalid_path_prefix

unfoldable pub require_secret : Option Text → Result ConfigError (Unit {0})
require_secret none = err secret_missing
require_secret (some value) = if is_empty value then err secret_missing else ok tt

unfoldable pub reject_secret : Option Text → Result ConfigError (Unit {0})
reject_secret none = ok tt
reject_secret (some value) = err secret_unexpected

validate_eab : AcmeProvider → AcmeAccountConfig → Result ConfigError (Unit {0})
unfolding require_secret reject_secret
validate_eab lets_encrypt a = reject_secret a.eab_key_id >> reject_secret a.eab_hmac_key
validate_eab google_cloud a = require_secret a.eab_key_id >> require_secret a.eab_hmac_key

-- `AcmeAccountConfig::validate`
unfoldable pub validate_acme_account : AcmeAccountConfig → Result ConfigError (Unit {0})
unfolding validate_eab
validate_acme_account a =
    require (not (is_empty a.email || ltb 254 (length a.email)) && contains a.email b'@')
      invalid_email
    >> validate_eab a.provider a

validate_keys : DnsProvider → DnsAccountConfig → Result ConfigError (Unit {0})
unfolding require_secret reject_secret
validate_keys cloudflare a =
    require_secret a.api_token >> (reject_secret a.access_key >> reject_secret a.secret_key)
validate_keys _ a =
    reject_secret a.api_token >> (require_secret a.access_key >> require_secret a.secret_key)

-- `DnsAccountConfig::validate`
unfoldable pub validate_dns_account : DnsAccountConfig → Result ConfigError (Unit {0})
unfolding validate_keys
validate_dns_account a = validate_keys a.provider a
