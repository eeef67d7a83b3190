-- ===== src/Proxy/Reading.antt =====
-- What `ProxyConfig::read` of crates/gaterust-proxy/src/config.rs gives for a text.
use gate_rust.Common.{◌≡◌, refl, Option, some, arith}
use gate_rust.Common.Text.{Text}
use gate_rust.Common.Result.{Result, ok, err, bind-eq-ok}
use gate_rust.Proxy.Config.{ProxyConfig}
use gate_rust.Proxy.Fields.{ConfigError, UriParts}
use gate_rust.Proxy.Validation.{validate}
use gate_rust.Proxy.Validation.Accepted.{ProxyIsValid, validate-ProxyIsValid}
use gate_rust.Proxy.Migration.{LegacyProxyConfig, invalid, parse_either, read}

module _ (parse : Text → Option ProxyConfig) (parse_legacy : Text → Option LegacyProxyConfig)
    (parse_uri : Text → Option UriParts) where
  invalid_sound :
      (r : Result ConfigError ProxyConfig) (stored : ProxyConfig)
      → invalid parse parse_legacy parse_uri r ≡ ok stored
      → r ≡ ok stored
  invalid_sound (ok config) stored h = ground arith
  invalid_sound (err e) stored h = absurd (ground arith)

  pub read_sound :
      (content : Text) (stored : ProxyConfig)
      → read parse parse_legacy parse_uri content ≡ ok stored
      → (config : ProxyConfig) × (parse_either parse parse_legacy parse_uri content ≡ ok config)
        × (validate parse_uri config ≡ ok stored)
  unfolding read
  read_sound content stored h =
      let (config, parsed, rest) =
        bind-eq-ok (parse_either parse parse_legacy parse_uri content) _ h in
      (config, parsed, invalid_sound (validate parse_uri config) stored rest)

  parse_either-eq-ok :
      (content : Text) (config : ProxyConfig)
      → parse content ≡ some config
      → parse_either parse parse_legacy parse_uri content ≡ ok config
  unfolding parse_either
  parse_either-eq-ok content config h = rw (h, parse_either) refl

  -- A text of the present format is validated as it stands.
  pub read_current :
      (content : Text) (config stored : ProxyConfig)
      → read parse parse_legacy parse_uri content ≡ ok stored
      → parse content ≡ some config
      → validate parse_uri config ≡ ok stored
  read_current content config stored h parsed =
      let (other, either, valid) = read_sound content stored h in
      let same = parse_either-eq-ok content config parsed in
      let equal : other ≡ config = ground arith in rw (← equal) valid

  -- Whatever text is read, of the present format or of the one before, the configuration is valid.
  pub read-ProxyIsValid :
      (content : Text) (stored : ProxyConfig)
      → read parse parse_legacy parse_uri content ≡ ok stored
      → ProxyIsValid stored
  read-ProxyIsValid content stored h =
      let (config, _, valid) = read_sound content stored h in
      validate-ProxyIsValid parse_uri config stored valid
