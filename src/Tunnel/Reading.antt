-- ===== src/Tunnel/Reading.antt =====
-- `ServerConfig::read` of crates/gaterust-tunnel/src/config.rs after the file is read. The parsers of
-- TOML and of IP addresses are parameters.
use gate_rust.Common.{◌≡◌, Option, none, some, arith, Option-cases, inl, inr}
use gate_rust.Common.Text.{Text}
use gate_rust.Common.Net.{IpAddr}
use gate_rust.Common.Result.{Result, ok, err}
use gate_rust.Tunnel.Config.{ServerConfig}
use gate_rust.Tunnel.Validation.{ConfigError, validate}

pub data ReadError : Type 0 where
  parse_config : ReadError
  invalid_config : ConfigError → ReadError

module _ (parse : Text → Option ServerConfig) (parse_ip : Text → Option IpAddr) where
  abbrev pub accepted : ServerConfig → Result ConfigError (Unit {0}) → Result ReadError ServerConfig
  accepted config (ok done) = ok config
  accepted config (err e) = err (invalid_config e)

  unfoldable pub read : Text → Result ReadError ServerConfig
  unfolding validate
  read content = elim (parse content) [
    | none ↦ err parse_config
    | some config ↦ accepted config (validate parse_ip config)
  ]

  accepted_sound :
      (config stored : ServerConfig) (r : Result ConfigError (Unit {0}))
      → accepted config r ≡ ok stored
      → (r ≡ ok tt) × (config ≡ stored)
  accepted_sound config stored (ok done) h = (ground arith, ground arith)
  accepted_sound config stored (err e) h = absurd (ground arith)

  pub read_sound :
      (content : Text) (stored : ServerConfig)
      → read content ≡ ok stored
      → (parse content ≡ some stored) × (validate parse_ip stored ≡ ok tt)
  unfolding read
  read_sound content stored h = elim (Option-cases (parse content)) [
    | inl unparsed ↦ absurd (ground arith)
    | inr (config, parsed) ↦
        let (valid, same) =
          accepted_sound config stored (validate parse_ip config) (rw (parsed, read) at h) in
        (rw (← same) parsed, rw (← same) valid)
  ]
