-- ===== src/Proxy/Migrated/Tests.antt =====
-- `LegacyProxyConfig::migrate` of crates/gaterust-proxy/src/config.rs on concrete configurations.
use gate_rust.Common.{◌≡◌, refl, true, none, some, [], ◌∷◌}
use gate_rust.Common.Text.{Text, ascii}
use gate_rust.Common.Net.{ipv4}
use gate_rust.Common.Result.{err}
use gate_rust.HashMap
use gate_rust.Proxy.Migration.{
  lets_encrypt_issuer, LegacyChallenge, http_01, cloudflare_dns_01, LegacyCertificateConfig,
  LegacyRouteConfig, LegacyProxyConfig, unknown_legacy_certificate, migrate,
}
use gate_rust.Proxy.Migrated.Outcome.{IsMigrationOutcome, migrate-IsMigrationOutcome}

abbrev certificate : Text → LegacyChallenge → LegacyCertificateConfig
certificate name challenge = record {
  name = name;
  domains = ascii "a.de" ∷ [];
  email = ascii "a@b.c";
  issuer = lets_encrypt_issuer;
  challenge = challenge;
  is_production = true;
  cloudflare_api_token = some (ascii "t");
  cloudflare_zone_id = none;
  google_eab_key_id = none;
  google_eab_hmac_key = none;
  dns_propagation_seconds = some 60;
}

abbrev route : Text → LegacyRouteConfig
route name = record {
  name = ascii "web";
  host = ascii "a.de";
  path_prefix = ascii "/";
  upstream = ascii "http://127.0.0.1:3000";
  certificate = some name;
}

abbrev old_config : Text → LegacyProxyConfig
old_config name = record {
  proxy = record {
    http_bind = record { ip = ipv4 0; port = 80; flowinfo = 0; scope_id = 0 };
    https_bind = record { ip = ipv4 0; port = 443; flowinfo = 0; scope_id = 0 };
    cache_dir = ascii "/acme";
    max_connections = 2048;
  };
  certificates =
      certificate (ascii "main") cloudflare_dns_01 ∷ certificate (ascii "b") http_01 ∷ [];
  routes = route name ∷ [];
}

unknown_certificate_is_refused :
    migrate (old_config (ascii "c")) ≡ err (unknown_legacy_certificate (ascii "web") (ascii "c"))
unfolding migrate HashMap.get HashMap.empty HashMap.insert
unknown_certificate_is_refused = refl

migrate-IsMigrationOutcome_example :
    IsMigrationOutcome (old_config (ascii "b")) (migrate (old_config (ascii "b")))
migrate-IsMigrationOutcome_example = migrate-IsMigrationOutcome (old_config (ascii "b"))
