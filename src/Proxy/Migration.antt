-- ===== src/Proxy/Migration.antt =====
-- crates/gaterust-proxy/src/config.rs: the configuration format before this one, its migration, and
-- `ProxyConfig::read` after the file is read. The TOML parsers and the URI parser are parameters.
use gate_rust.Common.{
  ℕ, Bool, Option, none, some, List, [], ◌∷◌, ◌++◌, map, if◌then◌else◌, list_eq, ℕ_eq,
}
use gate_rust.Common.Text.{Text, ascii}
use gate_rust.Common.Result.{Result, ok, err, ◌>>=◌}
use gate_rust.HashMap
use gate_rust.HashMap.{HashMap}
use gate_rust.Proxy.Config.{
  ProxyListenerConfig, AcmeProvider, lets_encrypt, google_cloud, production, staging, ec256,
  AcmeAccountConfig, cloudflare, DnsAccountConfig, CertificateValidation, dns_account,
  CertificateConfig, RouteConfig, ProxyConfig,
}
use gate_rust.Proxy.Fields.{ConfigError, UriParts}
use gate_rust.Proxy.Validation.{validate}

-- What `ProxyConfig::read` fails with once it has the text.
pub data ReadError : Type 0 where
  parse_config : ReadError
  unknown_legacy_certificate : Text → Text → ReadError
  invalid_config : ConfigError → ReadError

pub data LegacyIssuer : Type 0 where
  lets_encrypt_issuer google_trust_services : LegacyIssuer

pub data LegacyChallenge : Type 0 where
  http_01 tls_alpn_01 cloudflare_dns_01 : LegacyChallenge

pub record LegacyCertificateConfig : Type 0 where
  pub name : Text
  pub domains : List Text
  pub email : Text
  pub issuer : LegacyIssuer
  pub challenge : LegacyChallenge
  pub is_production : Bool
  pub cloudflare_api_token : Option Text
  pub cloudflare_zone_id : Option Text
  pub google_eab_key_id : Option Text
  pub google_eab_hmac_key : Option Text
  pub dns_propagation_seconds : Option ℕ

pub record LegacyRouteConfig : Type 0 where
  pub name : Text
  pub host : Text
  pub path_prefix : Text
  pub upstream : Text
  pub certificate : Option Text

pub record LegacyProxyConfig : Type 0 where
  pub proxy : ProxyListenerConfig
  pub certificates : List LegacyCertificateConfig
  pub routes : List LegacyRouteConfig

abbrev pub provider_of : LegacyIssuer → AcmeProvider
provider_of lets_encrypt_issuer = lets_encrypt
provider_of google_trust_services = google_cloud

abbrev pub acme_id : Text → Text
acme_id name = ascii "acme-" ++ name

abbrev pub dns_id : Text → Text
dns_id name = ascii "dns-" ++ name

unfoldable pub migrated_account : LegacyCertificateConfig → AcmeAccountConfig
migrated_account legacy = record {
  id = acme_id legacy.name;
  name = legacy.name ++ ascii " ACME";
  provider = provider_of legacy.issuer;
  environment = if legacy.is_production then production else staging;
  email = legacy.email;
  key_algorithm = ec256;
  eab_key_id = legacy.google_eab_key_id;
  eab_hmac_key = legacy.google_eab_hmac_key;
}

-- The DNS accounts that a certificate adds.
unfoldable pub migrated_dns : LegacyChallenge → LegacyCertificateConfig → List DnsAccountConfig
migrated_dns cloudflare_dns_01 legacy =
    record {
      id = dns_id legacy.name;
      name = legacy.name ++ ascii " Cloudflare";
      provider = cloudflare;
      api_token = legacy.cloudflare_api_token;
      access_key = none;
      secret_key = none;
    }
    ∷ []
migrated_dns _ legacy = []

abbrev pub migrated_validation : LegacyChallenge → Text → Option CertificateValidation
migrated_validation cloudflare_dns_01 name = some (dns_account (dns_id name))
migrated_validation _ name = none

-- The two messages, with their Chinese text in UTF-8.
abbrev pub config_uses : Text
config_uses =
    230 ∷ 151 ∷ 167 ∷ 233 ∷ 133 ∷ 141 ∷ 231 ∷ 189 ∷ 174 ∷ 228 ∷ 189 ∷ 191 ∷ 231 ∷ 148 ∷ 168 ∷ 32
    ∷ []

abbrev pub choose_again : Text
choose_again =
    (239 ∷ 188 ∷ 140 ∷ 232 ∷ 175 ∷ 183 ∷ 233 ∷ 135 ∷ 141 ∷ 230 ∷ 150 ∷ 176 ∷ 233 ∷ 128 ∷ 137 ∷ 230
      ∷ 139 ∷ 169 ∷ [])
    ++ ascii " DNS "
    ++ (232 ∷ 180 ∷ 166 ∷ 230 ∷ 136 ∷ 183 ∷ 230 ∷ 136 ∷ 150 ∷ 230 ∷ 137 ∷ 139 ∷ 229 ∷ 138 ∷ 168
        ∷ 232 ∷ 167 ∷ 163 ∷ 230 ∷ 158 ∷ 144 ∷ [])

abbrev pub migration_message : LegacyChallenge → Option Text
migration_message cloudflare_dns_01 = none
migration_message http_01 = some (config_uses ++ ascii "HTTP-01" ++ choose_again)
migration_message tls_alpn_01 = some (config_uses ++ ascii "TLS-ALPN-01" ++ choose_again)

unfoldable pub migrated_certificate : LegacyCertificateConfig → CertificateConfig
migrated_certificate legacy = record {
  id = legacy.name;
  name = legacy.name;
  domains = legacy.domains;
  acme_account_id = acme_id legacy.name;
  validation = migrated_validation legacy.challenge legacy.name;
  auto_renew = Bool.false;
  migration_error = migration_message legacy.challenge;
}

unfoldable pub certificate_ids_of : List LegacyCertificateConfig → HashMap Text Text
unfolding HashMap.collect
certificate_ids_of certificates =
    HashMap.collect (map (λ (c : LegacyCertificateConfig). (c.name, c.name)) certificates)

abbrev pub all_dns : List LegacyCertificateConfig → List DnsAccountConfig
unfolding migrated_dns
all_dns [] = []
all_dns (legacy ∷ certificates) = migrated_dns legacy.challenge legacy ++ all_dns certificates

unfoldable pub migrated_reference :
    HashMap Text Text → LegacyRouteConfig → Option Text → Result ReadError (Option Text)
migrated_reference ids route none = ok none
migrated_reference ids route (some name) = elim (HashMap.get name ids) [
  | some id ↦ ok (some id)
  | none ↦ err (unknown_legacy_certificate route.name name)
]

unfoldable pub migrate_routes :
    HashMap Text Text → List LegacyRouteConfig → Result ReadError (List RouteConfig)
unfolding migrated_reference
migrate_routes ids [] = ok []
migrate_routes ids (route ∷ routes) =
    migrated_reference ids route route.certificate >>= (λ certificate_id.
      migrate_routes ids routes >>= (λ rest. ok (
        record {
          name = route.name;
          host = route.host;
          path_prefix = route.path_prefix;
          upstream = route.upstream;
          certificate_id = certificate_id;
        }
        ∷ rest)))

-- `LegacyProxyConfig::migrate`
unfoldable pub migrate : LegacyProxyConfig → Result ReadError ProxyConfig
unfolding migrated_account migrated_dns migrated_certificate certificate_ids_of migrate_routes
migrate legacy =
    migrate_routes (certificate_ids_of legacy.certificates) legacy.routes >>= (λ routes.
      ok (record {
        proxy = legacy.proxy;
        acme_accounts = map migrated_account legacy.certificates;
        dns_accounts = all_dns legacy.certificates;
        certificates = map migrated_certificate legacy.certificates;
        routes = routes;
      }))

module _ (parse : Text → Option ProxyConfig) (parse_legacy : Text → Option LegacyProxyConfig)
    (parse_uri : Text → Option UriParts) where
  abbrev pub invalid : {A : Type 0} → Result ConfigError A → Result ReadError A
  invalid (ok a) = ok a
  invalid (err e) = err (invalid_config e)

  unfoldable pub parse_either : Text → Result ReadError ProxyConfig
  unfolding migrate
  parse_either content = elim (parse content) [
    | some config ↦ ok config
    | none ↦ elim (parse_legacy content) [ some legacy ↦ migrate legacy | none ↦ err parse_config ]
  ]

  -- `ProxyConfig::read`, of the file's text
  unfoldable pub read : Text → Result ReadError ProxyConfig
  unfolding parse_either validate
  read content = parse_either content >>= (λ config. invalid (validate parse_uri config))
