-- ===== src/Proxy/Validation/Tests.antt =====
-- `ProxyConfig::validate` of crates/gaterust-proxy/src/config.rs on concrete configurations.
use gate_rust.Common.{◌≡◌, refl, true, false, Option, none, some, [], ◌∷◌}
use gate_rust.Common.Text.{Text, ascii}
use gate_rust.Common.Net.{ipv4}
use gate_rust.Common.Result.{ok, err}
use gate_rust.HashMap
use gate_rust.Proxy.Config.{
  lets_encrypt, production, ec256, cloudflare, AcmeAccountConfig, DnsAccountConfig,
  CertificateConfig, dns_account, RouteConfig, ProxyConfig,
}
use gate_rust.Proxy.Fields.{UriParts, host_not_covered}
use gate_rust.Proxy.Validation.{validate}
use gate_rust.Proxy.Validation.Accepted.{ProxyIsValid, validate-ProxyIsValid}

-- A parser that knows one form of URI.
abbrev any_http : Text → Option UriParts
any_http value =
    some (record { scheme = some (ascii "http"); has_authority = true; has_query = false })

abbrev account : AcmeAccountConfig
account = record {
  id = ascii "le";
  name = ascii "Let's Encrypt";
  provider = lets_encrypt;
  environment = production;
  email = ascii "a@b.c";
  key_algorithm = ec256;
  eab_key_id = none;
  eab_hmac_key = none;
}

abbrev zone : DnsAccountConfig
zone = record {
  id = ascii "cf";
  name = ascii "zone";
  provider = cloudflare;
  api_token = some (ascii "t");
  access_key = none;
  secret_key = none;
}

abbrev certificate : Text → CertificateConfig
certificate wildcard = record {
  id = ascii "c1";
  name = ascii "main";
  domains = wildcard ∷ ascii "a.de." ∷ [];
  acme_account_id = ascii "le";
  validation = some (dns_account (ascii "cf"));
  auto_renew = true;
  migration_error = none;
}

abbrev route : Text → RouteConfig
route host = record {
  name = ascii "web";
  host = host;
  path_prefix = ascii "/";
  upstream = ascii "http://127.0.0.1:3000";
  certificate_id = some (ascii "c1");
}

abbrev config : Text → Text → ProxyConfig
config wildcard host = record {
  proxy = record {
    http_bind = record { ip = ipv4 0; port = 80; flowinfo = 0; scope_id = 0 };
    https_bind = record { ip = ipv4 0; port = 443; flowinfo = 0; scope_id = 0 };
    cache_dir = ascii "/acme";
    max_connections = 2048;
  };
  acme_accounts = account ∷ [];
  dns_accounts = zone ∷ [];
  certificates = certificate wildcard ∷ [];
  routes = route host ∷ [];
}

-- The wildcard covers one label, not two.
deep_host_is_refused :
    validate any_http (config (ascii "*.a.de") (ascii "x.y.a.de")) ≡ err host_not_covered
unfolding validate HashMap.get HashMap.empty HashMap.insert
deep_host_is_refused = refl

-- The names are stored in lower case, and without a dot at the end.
abbrev stored : ProxyConfig
stored =
    let c = config (ascii "*.a.de") (ascii "w.a.de") in
    record c {
      certificates =
          record (certificate (ascii "*.a.de")) { domains = ascii "*.a.de" ∷ ascii "a.de" ∷ [] }
          ∷ [];
    }

validate_stores : validate any_http (config (ascii "*.A.de") (ascii " W.a.de.")) ≡ ok stored
unfolding validate HashMap.get HashMap.empty HashMap.insert
validate_stores = refl

validate-ProxyIsValid_example : ProxyIsValid stored
validate-ProxyIsValid_example =
    validate-ProxyIsValid any_http (config (ascii "*.A.de") (ascii " W.a.de.")) stored
      validate_stores
