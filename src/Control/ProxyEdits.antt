-- ===== src/Control/ProxyEdits.antt =====
-- The changes to the proxy configuration in crates/gaterust-control/src/store.rs: what each method
-- tests first, and what it gives to `mutate_proxy`.
pub mod References
pub mod Secrets
pub mod DnsSecrets
pub mod AcmeSecrets
use gate_rust.Common.{
  Bool, true, false, not, ◌&&◌, Option, none, some, List, [], ◌∷◌, ◌++◌, ◌==◌, list_eq, option_eq,
  ℕ_eq, if◌then◌else◌, is_some, any, or_else,
}
use gate_rust.Common.Text.{Text, ascii}
use gate_rust.Common.Net.{ipv4_socket}
use gate_rust.Common.Result.{Result, ok, err, ◌>>=◌, ◌>>◌, require}
use gate_rust.Proxy.Config.{
  ProxyListenerConfig, AcmeProvider, google_cloud, AcmeEnvironment, KeyAlgorithm, AcmeAccountConfig,
  DnsProvider, DnsAccountConfig, CertificateValidation, dns_account, manual, CertificateConfig,
  RouteConfig, ProxyConfig, acme_provider_beq, dns_provider_beq,
}
use gate_rust.Control.Errors.{
  ControlError, an_acme_account, a_dns_account, a_certificate, a_route, resource_conflict,
  acme_id_changed, acme_in_use, dns_id_changed, dns_in_use, certificate_migrating,
  certificate_id_changed, certificate_in_use,
}
use gate_rust.Control.Named.{update_first, find_named, replace_named, remove_named}

pub record AcmeAccountRequest : Type 0 where
  pub id : Text
  pub name : Text
  pub provider : AcmeProvider
  pub environment : AcmeEnvironment
  pub email : Text
  pub key_algorithm : KeyAlgorithm
  pub eab_key_id : Option Text
  pub eab_hmac_key : Option Text

pub record DnsAccountRequest : Type 0 where
  pub id : Text
  pub name : Text
  pub provider : DnsProvider
  pub api_token : Option Text
  pub access_key : Option Text
  pub secret_key : Option Text

unfoldable pub default_proxy : ProxyConfig
default_proxy = record {
  proxy = record {
    http_bind = ipv4_socket 0 80;
    https_bind = ipv4_socket 0 443;
    cache_dir = ascii "/var/lib/gaterust/proxy/acme";
    max_connections = 2048;
  };
  acme_accounts = [];
  dns_accounts = [];
  certificates = [];
  routes = [];
}

unfoldable pub acme_account_from_request : AcmeAccountRequest → AcmeAccountConfig
acme_account_from_request request = record {
  id = request.id;
  name = request.name;
  provider = request.provider;
  environment = request.environment;
  email = request.email;
  key_algorithm = request.key_algorithm;
  eab_key_id = request.eab_key_id;
  eab_hmac_key = request.eab_hmac_key;
}

unfoldable pub dns_account_from_request : DnsAccountRequest → DnsAccountConfig
dns_account_from_request request = record {
  id = request.id;
  name = request.name;
  provider = request.provider;
  api_token = request.api_token;
  access_key = request.access_key;
  secret_key = request.secret_key;
}

abbrev pub account_id : AcmeAccountConfig → Text
account_id a = a.id

abbrev pub dns_account_id : DnsAccountConfig → Text
dns_account_id a = a.id

abbrev pub certificate_id_of : CertificateConfig → Text
certificate_id_of c = c.id

abbrev pub route_name : RouteConfig → Text
route_name r = r.name

unfoldable pub set_proxy_listener :
    ProxyListenerConfig → ProxyConfig → Result ControlError ProxyConfig
set_proxy_listener listener config = ok (record config { proxy = listener })

unfoldable pub create_acme_account :
    AcmeAccountRequest → ProxyConfig → Result ControlError ProxyConfig
unfolding acme_account_from_request
create_acme_account request config = ok (record config {
  acme_accounts = config.acme_accounts ++ acme_account_from_request request ∷ [];
})

-- An account with the current one's secret, where the request leaves it out.
unfoldable pub keep_hmac_key : AcmeAccountConfig → AcmeAccountConfig → AcmeAccountConfig
keep_hmac_key current replacement =
    if acme_provider_beq replacement.provider google_cloud
      && (not (is_some replacement.eab_hmac_key) && acme_provider_beq current.provider google_cloud)
    then record replacement { eab_hmac_key = current.eab_hmac_key }
    else replacement

unfoldable pub update_acme_account :
    Text → AcmeAccountRequest → ProxyConfig → Result ControlError ProxyConfig
unfolding acme_account_from_request keep_hmac_key
update_acme_account id request config =
    require (request.id == id) (resource_conflict acme_id_changed)
    >> (find_named account_id config.acme_accounts id an_acme_account >>= (λ current.
        ok (record config {
          acme_accounts =
              update_first (λ (a : AcmeAccountConfig). a.id == id)
                (keep_hmac_key current (acme_account_from_request request)) config.acme_accounts;
        })))

unfoldable pub delete_acme_account : Text → ProxyConfig → Result ControlError ProxyConfig
unfolding remove_named
delete_acme_account id config =
    require (not (any (λ (c : CertificateConfig). c.acme_account_id == id) config.certificates))
      (resource_conflict acme_in_use)
    >> (remove_named config.acme_accounts id an_acme_account account_id
        >>= (λ accounts. ok (record config { acme_accounts = accounts })))

unfoldable pub create_dns_account :
    DnsAccountRequest → ProxyConfig → Result ControlError ProxyConfig
unfolding dns_account_from_request
create_dns_account request config =
    ok (record config {
      dns_accounts = config.dns_accounts ++ dns_account_from_request request ∷ [];
    })

unfoldable pub keep_dns_secrets : DnsAccountConfig → DnsAccountConfig → DnsAccountConfig
keep_dns_secrets current replacement =
    if dns_provider_beq replacement.provider current.provider
    then record replacement {
      api_token = or_else replacement.api_token current.api_token;
      access_key = or_else replacement.access_key current.access_key;
      secret_key = or_else replacement.secret_key current.secret_key;
    }
    else replacement

unfoldable pub update_dns_account :
    Text → DnsAccountRequest → ProxyConfig → Result ControlError ProxyConfig
unfolding dns_account_from_request keep_dns_secrets
update_dns_account id request config =
    require (request.id == id) (resource_conflict dns_id_changed)
    >> (find_named dns_account_id config.dns_accounts id a_dns_account >>= (λ current.
        ok (record config {
          dns_accounts =
              update_first (λ (a : DnsAccountConfig). a.id == id)
                (keep_dns_secrets current (dns_account_from_request request)) config.dns_accounts;
        })))

abbrev pub uses_dns : Text → Option CertificateValidation → Bool
uses_dns id (some (dns_account account)) = account == id
uses_dns id (some manual) = false
uses_dns id none = false

unfoldable pub delete_dns_account : Text → ProxyConfig → Result ControlError ProxyConfig
unfolding remove_named
delete_dns_account id config =
    require (not (any (λ (c : CertificateConfig). uses_dns id c.validation) config.certificates))
      (resource_conflict dns_in_use)
    >> (remove_named config.dns_accounts id a_dns_account dns_account_id
        >>= (λ accounts. ok (record config { dns_accounts = accounts })))

unfoldable pub create_certificate :
    CertificateConfig → ProxyConfig → Result ControlError ProxyConfig
create_certificate c config = ok (record config { certificates = config.certificates ++ c ∷ [] })

unfoldable pub update_certificate :
    Text → CertificateConfig → ProxyConfig → Result ControlError ProxyConfig
update_certificate id c config =
    find_named certificate_id_of config.certificates id a_certificate >>= (λ current.
      ok (record config {
        certificates = update_first (λ (k : CertificateConfig). k.id == id) c config.certificates;
      }))

unfoldable pub delete_certificate : Text → ProxyConfig → Result ControlError ProxyConfig
unfolding remove_named
delete_certificate id config =
    require (not (any (λ (r : RouteConfig). r.certificate_id == some id) config.routes))
      (resource_conflict certificate_in_use)
    >> (remove_named config.certificates id a_certificate certificate_id_of
        >>= (λ certificates. ok (record config { certificates = certificates })))

unfoldable pub create_route : RouteConfig → ProxyConfig → Result ControlError ProxyConfig
create_route r config = ok (record config { routes = config.routes ++ r ∷ [] })

unfoldable pub update_route : Text → RouteConfig → ProxyConfig → Result ControlError ProxyConfig
unfolding replace_named
update_route original_name r config =
    replace_named config.routes original_name r a_route route_name
    >>= (λ routes. ok (record config { routes = routes }))

unfoldable pub delete_route : Text → ProxyConfig → Result ControlError ProxyConfig
unfolding remove_named
delete_route name config =
    remove_named config.routes name a_route route_name
    >>= (λ routes. ok (record config { routes = routes }))

-- The methods with their arguments.
pub data ProxyChange : Type 0 where
  listener_set : ProxyListenerConfig → ProxyChange
  acme_created : AcmeAccountRequest → ProxyChange
  acme_updated : Text → AcmeAccountRequest → ProxyChange
  acme_deleted : Text → ProxyChange
  dns_created : DnsAccountRequest → ProxyChange
  dns_updated : Text → DnsAccountRequest → ProxyChange
  dns_deleted : Text → ProxyChange
  certificate_created : CertificateConfig → ProxyChange
  certificate_updated : Text → CertificateConfig → ProxyChange
  certificate_deleted : Text → ProxyChange
  route_created : RouteConfig → ProxyChange
  route_updated : Text → RouteConfig → ProxyChange
  route_deleted : Text → ProxyChange

-- What `create_certificate` and `update_certificate` test before the file is read.
unfoldable pub test_first : ProxyChange → Result ControlError (Unit {0})
test_first (certificate_created c) =
    require (not (is_some c.migration_error)) (resource_conflict certificate_migrating)
test_first (certificate_updated id c) =
    require (not (is_some c.migration_error)) (resource_conflict certificate_migrating)
    >> require (c.id == id) (resource_conflict certificate_id_changed)
test_first _ = ok tt

unfoldable pub change_proxy : ProxyChange → ProxyConfig → Result ControlError ProxyConfig
unfolding set_proxy_listener create_acme_account update_acme_account delete_acme_account
    create_dns_account update_dns_account delete_dns_account create_certificate update_certificate
    delete_certificate create_route update_route delete_route
change_proxy (listener_set listener) = set_proxy_listener listener
change_proxy (acme_created request) = create_acme_account request
change_proxy (acme_updated id request) = update_acme_account id request
change_proxy (acme_deleted id) = delete_acme_account id
change_proxy (dns_created request) = create_dns_account request
change_proxy (dns_updated id request) = update_dns_account id request
change_proxy (dns_deleted id) = delete_dns_account id
change_proxy (certificate_created c) = create_certificate c
change_proxy (certificate_updated id c) = update_certificate id c
change_proxy (certificate_deleted id) = delete_certificate id
change_proxy (route_created r) = create_route r
change_proxy (route_updated original_name r) = update_route original_name r
change_proxy (route_deleted name) = delete_route name
