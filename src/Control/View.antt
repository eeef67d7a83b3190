-- ===== src/Control/View.antt =====
-- crates/gaterust-proxy/src/api_model.rs: the proxy configuration without its secrets, as the control
-- plane shows it.
pub mod Secrets
use gate_rust.Common.{◌≡◌, refl, Bool, Option, none, some, List, [], ◌∷◌, map, is_some}
use gate_rust.Common.Text.{Text}
use gate_rust.Proxy.Config.{
  ProxyListenerConfig, AcmeProvider, AcmeEnvironment, KeyAlgorithm, AcmeAccountConfig, DnsProvider,
  DnsAccountConfig, CertificateConfig, RouteConfig, ProxyConfig,
}

pub record AcmeAccountView : Type 0 where
  pub id : Text
  pub name : Text
  pub provider : AcmeProvider
  pub environment : AcmeEnvironment
  pub email : Text
  pub key_algorithm : KeyAlgorithm
  pub eab_key_id : Option Text
  pub eab_hmac_key_configured : Bool

pub record DnsAccountView : Type 0 where
  pub id : Text
  pub name : Text
  pub provider : DnsProvider
  pub api_token_configured : Bool
  pub access_key_configured : Bool
  pub secret_key_configured : Bool

pub record ProxyConfigView : Type 0 where
  pub proxy : ProxyListenerConfig
  pub acme_accounts : List AcmeAccountView
  pub dns_accounts : List DnsAccountView
  pub certificates : List CertificateConfig
  pub routes : List RouteConfig

unfoldable pub view_acme : AcmeAccountConfig → AcmeAccountView
view_acme account = record {
  id = account.id;
  name = account.name;
  provider = account.provider;
  environment = account.environment;
  email = account.email;
  key_algorithm = account.key_algorithm;
  eab_key_id = account.eab_key_id;
  eab_hmac_key_configured = is_some account.eab_hmac_key;
}

unfoldable pub view_dns : DnsAccountConfig → DnsAccountView
view_dns account = record {
  id = account.id;
  name = account.name;
  provider = account.provider;
  api_token_configured = is_some account.api_token;
  access_key_configured = is_some account.access_key;
  secret_key_configured = is_some account.secret_key;
}

-- `ProxyConfigView::from`
unfoldable pub view : ProxyConfig → ProxyConfigView
unfolding view_acme view_dns
view config = record {
  proxy = config.proxy;
  acme_accounts = map view_acme config.acme_accounts;
  dns_accounts = map view_dns config.dns_accounts;
  certificates = config.certificates;
  routes = config.routes;
}
