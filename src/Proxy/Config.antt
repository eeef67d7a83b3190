-- ===== src/Proxy/Config.antt =====
-- crates/gaterust-proxy/src/config.rs: the configuration types. A secret is the text that it holds.
use gate_rust.Common.{ℕ, Bool, true, false, Option, List}
use gate_rust.Common.Text.{Text, ascii}
use gate_rust.Common.Net.{SocketAddr}

pub record ProxyListenerConfig : Type 0 where
  pub http_bind : SocketAddr
  pub https_bind : SocketAddr
  pub cache_dir : Text
  pub max_connections : ℕ

pub data AcmeProvider : Type 0 where
  lets_encrypt google_cloud : AcmeProvider

pub data AcmeEnvironment : Type 0 where
  production staging : AcmeEnvironment

pub data KeyAlgorithm : Type 0 where
  ec256 rsa2048 : KeyAlgorithm

pub record AcmeAccountConfig : Type 0 where
  pub id : Text
  pub name : Text
  pub provider : AcmeProvider
  pub environment : AcmeEnvironment
  pub email : Text
  pub key_algorithm : KeyAlgorithm
  pub eab_key_id : Option Text
  pub eab_hmac_key : Option Text

pub data DnsProvider : Type 0 where
  cloudflare go_daddy aliyun tencent_cloud : DnsProvider

pub record DnsAccountConfig : Type 0 where
  pub id : Text
  pub name : Text
  pub provider : DnsProvider
  pub api_token : Option Text
  pub access_key : Option Text
  pub secret_key : Option Text

pub data CertificateValidation : Type 0 where
  dns_account : Text → CertificateValidation
  manual : CertificateValidation

pub record CertificateConfig : Type 0 where
  pub id : Text
  pub name : Text
  pub domains : List Text
  pub acme_account_id : Text
  pub validation : Option CertificateValidation
  pub auto_renew : Bool
  pub migration_error : Option Text

pub record RouteConfig : Type 0 where
  pub name : Text
  pub host : Text
  pub path_prefix : Text
  pub upstream : Text
  pub certificate_id : Option Text

pub record ProxyConfig : Type 0 where
  pub proxy : ProxyListenerConfig
  pub acme_accounts : List AcmeAccountConfig
  pub dns_accounts : List DnsAccountConfig
  pub certificates : List CertificateConfig
  pub routes : List RouteConfig

abbrev pub acme_provider_beq : AcmeProvider → AcmeProvider → Bool
acme_provider_beq lets_encrypt lets_encrypt = true
acme_provider_beq google_cloud google_cloud = true
acme_provider_beq _ _ = false

abbrev pub dns_provider_beq : DnsProvider → DnsProvider → Bool
dns_provider_beq cloudflare cloudflare = true
dns_provider_beq go_daddy go_daddy = true
dns_provider_beq aliyun aliyun = true
dns_provider_beq tencent_cloud tencent_cloud = true
dns_provider_beq _ _ = false

-- `AcmeAccountConfig::directory_url`
unfoldable pub directory_url : AcmeProvider → AcmeEnvironment → Text
directory_url lets_encrypt production = ascii "https://acme-v02.api.letsencrypt.org/directory"
directory_url lets_encrypt staging = ascii "https://acme-staging-v02.api.letsencrypt.org/directory"
directory_url google_cloud production = ascii "https://dv.acme-v02.api.pki.goog/directory"
directory_url google_cloud staging = ascii "https://dv.acme-v02.test-api.pki.goog/directory"
