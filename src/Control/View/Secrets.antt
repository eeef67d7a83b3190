-- ===== src/Control/View/Secrets.antt =====
-- What `ProxyConfigView::from` of crates/gaterust-proxy/src/api_model.rs tells of the secrets.
use gate_rust.Common.{
  ◌≡◌, ◌↔◌, refl, Bool, true, Option, none, some, List, [], ◌∷◌, map, is_some, arith, Pairwise,
  no_pairs, pair,
}
use gate_rust.Common.Text.{Text}
use gate_rust.Proxy.Config.{AcmeAccountConfig, DnsAccountConfig, ProxyConfig}
use gate_rust.Control.View.{
  AcmeAccountView, DnsAccountView, ProxyConfigView, view_acme, view_dns, view,
}

abbrev pub changed : (Text → Text) → Option Text → Option Text
changed f none = none
changed f (some secret) = some (f secret)

-- The configuration with other secrets in the same places.
abbrev pub change_acme : (Text → Text) → AcmeAccountConfig → AcmeAccountConfig
change_acme f a = record a { eab_hmac_key = changed f a.eab_hmac_key }

abbrev pub change_dns : (Text → Text) → DnsAccountConfig → DnsAccountConfig
change_dns f a = record a {
  api_token = changed f a.api_token;
  access_key = changed f a.access_key;
  secret_key = changed f a.secret_key;
}

abbrev pub change_secrets : (Text → Text) → ProxyConfig → ProxyConfig
change_secrets f config = record config {
  acme_accounts = map (change_acme f) config.acme_accounts;
  dns_accounts = map (change_dns f) config.dns_accounts;
}

is_some-changed :
    (f : Text → Text) (secret : Option Text) → is_some (changed f secret) ≡ is_some secret
is_some-changed f none = refl
is_some-changed f (some secret) = refl

view_acme_same :
    (f : Text → Text) (accounts : List AcmeAccountConfig)
    → map view_acme (map (change_acme f) accounts) ≡ map view_acme accounts
unfolding view_acme
view_acme_same f [] = refl
view_acme_same f (a ∷ accounts) =
    rw (is_some-changed f a.eab_hmac_key) (rw (view_acme_same f accounts) refl)

view_dns_same :
    (f : Text → Text) (accounts : List DnsAccountConfig)
    → map view_dns (map (change_dns f) accounts) ≡ map view_dns accounts
unfolding view_dns
view_dns_same f [] = refl
view_dns_same f (a ∷ accounts) =
    rw
      (
        is_some-changed f a.api_token,
        is_some-changed f a.access_key,
        is_some-changed f a.secret_key,
      )
      (rw (view_dns_same f accounts) refl)

-- The flag says whether there is a secret.
abbrev pub Says : Bool → Option Text → Type 0
Says flag secret = (flag ≡ true) ↔ ((text : Text) × (secret ≡ some text))

pub record AcmeIsShown (account : AcmeAccountConfig) (shown : AcmeAccountView) : Type 0 where
  pub id : shown.id ≡ account.id
  pub name : shown.name ≡ account.name
  pub provider : shown.provider ≡ account.provider
  pub environment : shown.environment ≡ account.environment
  pub key_algorithm : shown.key_algorithm ≡ account.key_algorithm
  pub email : shown.email ≡ account.email
  pub eab_key_id : shown.eab_key_id ≡ account.eab_key_id
  pub eab_hmac_key : Says shown.eab_hmac_key_configured account.eab_hmac_key

pub record DnsIsShown (account : DnsAccountConfig) (shown : DnsAccountView) : Type 0 where
  pub id : shown.id ≡ account.id
  pub name : shown.name ≡ account.name
  pub provider : shown.provider ≡ account.provider
  pub api_token : Says shown.api_token_configured account.api_token
  pub access_key : Says shown.access_key_configured account.access_key
  pub secret_key : Says shown.secret_key_configured account.secret_key

-- Every account is shown at its place, with a flag for each of its secrets; other secrets in the same
-- places give the same view.
pub record IsShown (config : ProxyConfig) (shown : ProxyConfigView) : Type 0 where
  pub proxy : shown.proxy ≡ config.proxy
  pub acme : Pairwise AcmeIsShown config.acme_accounts shown.acme_accounts
  pub dns : Pairwise DnsIsShown config.dns_accounts shown.dns_accounts
  pub certificates : shown.certificates ≡ config.certificates
  pub routes : shown.routes ≡ config.routes
  pub secret : (f : Text → Text) → view (change_secrets f config) ≡ shown

is_some-Says : (secret : Option Text) → Says (is_some secret) secret
is_some-Says none = (λ h. absurd (ground arith), λ (text, h). absurd (ground arith))
is_some-Says (some text) = (λ h. (text, refl), λ h. refl)

acme_shown :
    (accounts : List AcmeAccountConfig) → Pairwise AcmeIsShown accounts (map view_acme accounts)
unfolding view_acme
acme_shown [] = no_pairs
acme_shown (a ∷ accounts) =
    pair a (view_acme a) accounts (map view_acme accounts)
      (record {
        id = refl;
        name = refl;
        provider = refl;
        environment = refl;
        key_algorithm = refl;
        email = refl;
        eab_key_id = refl;
        eab_hmac_key = is_some-Says a.eab_hmac_key;
      })
      (acme_shown accounts)

dns_shown :
    (accounts : List DnsAccountConfig) → Pairwise DnsIsShown accounts (map view_dns accounts)
unfolding view_dns
dns_shown [] = no_pairs
dns_shown (a ∷ accounts) =
    pair a (view_dns a) accounts (map view_dns accounts)
      (record {
        id = refl;
        name = refl;
        provider = refl;
        api_token = is_some-Says a.api_token;
        access_key = is_some-Says a.access_key;
        secret_key = is_some-Says a.secret_key;
      })
      (dns_shown accounts)

view-change_secrets :
    (f : Text → Text) (config : ProxyConfig) → view (change_secrets f config) ≡ view config
unfolding view
view-change_secrets f config =
    rw (view_acme_same f config.acme_accounts, view_dns_same f config.dns_accounts) refl

-- The view has every account at its place, and for each of its secrets a flag that is set exactly if
-- the account has that secret; other secrets in the same places give the same view, so that it says
-- nothing else of them.
pub view-IsShown : (config : ProxyConfig) → IsShown config (view config)
unfolding view
view-IsShown config = record {
  proxy = refl;
  acme = acme_shown config.acme_accounts;
  dns = dns_shown config.dns_accounts;
  certificates = refl;
  routes = refl;
  secret = λ f. view-change_secrets f config;
}
