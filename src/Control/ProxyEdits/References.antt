-- ===== src/Control/ProxyEdits/References.antt =====
-- What the deletions of crates/gaterust-control/src/store.rs leave of the references between the
-- resources of the proxy configuration.
use gate_rust.Common.{
  ◌≡◌, Bool, true, false, not, Option, none, some, List, [], ◌∷◌, map, arith, ◌==◌, list_eq,
  option_eq, ℕ_eq, contains, All, filter, any, Bool-cases, inl, inr,
}
use gate_rust.Common.Text.{Text}
use gate_rust.Common.Result.{ok, bind-eq-ok, then_ok, require, require_ok}
use gate_rust.Proxy.Config.{
  AcmeAccountConfig, DnsAccountConfig, CertificateValidation, dns_account, manual,
  CertificateConfig, RouteConfig, ProxyConfig,
}
use gate_rust.Control.Errors.{
  resource_conflict, acme_in_use, dns_in_use, certificate_in_use, an_acme_account, a_dns_account,
  a_certificate, a_route,
}
use gate_rust.Control.Named.{remove_named, remove_named_sound, names_left, any-false}
use gate_rust.Control.ProxyEdits.{
  account_id, dns_account_id, certificate_id_of, route_name, uses_dns, ProxyChange, acme_deleted,
  dns_deleted, certificate_deleted, route_deleted, delete_acme_account, delete_dns_account,
  delete_certificate, delete_route, change_proxy,
}

abbrev pub DnsIsKnown : List DnsAccountConfig → Option CertificateValidation → Type 0
DnsIsKnown accounts (some (dns_account id)) = contains (map dns_account_id accounts) id ≡ true
DnsIsKnown accounts (some manual) = Unit
DnsIsKnown accounts none = Unit

abbrev pub CertificateIsKnown : List CertificateConfig → Option Text → Type 0
CertificateIsKnown certificates none = Unit
CertificateIsKnown certificates (some id) = contains (map certificate_id_of certificates) id ≡ true

-- What a certificate or a route refers to is in the configuration.
pub record ReferencesAreKnown (config : ProxyConfig) : Type 0 where
  pub accounts :
      All
        (λ (c : CertificateConfig).
          contains (map account_id config.acme_accounts) c.acme_account_id ≡ true)
        config.certificates
  pub dns :
      All
        (λ (c : CertificateConfig). DnsIsKnown config.dns_accounts c.validation)
        config.certificates
  pub routes :
      All
        (λ (r : RouteConfig). CertificateIsKnown config.certificates r.certificate_id)
        config.routes

accounts_left :
    (id : Text) (accounts : List AcmeAccountConfig) (certificates : List CertificateConfig)
    → All (λ (c : CertificateConfig). (c.acme_account_id == id) ≡ false) certificates
    → All
        (λ (c : CertificateConfig). contains (map account_id accounts) c.acme_account_id ≡ true)
        certificates
    → All
        (λ (c : CertificateConfig).
          contains
            (map account_id (filter (λ a. not (account_id a == id)) accounts))
            c.acme_account_id
          ≡ true)
        certificates
accounts_left id accounts [] free h = tt
accounts_left id accounts (c ∷ certificates) (other, free) (known, h) = (
  names_left account_id id c.acme_account_id accounts other known,
  accounts_left id accounts certificates free h,
)

dns_left_one :
    (id : Text) (accounts : List DnsAccountConfig) (validation : Option CertificateValidation)
    → uses_dns id validation ≡ false
    → DnsIsKnown accounts validation
    → DnsIsKnown (filter (λ a. not (dns_account_id a == id)) accounts) validation
dns_left_one id accounts (some (dns_account used)) other known =
    names_left dns_account_id id used accounts other known
dns_left_one id accounts (some manual) other known = tt
dns_left_one id accounts none other known = tt

dns_left :
    (id : Text) (accounts : List DnsAccountConfig) (certificates : List CertificateConfig)
    → All (λ (c : CertificateConfig). uses_dns id c.validation ≡ false) certificates
    → All (λ (c : CertificateConfig). DnsIsKnown accounts c.validation) certificates
    → All
        (λ (c : CertificateConfig).
          DnsIsKnown (filter (λ a. not (dns_account_id a == id)) accounts) c.validation)
        certificates
dns_left id accounts [] free h = tt
dns_left id accounts (c ∷ certificates) (other, free) (known, h) =
    (dns_left_one id accounts c.validation other known, dns_left id accounts certificates free h)

certificate_left :
    (id : Text) (certificates : List CertificateConfig) (used : Option Text)
    → (used == some id) ≡ false
    → CertificateIsKnown certificates used
    → CertificateIsKnown (filter (λ c. not (certificate_id_of c == id)) certificates) used
certificate_left id certificates none other known = tt
certificate_left id certificates (some used) other known =
    names_left certificate_id_of id used certificates (ground arith) known

certificates_left :
    (id : Text) (certificates : List CertificateConfig) (routes : List RouteConfig)
    → All (λ (r : RouteConfig). (r.certificate_id == some id) ≡ false) routes
    → All (λ (r : RouteConfig). CertificateIsKnown certificates r.certificate_id) routes
    → All
        (λ (r : RouteConfig).
          CertificateIsKnown
            (filter (λ c. not (certificate_id_of c == id)) certificates)
            r.certificate_id)
        routes
certificates_left id certificates [] free h = tt
certificates_left id certificates (r ∷ routes) (other, free) (known, h) = (
  certificate_left id certificates r.certificate_id other known,
  certificates_left id certificates routes free h,
)

-- What holds of the elements of a list holds of those that are left.
all_filter :
    {T : Type 0} (P : T → Type 0) (p : T → Bool) (items : List T)
    → All P items
    → All P (filter p items)
all_filter P p [] h = tt
all_filter P p (x ∷ items) (here, h) = elim (Bool-cases (p x)) [
  | inl kept ↦ rw kept (here, all_filter P p items h)
  | inr gone ↦ rw gone (all_filter P p items h)
]

acme_case :
    (id : Text) (config after : ProxyConfig)
    → delete_acme_account id config ≡ ok after
    → ReferencesAreKnown config
    → ReferencesAreKnown after
unfolding delete_acme_account
acme_case id config after h known =
    let used = any (λ (c : CertificateConfig). c.acme_account_id == id) config.certificates in
    let (unused, h1) = then_ok (require (not used) (resource_conflict acme_in_use)) _ h in
    let (accounts, removed, last) =
      bind-eq-ok (remove_named config.acme_accounts id an_acme_account account_id) _ h1 in
    let left =
      remove_named_sound config.acme_accounts id an_acme_account account_id accounts removed in
    let test = require_ok (not used) (resource_conflict acme_in_use) unused in
    let free =
      any-false (λ (c : CertificateConfig). c.acme_account_id == id) config.certificates
        (ground arith) in
    let result : record config { acme_accounts = accounts } ≡ after = ground arith in
    rw (← result) (record {
      accounts =
          rw left (accounts_left id config.acme_accounts config.certificates free known.accounts);
      dns = known.dns;
      routes = known.routes;
    })

dns_case :
    (id : Text) (config after : ProxyConfig)
    → delete_dns_account id config ≡ ok after
    → ReferencesAreKnown config
    → ReferencesAreKnown after
unfolding delete_dns_account
dns_case id config after h known =
    let used = any (λ (c : CertificateConfig). uses_dns id c.validation) config.certificates in
    let (unused, h1) = then_ok (require (not used) (resource_conflict dns_in_use)) _ h in
    let (accounts, removed, last) =
      bind-eq-ok (remove_named config.dns_accounts id a_dns_account dns_account_id) _ h1 in
    let left =
      remove_named_sound config.dns_accounts id a_dns_account dns_account_id accounts removed in
    let test = require_ok (not used) (resource_conflict dns_in_use) unused in
    let free =
      any-false (λ (c : CertificateConfig). uses_dns id c.validation) config.certificates
        (ground arith) in
    let result : record config { dns_accounts = accounts } ≡ after = ground arith in
    rw (← result) (record {
      accounts = known.accounts;
      dns = rw left (dns_left id config.dns_accounts config.certificates free known.dns);
      routes = known.routes;
    })

certificate_case :
    (id : Text) (config after : ProxyConfig)
    → delete_certificate id config ≡ ok after
    → ReferencesAreKnown config
    → ReferencesAreKnown after
unfolding delete_certificate
certificate_case id config after h known =
    let used = any (λ (r : RouteConfig). r.certificate_id == some id) config.routes in
    let (unused, h1) = then_ok (require (not used) (resource_conflict certificate_in_use)) _ h in
    let (certificates, removed, last) =
      bind-eq-ok (remove_named config.certificates id a_certificate certificate_id_of) _ h1 in
    let left =
      remove_named_sound config.certificates id a_certificate certificate_id_of certificates
        removed in
    let test = require_ok (not used) (resource_conflict certificate_in_use) unused in
    let free =
      any-false (λ (r : RouteConfig). r.certificate_id == some id) config.routes (ground arith) in
    let result : record config { certificates = certificates } ≡ after = ground arith in
    let keep : CertificateConfig → Bool = λ c. not (certificate_id_of c == id) in
    rw (← result) (record {
      accounts = rw left (
          all_filter
            (λ (c : CertificateConfig).
              contains (map account_id config.acme_accounts) c.acme_account_id ≡ true)
            keep config.certificates known.accounts);
      dns = rw left (
          all_filter (λ (c : CertificateConfig). DnsIsKnown config.dns_accounts c.validation) keep
            config.certificates known.dns);
      routes = rw left (certificates_left id config.certificates config.routes free known.routes);
    })

route_case :
    (name : Text) (config after : ProxyConfig)
    → delete_route name config ≡ ok after
    → ReferencesAreKnown config
    → ReferencesAreKnown after
unfolding delete_route
route_case name config after h known =
    let (routes, removed, last) =
      bind-eq-ok (remove_named config.routes name a_route route_name) _ h in
    let left = remove_named_sound config.routes name a_route route_name routes removed in
    let result : record config { routes = routes } ≡ after = ground arith in
    rw (← result) (record {
      accounts = known.accounts;
      dns = known.dns;
      routes = rw left (
          all_filter (λ (r : RouteConfig). CertificateIsKnown config.certificates r.certificate_id)
            (λ r. not (route_name r == name)) config.routes known.routes);
    })

-- The changes that delete something.
pub data Deletion : Type 0 where
  of_acme of_dns of_certificate of_route : Text → Deletion

abbrev pub deletion : Deletion → ProxyChange
deletion (of_acme id) = acme_deleted id
deletion (of_dns id) = dns_deleted id
deletion (of_certificate id) = certificate_deleted id
deletion (of_route name) = route_deleted name

-- A deletion that succeeds leaves no certificate or route that refers to what is gone: if every ACME
-- account, DNS account and certificate that is referred to was in the configuration, every one still
-- is.
pub change_proxy-ReferencesAreKnown :
    (d : Deletion) (config after : ProxyConfig)
    → change_proxy (deletion d) config ≡ ok after
    → ReferencesAreKnown config
    → ReferencesAreKnown after
unfolding change_proxy
change_proxy-ReferencesAreKnown (of_acme id) config after h = acme_case id config after h
change_proxy-ReferencesAreKnown (of_dns id) config after h = dns_case id config after h
change_proxy-ReferencesAreKnown (of_certificate id) config after h =
    certificate_case id config after h
change_proxy-ReferencesAreKnown (of_route name) config after h = route_case name config after h
