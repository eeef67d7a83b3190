-- ===== src/Proxy/Validation/Accepted.antt =====
-- What a configuration that `ProxyConfig::validate` of crates/gaterust-proxy/src/config.rs leaves is
-- known to satisfy.
use gate_rust.Common.{
  ◌≡◌, inl, inr, not, Option, List, [], arith, list_eq, pair_eq, ℕ_eq, All, ltb, ◌==◌,
}
use gate_rust.Common.Text.{Text}
use gate_rust.Common.Net.{addr_eq}
use gate_rust.Common.Result.{ok, bind-eq-ok, then_ok, require}
use gate_rust.Common.Distinct.{AllDifferent}
use gate_rust.HashMap
use gate_rust.HashMap.{HashMap, get-empty}
use gate_rust.Proxy.Config.{CertificateConfig, ProxyConfig}
use gate_rust.Proxy.Fields.{UriParts, same_bind, no_connections, too_many_entries}
use gate_rust.Proxy.Validation.{
  RouteSets, nothing_seen, check_acme_accounts, check_dns_accounts, check_certificates,
  check_routes, has_room, validate_entries, validate, Certified,
}
use gate_rust.Proxy.Validation.Names.{
  acme_ids, acme_names, dns_ids, dns_names, check_acme_accounts_sound, check_dns_accounts_sound,
}
use gate_rust.Proxy.Validation.Certificates.{
  certificate_ids, certificate_names, domains_of, CertificateIsValid, check_certificates_sound,
  check_certificates_owner,
}
use gate_rust.Proxy.Validation.Routes.{
  route_names, route_keys, RouteIsValid, OwnersAreListed, check_routes_sound,
}

-- What is known of a configuration that is accepted.
pub record ProxyIsValid (c : ProxyConfig) : Type 0 where
  pub different_acme_ids : AllDifferent (acme_ids c.acme_accounts)
  pub different_acme_names : AllDifferent (acme_names c.acme_accounts)
  pub different_dns_ids : AllDifferent (dns_ids c.dns_accounts)
  pub different_dns_names : AllDifferent (dns_names c.dns_accounts)
  pub certificates :
      All (CertificateIsValid (acme_ids c.acme_accounts) (dns_ids c.dns_accounts)) c.certificates
  pub different_certificate_ids : AllDifferent (certificate_ids c.certificates)
  pub different_certificate_names : AllDifferent (certificate_names c.certificates)
  pub different_domains : AllDifferent (domains_of c.certificates)
  pub routes : All (RouteIsValid c.certificates) c.routes
  pub different_route_names : AllDifferent (route_names c.routes)
  pub different_route_keys : AllDifferent (route_keys c.routes)

owners_listed :
    (acme dns : List Text) (certificates : List CertificateConfig) (result : Certified)
    → check_certificates acme dns certificates nothing_seen HashMap.empty ≡ ok result
    → OwnersAreListed result.owners result.certificates
owners_listed acme dns certificates result h d owner found =
    elim (check_certificates_owner acme dns certificates nothing_seen HashMap.empty result d owner h
      found) [ inl early ↦ absurd (ground (arith, get-empty {V = Text} d)) | inr listed ↦ listed ]

module _ (parse_uri : Text → Option UriParts) where
  entries_sound :
      (c left : ProxyConfig) → validate_entries parse_uri c ≡ ok left → ProxyIsValid left
  unfolding validate_entries
  entries_sound c left h =
      let acme = acme_ids c.acme_accounts in
      let dns = dns_ids c.dns_accounts in
      let none_yet : RouteSets = record { names = []; keys = [] } in
      let (h1, rest1) = then_ok (check_acme_accounts c.acme_accounts nothing_seen) _ h in
      let (h2, rest2) = then_ok (check_dns_accounts c.dns_accounts nothing_seen) _ rest1 in
      let (certified, h3, rest3) =
        bind-eq-ok (check_certificates acme dns c.certificates nothing_seen HashMap.empty) _
          rest2 in
      let (routes, h4, last) =
        bind-eq-ok (check_routes parse_uri certified c.routes none_yet) _ rest3 in
      let a = check_acme_accounts_sound c.acme_accounts nothing_seen h1 in
      let d = check_dns_accounts_sound c.dns_accounts nothing_seen h2 in
      let k =
        check_certificates_sound acme dns c.certificates nothing_seen HashMap.empty certified h3 in
      let r =
        check_routes_sound parse_uri certified certified.certificates c.routes none_yet routes
          (owners_listed acme dns c.certificates certified h3) h4 in
      let result : record c { certificates = certified.certificates; routes = routes } ≡ left =
        ground arith in
      rw (← result) (record {
        different_acme_ids = a.different_ids;
        different_acme_names = a.different_names;
        different_dns_ids = d.different_ids;
        different_dns_names = d.different_names;
        certificates = k.valid;
        different_certificate_ids = k.names.different_ids;
        different_certificate_names = k.names.different_names;
        different_domains = k.different;
        routes = r.valid;
        different_route_names = r.different_names;
        different_route_keys = r.different_keys;
      })

  -- Of the configuration that `validate` leaves: no two accounts of a kind, and no two certificates,
  -- share an identifier or a name; each certificate has 1 to 100 well-formed domains, an ACME account
  -- and, if it proves its domains with one, a DNS account of the configuration; no domain stands
  -- twice, in one certificate or in two; no two routes share a name, or a host and path prefix; each
  -- route's host is `localhost` or a well-formed domain, its path prefix begins with `/`, and a
  -- certificate that it names is in the configuration and has the host or a wildcard that matches it.
  pub validate-ProxyIsValid :
      (c left : ProxyConfig) → validate parse_uri c ≡ ok left → ProxyIsValid left
  unfolding validate
  validate-ProxyIsValid c left h =
      let (_, h1) =
        then_ok (require (not (c.proxy.http_bind == c.proxy.https_bind)) same_bind) _ h in
      let (_, h2) = then_ok (require (ltb 0 c.proxy.max_connections) no_connections) _ h1 in
      let (_, h3) = then_ok (require (has_room parse_uri c) too_many_entries) _ h2 in
      entries_sound c left h3
