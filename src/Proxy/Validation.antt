-- ===== src/Proxy/Validation.antt =====
-- `ProxyConfig::validate` of crates/gaterust-proxy/src/config.rs: it normalises the host names and
-- tests the configuration. The URI parser is a parameter.
pub mod Names
pub mod Domains
pub mod Certificates
pub mod Routes
pub mod Accepted
pub mod Tests
use gate_rust.Common.{
  ℕ, Bool, true, false, not, ◌&&◌, ◌||◌, Option, none, some, List, [], ◌∷◌, map, ◌==◌, ℕ_eq,
  list_eq, option_eq, pair_eq, contains, ltb, nat_eq, if◌then◌else◌, length, all, any, is_some,
}
use gate_rust.Common.Text.{
  Text, ascii, is_empty, is_ascii_alphanumeric, strip_prefix, starts_with_byte, ends_with_byte,
}
use gate_rust.Common.Trim.{trim, trim_end_matches, to_ascii_lowercase, split}
use gate_rust.Common.Net.{addr_eq}
use gate_rust.Common.Result.{Result, ok, err, ◌>>=◌, ◌>>◌, require}
use gate_rust.HashMap
use gate_rust.HashMap.{HashMap}
use gate_rust.Proxy.Hosts.{certificate_for_host, wildcard_suffix}
use gate_rust.Proxy.Config.{
  AcmeProvider, lets_encrypt, google_cloud, AcmeAccountConfig, DnsProvider, cloudflare,
  DnsAccountConfig, CertificateValidation, dns_account, manual, CertificateConfig, RouteConfig,
  ProxyListenerConfig, ProxyConfig,
}
use gate_rust.Proxy.Fields.{
  ConfigError, same_bind, no_connections, too_many_entries, invalid_id, invalid_name, repeated,
  invalid_email, secret_missing, secret_unexpected, unknown_acme_account, unknown_dns_account,
  manual_renewal, no_validation, invalid_domain_count, invalid_domain, domain_repeated,
  domain_owned, invalid_path_prefix, invalid_upstream, unknown_certificate, host_not_covered,
  UriParts, normalize_domain, normalize_route_host, validate_id, validate_display_name,
  insert_unique, validate_path_prefix, validate_acme_account, validate_dns_account,
}

-- What a loop over accounts has seen.
pub record Seen : Type 0 where
  pub ids : List Text
  pub names : List Text

abbrev pub nothing_seen : Seen
nothing_seen = record { ids = []; names = [] }

-- The tests that both kinds of account begin with.
unfoldable pub check_names : Text → Text → Seen → Result ConfigError Seen
unfolding validate_id validate_display_name insert_unique
check_names id name seen =
    validate_id id
    >> (validate_display_name name
        >> (insert_unique seen.ids id >>= (λ ids.
            insert_unique seen.names name >>= (λ names. ok (record { ids = ids; names = names })))))

unfoldable pub check_acme_accounts : List AcmeAccountConfig → Seen → Result ConfigError (Unit {0})
unfolding check_names validate_acme_account
check_acme_accounts [] seen = ok tt
check_acme_accounts (a ∷ accounts) seen =
    check_names a.id a.name seen
    >>= (λ next. validate_acme_account a >> check_acme_accounts accounts next)

unfoldable pub check_dns_accounts : List DnsAccountConfig → Seen → Result ConfigError (Unit {0})
unfolding check_names validate_dns_account
check_dns_accounts [] seen = ok tt
check_dns_accounts (a ∷ accounts) seen =
    check_names a.id a.name seen
    >>= (λ next. validate_dns_account a >> check_dns_accounts accounts next)

unfoldable pub check_method :
    List Text → Option CertificateValidation → Bool → Option Text → Result ConfigError (Unit {0})
check_method dns_ids (some (dns_account id)) auto_renew migration_error =
    require (contains dns_ids id) unknown_dns_account
check_method dns_ids (some manual) auto_renew migration_error =
    require (not auto_renew) manual_renewal
check_method dns_ids none auto_renew migration_error =
    require (is_some migration_error && not auto_renew) no_validation

-- The loop over the domains of a certificate: its domains so far, and the owners of all domains.
unfoldable pub check_domains :
    Text
    → List Text
    → List Text
    → HashMap Text Text
    → Result ConfigError (List Text × HashMap Text Text)
unfolding normalize_domain
check_domains id [] own owners = ok ([], owners)
check_domains id (value ∷ values) own owners = normalize_domain value >>= (λ domain.
    require (not (contains own domain)) domain_repeated
    >> (require (not (HashMap.contains_key domain owners)) domain_owned
        >> (check_domains id values (domain ∷ own) (HashMap.insert domain id owners)
            >>= (λ rest. ok (domain ∷ rest.0, rest.1)))))

-- `CertificateConfig::validate`: the certificate with normalised domains.
unfoldable pub validate_certificate :
    List Text
    → List Text
    → CertificateConfig
    → HashMap Text Text
    → Result ConfigError (CertificateConfig × HashMap Text Text)
unfolding check_method check_domains
validate_certificate acme_ids dns_ids c owners =
    require (contains acme_ids c.acme_account_id) unknown_acme_account
    >> (check_method dns_ids c.validation c.auto_renew c.migration_error
        >> (require (ltb 0 (length c.domains) && not (ltb 100 (length c.domains)))
              invalid_domain_count
            >> (check_domains c.id c.domains [] owners
                >>= (λ done. ok (record c { domains = done.0 }, done.1)))))

-- The loop over the certificates: the certificates with normalised domains, their ids, and the
-- owners of the domains.
pub record Certified : Type 0 where
  pub certificates : List CertificateConfig
  pub ids : List Text
  pub owners : HashMap Text Text

unfoldable pub check_certificates :
    List Text
    → List Text
    → List CertificateConfig
    → Seen
    → HashMap Text Text
    → Result ConfigError Certified
unfolding check_names validate_certificate
check_certificates acme_ids dns_ids [] seen owners =
    ok (record { certificates = []; ids = seen.ids; owners = owners })
check_certificates acme_ids dns_ids (c ∷ certificates) seen owners =
    check_names c.id c.name seen >>= (λ next.
      validate_certificate acme_ids dns_ids c owners >>= (λ done.
        check_certificates acme_ids dns_ids certificates next done.1
        >>= (λ rest. ok (record rest { certificates = done.0 ∷ rest.certificates }))))

-- What the loop over the routes has seen.
pub record RouteSets : Type 0 where
  pub names : List Text
  pub keys : List (Text × Text)

abbrev pub is_http : Option Text → Bool
is_http none = false
is_http (some scheme) = scheme == ascii "http" || scheme == ascii "https"

unfoldable pub check_certificate_id :
    List Text → HashMap Text Text → Text → Option Text → Result ConfigError (Unit {0})
unfolding certificate_for_host
check_certificate_id ids owners host none = ok tt
check_certificate_id ids owners host (some id) =
    require (contains ids id) unknown_certificate
    >> require (certificate_for_host owners host == some id) host_not_covered

module _ (parse_uri : Text → Option UriParts) where
  unfoldable pub validate_upstream : Text → Result ConfigError (Unit {0})
  validate_upstream value = elim (parse_uri value) [
    | none ↦ err invalid_upstream
    | some uri ↦
        require (is_http uri.scheme && (uri.has_authority && not uri.has_query)) invalid_upstream
  ]

  -- One round of the loop over the routes: the route with its host normalised.
  unfoldable pub check_route :
      Certified → RouteConfig → RouteSets → Result ConfigError (RouteConfig × RouteSets)
  unfolding validate_display_name insert_unique normalize_route_host validate_path_prefix
      validate_upstream check_certificate_id
  check_route certified r sets =
      validate_display_name r.name
      >> (insert_unique sets.names r.name >>= (λ names. normalize_route_host r.host >>= (λ host.
          validate_path_prefix r.path_prefix
          >> (validate_upstream r.upstream
              >> (require (not (contains sets.keys (host, r.path_prefix))) repeated
                  >> (check_certificate_id certified.ids certified.owners host r.certificate_id
                      >> ok (
                        record r { host = host },
                        record { names = names; keys = (host, r.path_prefix) ∷ sets.keys },
                      )))))))

  unfoldable pub check_routes :
      Certified → List RouteConfig → RouteSets → Result ConfigError (List RouteConfig)
  unfolding check_route
  check_routes certified [] sets = ok []
  check_routes certified (r ∷ routes) sets =
      check_route certified r sets
      >>= (λ done. check_routes certified routes done.1 >>= (λ rest. ok (done.0 ∷ rest)))

  abbrev pub has_room : ProxyConfig → Bool
  has_room c = not (
      ltb 64 (length c.acme_accounts)
      || (ltb 64 (length c.dns_accounts)
          || (ltb 256 (length c.certificates) || ltb 4096 (length c.routes))))

  -- The loops of `validate`, and the configuration that they leave.
  unfoldable pub validate_entries : ProxyConfig → Result ConfigError ProxyConfig
  unfolding check_acme_accounts check_dns_accounts check_certificates check_routes
  validate_entries c =
      check_acme_accounts c.acme_accounts nothing_seen
      >> (check_dns_accounts c.dns_accounts nothing_seen
          >> (check_certificates (map (λ (a : AcmeAccountConfig). a.id) c.acme_accounts)
                (map (λ (a : DnsAccountConfig). a.id) c.dns_accounts) c.certificates nothing_seen
                HashMap.empty
              >>= (λ certified.
                  check_routes certified c.routes (record { names = []; keys = [] }) >>= (λ routes.
                    ok (record c { certificates = certified.certificates; routes = routes })))))

  unfoldable pub validate : ProxyConfig → Result ConfigError ProxyConfig
  unfolding validate_entries
  validate c =
      require (not (c.proxy.http_bind == c.proxy.https_bind)) same_bind
      >> (require (ltb 0 c.proxy.max_connections) no_connections
          >> (require (has_room c) too_many_entries >> validate_entries c))
