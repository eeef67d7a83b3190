-- ===== src/Proxy/Migrated/Outcome.antt =====
-- How `LegacyProxyConfig::migrate` of crates/gaterust-proxy/src/config.rs ends, by its routes.
use gate_rust.Common.{
  ◌≡◌, ◌≢◌, refl, sym, ap, ◌∙◌, Pairwise, no_pairs, pair, inl, inr, Option, none, some, List, [],
  ◌∷◌, map, arith, ◌==◌, ==_iff, list_eq, ℕ_eq, All, Memᴰ, head, tail, Bool-cases, Option-cases,
}
use gate_rust.Common.Text.{Text}
use gate_rust.Common.Result.{Result, ok, err, ◌>>=◌}
use gate_rust.HashMap
use gate_rust.HashMap.{get-collect}
use gate_rust.Proxy.Config.{CertificateConfig, RouteConfig, ProxyConfig}
use gate_rust.Proxy.Migration.{
  ReadError, unknown_legacy_certificate, LegacyCertificateConfig, LegacyRouteConfig,
  LegacyProxyConfig, migrated_account, migrated_certificate, certificate_ids_of, all_dns,
  migrated_reference, migrate_routes, migrate,
}
use gate_rust.Proxy.Migrated.{CertificateIsMigrated, certificates_migrated}

-- A certificate that a route names is one of the configuration.
abbrev pub HasCertificate : List CertificateConfig → Option Text → Type 0
HasCertificate certificates none = Unit
HasCertificate certificates (some id) = (c : CertificateConfig) × Memᴰ c certificates × (c.id ≡ id)

-- A route of the configuration and the one that it was.
pub record RouteIsMigrated (certificates : List CertificateConfig) (legacy : LegacyRouteConfig)
    (r : RouteConfig) : Type 0 where
  pub name : r.name ≡ legacy.name
  pub host : r.host ≡ legacy.host
  pub path_prefix : r.path_prefix ≡ legacy.path_prefix
  pub upstream : r.upstream ≡ legacy.upstream
  pub certificate : r.certificate_id ≡ legacy.certificate
  pub known : HasCertificate certificates legacy.certificate

pub data IsMigrationOutcome (legacy : LegacyProxyConfig)
    : Result ReadError ProxyConfig → Type 0 where
  migrated :
      (config : ProxyConfig)
      → config.proxy ≡ legacy.proxy
      → Pairwise (CertificateIsMigrated config) legacy.certificates config.certificates
      → Pairwise (RouteIsMigrated config.certificates) legacy.routes config.routes
      → IsMigrationOutcome legacy (ok config)
  unknown :
      (route : LegacyRouteConfig) (name : Text)
      → Memᴰ route legacy.routes
      → route.certificate ≡ some name
      → All (λ (c : LegacyCertificateConfig). c.name ≢ name) legacy.certificates
      → IsMigrationOutcome legacy (err (unknown_legacy_certificate route.name name))

named_found :
    (name id : Text) (l : List LegacyCertificateConfig)
    → HashMap.last_for name (map (λ (c : LegacyCertificateConfig). (c.name, c.name)) l) ≡ some id
    → (id ≡ name) × HasCertificate (map migrated_certificate l) (some name)
unfolding HashMap.last_for migrated_certificate
named_found name id [] h = absurd (ground arith)
named_found name id (c ∷ l) h =
    elim (Option-cases
      (HashMap.last_for name (map (λ (d : LegacyCertificateConfig). (d.name, d.name)) l))) [
        | inr (other, later) ↦
            let (equal, (found, member, same)) = named_found name id l (ground (arith, later)) in
            (equal, (found, tail member, same))
        | inl absent ↦ elim (Bool-cases (c.name == name)) [
          | inl here ↦
              let same : c.name ≡ name = (==_iff c.name name).0 here in
              let given : c.name ≡ id = ground (arith, absent, here) in
              (sym given ∙ same, (migrated_certificate c, head refl, same))
          | inr there ↦ absurd (ground (arith, absent, there))
        ]
      ]

named_missing :
    (name : Text) (l : List LegacyCertificateConfig)
    → HashMap.last_for name (map (λ (c : LegacyCertificateConfig). (c.name, c.name)) l) ≡ none
    → All (λ (c : LegacyCertificateConfig). c.name ≢ name) l
unfolding HashMap.last_for
named_missing name [] h = tt
named_missing name (c ∷ l) h =
    elim (Option-cases
      (HashMap.last_for name (map (λ (d : LegacyCertificateConfig). (d.name, d.name)) l))) [
        | inr (other, later) ↦ absurd (ground (arith, later))
        | inl absent ↦ elim (Bool-cases (c.name == name)) [
          | inl here ↦ absurd (ground (arith, absent, here))
          | inr there ↦ (ground (arith, ==_iff c.name name), named_missing name l absent)
        ]
      ]

-- What the routes come to: routes with known certificates, or a route whose certificate is unknown.
data RoutesOutcome (known : List LegacyCertificateConfig) (legacy : List LegacyRouteConfig)
    : Result ReadError (List RouteConfig) → Type 0 where
  all_known :
      (routes : List RouteConfig)
      → Pairwise (RouteIsMigrated (map migrated_certificate known)) legacy routes
      → RoutesOutcome known legacy (ok routes)
  one_unknown :
      (route : LegacyRouteConfig) (name : Text)
      → Memᴰ route legacy
      → route.certificate ≡ some name
      → All (λ (c : LegacyCertificateConfig). c.name ≢ name) known
      → RoutesOutcome known legacy (err (unknown_legacy_certificate route.name name))

abbrev with_reference : LegacyRouteConfig → Option Text → RouteConfig
with_reference route reference = record {
  name = route.name;
  host = route.host;
  path_prefix = route.path_prefix;
  upstream = route.upstream;
  certificate_id = reference;
}

-- A route before the others, whose certificate became what is given.
routes_step :
    (known : List LegacyCertificateConfig) (route : LegacyRouteConfig)
    (routes : List LegacyRouteConfig) (reference : Option Text)
    (rest : Result ReadError (List RouteConfig))
    → reference ≡ route.certificate
    → HasCertificate (map migrated_certificate known) route.certificate
    → RoutesOutcome known routes rest
    → RoutesOutcome known
        (route ∷ routes)
        (rest >>= (λ (others : List RouteConfig). ok (with_reference route reference ∷ others)))
routes_step known route routes reference _ same found (all_known others h) = all_known _ (
    pair route (with_reference route reference) routes others
      (record {
        name = refl;
        host = refl;
        path_prefix = refl;
        upstream = refl;
        certificate = same;
        known = found;
      })
      h)
routes_step known route routes reference _ same found
      (one_unknown other name member named missing) =
    one_unknown other name (tail member) named missing

-- The first route, by what it says of its certificate.
first_route :
    (known : List LegacyCertificateConfig) (route : LegacyRouteConfig)
    (routes : List LegacyRouteConfig) (certificate : Option Text)
    (rest : Result ReadError (List RouteConfig))
    → certificate ≡ route.certificate
    → RoutesOutcome known routes rest
    → RoutesOutcome known (route ∷ routes) (
        migrated_reference (certificate_ids_of known) route certificate >>= (λ reference.
          rest >>= (λ (others : List RouteConfig). ok (with_reference route reference ∷ others))))
unfolding migrated_reference certificate_ids_of
first_route known route routes none rest named h =
    let found : HasCertificate (map migrated_certificate known) route.certificate =
      rw (← named) tt in
    routes_step known route routes none rest named found h
first_route known route routes (some name) rest named h =
    let pairs : List (Text × Text) =
      map (λ (c : LegacyCertificateConfig). (c.name, c.name)) known in
    elim (Option-cases (HashMap.last_for name pairs)) [
      | inr (id, given) ↦
          let (same, certificate) = named_found name id known given in
          let found : HasCertificate (map migrated_certificate known) route.certificate =
            rw (← named) certificate in
          rw (migrated_reference, certificate_ids_of, get-collect name pairs, given)
            (routes_step known route routes (some id) rest (ap some same ∙ named) found h)
      | inl missing ↦
          rw (migrated_reference, certificate_ids_of, get-collect name pairs, missing)
            (one_unknown route name (head refl) (sym named) (named_missing name known missing))
    ]

routes_outcome :
    (known : List LegacyCertificateConfig) (routes : List LegacyRouteConfig)
    → RoutesOutcome known routes (migrate_routes (certificate_ids_of known) routes)
unfolding migrate_routes
routes_outcome known [] = all_known [] no_pairs
routes_outcome known (route ∷ routes) =
    first_route known route routes route.certificate
      (migrate_routes (certificate_ids_of known) routes) refl (routes_outcome known routes)

configuration_outcome :
    (legacy : LegacyProxyConfig) (routes : Result ReadError (List RouteConfig))
    → RoutesOutcome legacy.certificates legacy.routes routes
    → IsMigrationOutcome legacy (
        routes >>= (λ found. ok (record {
          proxy = legacy.proxy;
          acme_accounts = map migrated_account legacy.certificates;
          dns_accounts = all_dns legacy.certificates;
          certificates = map migrated_certificate legacy.certificates;
          routes = found;
        })))
configuration_outcome legacy _ (all_known routes known) =
    migrated _ refl
      (certificates_migrated _ legacy.certificates legacy.certificates refl refl (λ c m. m)) known
configuration_outcome legacy _ (one_unknown route name member named missing) =
    unknown route name member named missing

-- The migration of a configuration gives one with the same listener, and its certificates and routes
-- in their order: each certificate has the old name and domains, an ACME account with the old email
-- and keys, and the DNS account with the old token where the challenge was Cloudflare's, else no way to
-- prove its domains and a message, and is not renewed automatically; each route has the old name, host,
-- path prefix, upstream and certificate, which is there. Or it fails at a route that names a certificate
-- which no certificate is called.
pub migrate-IsMigrationOutcome :
    (legacy : LegacyProxyConfig) → IsMigrationOutcome legacy (migrate legacy)
unfolding migrate
migrate-IsMigrationOutcome legacy =
    configuration_outcome legacy
      (migrate_routes (certificate_ids_of legacy.certificates) legacy.routes)
      (routes_outcome legacy.certificates legacy.routes)
