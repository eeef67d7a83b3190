-- ===== src/Proxy/Validation/Routes.antt =====
-- The loop over the routes in `ProxyConfig::validate` of crates/gaterust-proxy/src/config.rs.
use gate_rust.Common.{
  ◌≡◌, refl, ◌⊎◌, inl, inr, true, false, not, Bool-cases, Option, none, some, List, [], ◌∷◌, map,
  arith, list_eq, option_eq, pair_eq, ℕ_eq, contains, All, Memᴰ, ◌==◌, ==_iff,
}
use gate_rust.Common.Text.{Text, ascii, starts_with_byte}
use gate_rust.Common.Result.{ok, bind-eq-ok, then_ok, require, require_ok}
use gate_rust.Common.Distinct.{AllDifferent, Unseen, extend}
use gate_rust.HashMap
use gate_rust.HashMap.{HashMap}
use gate_rust.Proxy.Config.{CertificateConfig, RouteConfig}
use gate_rust.Proxy.Hosts.{wildcard_matches, certificate_for_host}
use gate_rust.Proxy.Hosts.Certificates.{wildcard_name, certificate_for_host_iff}
use gate_rust.Proxy.Fields.{
  UriParts, is_domain, insert_unique, normalize, normalize_route_host, host_not_covered,
  validate_display_name, validate_path_prefix, repeated, unknown_certificate,
}
use gate_rust.Proxy.Validation.{
  Certified, RouteSets, check_certificate_id, validate_upstream, check_route, check_routes,
}
use gate_rust.Proxy.Validation.Names.{insert_unique_sound}
use gate_rust.Proxy.Validation.Domains.{normalize_domain_sound}

abbrev pub route_names : List RouteConfig → List Text
route_names = map (λ (r : RouteConfig). r.name)

abbrev pub route_keys : List RouteConfig → List (Text × Text)
route_keys = map (λ (r : RouteConfig). (r.host, r.path_prefix))

-- The certificate has the host among its domains, or a wildcard for it.
abbrev pub Secures : Text → CertificateConfig → Type 0
Secures host c =
    (contains c.domains host ≡ true)
    ⊎ ((suffix : Text) × (contains c.domains (wildcard_name suffix) ≡ true)
        × (wildcard_matches host suffix ≡ true))

-- A route that names a certificate names one of the configuration, which secures its host.
abbrev pub HasCertificate : List CertificateConfig → Text → Option Text → Type 0
HasCertificate certificates host none = Unit
HasCertificate certificates host (some id) =
    (c : CertificateConfig) × Memᴰ c certificates × (c.id ≡ id) × Secures host c

pub record RouteIsValid (certificates : List CertificateConfig) (r : RouteConfig) : Type 0 where
  pub host : (r.host ≡ ascii "localhost") ⊎ (is_domain r.host ≡ true)
  pub path : starts_with_byte b'/' r.path_prefix ≡ true
  pub secured : HasCertificate certificates r.host r.certificate_id

pub normalize_route_host_sound :
    (value host : Text)
    → normalize_route_host value ≡ ok host
    → (host ≡ ascii "localhost") ⊎ (is_domain host ≡ true)
unfolding normalize_route_host
normalize_route_host_sound value host h = elim (Bool-cases (normalize value == ascii "localhost")) [
  | inl local ↦ inl (ground (arith, ==_iff (normalize value) (ascii "localhost")))
  | inr other ↦ inr (normalize_domain_sound (normalize value) host (ground arith))
]

-- Every owner of a domain is a certificate of the list that has the domain.
abbrev pub OwnersAreListed : HashMap Text Text → List CertificateConfig → Type 0
OwnersAreListed owners certificates =
    (d owner : Text)
    → HashMap.get d owners ≡ some owner
    → (c : CertificateConfig) × Memᴰ c certificates × (c.id ≡ owner) × (contains c.domains d ≡ true)

check_certificate_id_sound :
    (ids : List Text) (owners : HashMap Text Text) (certificates : List CertificateConfig)
    (host : Text) (id : Option Text)
    → OwnersAreListed owners certificates
    → check_certificate_id ids owners host id ≡ ok tt
    → HasCertificate certificates host id
unfolding check_certificate_id
check_certificate_id_sound ids owners certificates host none listed h = tt
check_certificate_id_sound ids owners certificates host (some id) listed h =
    let (_, covered) = then_ok (require (contains ids id) unknown_certificate) _ h in
    let given =
      (==_iff (certificate_for_host owners host) (some id)).0
        (require_ok (certificate_for_host owners host == some id) host_not_covered covered) in
    elim ((certificate_for_host_iff owners host id).0 given) [
      | inl own ↦ let (c, member, same, has) = listed host id own in (c, member, same, inl has)
      | inr (absent, suffix, registered, matched) ↦
          let (c, member, same, has) = listed (wildcard_name suffix) id registered in
          (c, member, same, inr (suffix, has, matched))
    ]

module _ (parse_uri : Text → Option UriParts) where
  record RouteStep (certified : Certified) (r : RouteConfig) (sets : RouteSets) (done : RouteConfig)
      (next : RouteSets) : Type 0 where
    normal : normalize_route_host r.host ≡ ok done.host
    path : starts_with_byte b'/' done.path_prefix ≡ true
    fresh_name : contains sets.names done.name ≡ false
    names_next : next.names ≡ done.name ∷ sets.names
    fresh_key : contains sets.keys (done.host, done.path_prefix) ≡ false
    keys_next : next.keys ≡ (done.host, done.path_prefix) ∷ sets.keys
    secured :
        check_certificate_id certified.ids certified.owners done.host done.certificate_id ≡ ok tt

  validate_path_prefix_sound :
      (value : Text) → validate_path_prefix value ≡ ok tt → starts_with_byte b'/' value ≡ true
  unfolding validate_path_prefix
  validate_path_prefix_sound value h = ground (arith, require_ok _ _ h)

  check_route_sound :
      (certified : Certified) (r : RouteConfig) (sets : RouteSets) (done : RouteConfig)
      (next : RouteSets)
      → check_route parse_uri certified r sets ≡ ok (done, next)
      → RouteStep certified r sets done next
  unfolding check_route
  check_route_sound certified r sets done next h =
      let (_, h1) = then_ok (validate_display_name r.name) _ h in
      let (names, named, h2) = bind-eq-ok (insert_unique sets.names r.name) _ h1 in
      let (host, normal, h3) = bind-eq-ok (normalize_route_host r.host) _ h2 in
      let (path, h4) = then_ok (validate_path_prefix r.path_prefix) _ h3 in
      let (_, h5) = then_ok (validate_upstream parse_uri r.upstream) _ h4 in
      let (free, h6) =
        then_ok (require (not (contains sets.keys (host, r.path_prefix))) repeated) _ h5 in
      let (secured, last) =
        then_ok (check_certificate_id certified.ids certified.owners host r.certificate_id) _ h6 in
      let (fresh, names_are) = insert_unique_sound sets.names r.name names named in
      let unused = require_ok (not (contains sets.keys (host, r.path_prefix))) repeated free in
      let same : record r { host = host } ≡ done = ground arith in
      let result : (◌≡◌ {A = RouteSets}
          (record { names = names; keys = (host, r.path_prefix) ∷ sets.keys }) next) =
        ground arith in
      rw (← same, ← result)
        (record {
          normal = normal;
          path = validate_path_prefix_sound r.path_prefix path;
          fresh_name = fresh;
          names_next = names_are;
          fresh_key = ground arith;
          keys_next = refl;
          secured = secured;
        })

  pub record RoutesAreAccepted (certificates : List CertificateConfig) (sets : RouteSets)
      (routes : List RouteConfig) : Type 0 where
    pub valid : All (RouteIsValid certificates) routes
    pub unseen_names : Unseen sets.names (route_names routes)
    pub different_names : AllDifferent (route_names routes)
    pub unseen_keys : Unseen sets.keys (route_keys routes)
    pub different_keys : AllDifferent (route_keys routes)

  pub check_routes_sound :
      (certified : Certified) (certificates : List CertificateConfig) (routes : List RouteConfig)
      (sets : RouteSets) (result : List RouteConfig)
      → OwnersAreListed certified.owners certificates
      → check_routes parse_uri certified routes sets ≡ ok result
      → RoutesAreAccepted certificates sets result
  unfolding check_routes
  check_routes_sound certified certificates [] sets result listed h =
      let none_left : [] ≡ result = ground arith in
      rw (← none_left) (record {
        valid = tt;
        unseen_names = tt;
        different_names = tt;
        unseen_keys = tt;
        different_keys = tt;
      })
  check_routes_sound certified certificates (r ∷ routes) sets result listed h =
      let ((done, next), checked, h1) = bind-eq-ok (check_route parse_uri certified r sets) _ h in
      let (rest, later, last) = bind-eq-ok (check_routes parse_uri certified routes next) _ h1 in
      let step = check_route_sound certified r sets done next checked in
      let accepted = check_routes_sound certified certificates routes next rest listed later in
      let (unseen_names, different_names) =
        extend sets.names done.name (route_names rest) step.fresh_name
          (rw step.names_next at accepted.unseen_names) accepted.different_names in
      let (unseen_keys, different_keys) =
        extend sets.keys (done.host, done.path_prefix) (route_keys rest) step.fresh_key
          (rw step.keys_next at accepted.unseen_keys) accepted.different_keys in
      let shape : done ∷ rest ≡ result = ground arith in
      rw (← shape) (record {
        valid = (
          record {
            host = normalize_route_host_sound r.host done.host step.normal;
            path = step.path;
            secured =
                check_certificate_id_sound certified.ids certified.owners certificates done.host
                  done.certificate_id listed step.secured;
          },
          accepted.valid,
        );
        unseen_names = unseen_names;
        different_names = different_names;
        unseen_keys = unseen_keys;
        different_keys = different_keys;
      })
