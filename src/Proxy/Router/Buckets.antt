-- ===== src/Proxy/Router/Buckets.antt =====
-- What the two maps of `Router::new` (crates/gaterust-proxy/src/router.rs) hold under each key: the
-- entries of the routes for the key, in the order of the configuration.
use mathlib.Core.List.{append_assoc, append-nil}
use gate_rust.Common.{
  ◌≡◌, refl, sym, inl, inr, Bool, false, Option, none, some, List, [], ◌∷◌, ◌++◌, arith,
  if◌then◌else◌, Bool-cases, Option-cases, ◌==◌, ==_iff, ℕ_eq, list_eq,
}
use gate_rust.Common.Text.{Text}
use gate_rust.Common.Result.{Result, ok, err, bind-eq-ok}
use gate_rust.HashMap
use gate_rust.HashMap.{HashMap}
use gate_rust.Proxy.Hosts.{wildcard_suffix}
use gate_rust.Proxy.Config.{RouteConfig}
use gate_rust.Proxy.Router.{
  RouteEntry, Tables, RouterError, bucket, push_entry, route_entry, place, add_routes,
}

-- The routes of one host, and of one wildcard.
abbrev pub names_host : Text → Text → Option Text → Bool
names_host host own none = own == host
names_host host own (some suffix) = false

abbrev pub is_exact : Text → RouteConfig → Bool
is_exact host config = names_host host config.host (wildcard_suffix config.host)

abbrev pub names_suffix : Text → Option Text → Bool
names_suffix suffix none = false
names_suffix suffix (some own) = own == suffix

abbrev pub is_wildcard : Text → RouteConfig → Bool
is_wildcard suffix config = names_suffix suffix (wildcard_suffix config.host)

module _ {Uri : Type 0} where
  bucket-push_entry :
      (key k : Text) (entry : RouteEntry Uri) (m : HashMap Text (List (RouteEntry Uri)))
      → bucket k (push_entry key entry m)
        ≡ (if key == k then bucket k m ++ (entry ∷ []) else bucket k m)
  unfolding bucket push_entry
  bucket-push_entry key k entry m =
      ground (arith, ==_iff key k, HashMap.get-insert key k (bucket key m ++ (entry ∷ [])) m)

  module _ (parse : Text → Option Uri) where
    abbrev pub cons_ok :
        Result RouterError (RouteEntry Uri) → List (RouteEntry Uri) → List (RouteEntry Uri)
    cons_ok (ok entry) entries = entry ∷ entries
    cons_ok (err e) entries = entries

    -- The entries of the routes that pass a test, in the order of the configuration.
    unfoldable pub entries_of : (RouteConfig → Bool) → List RouteConfig → List (RouteEntry Uri)
    entries_of test [] = []
    entries_of test (config ∷ routes) =
        let rest = entries_of test routes in
        if test config then cons_ok (route_entry parse config) rest else rest

    -- One step of the loop, as one of the two maps sees it.
    abbrev pub Steps :
        (Tables Uri → HashMap Text (List (RouteEntry Uri))) → Text → (RouteConfig → Bool) → Type 0
    Steps view key test =
        (config : RouteConfig) (entry : RouteEntry Uri) (tables : Tables Uri)
        → bucket key (view (place parse (wildcard_suffix config.host) config.host entry tables)) ≡ (
            if test config
            then bucket key (view tables) ++ (entry ∷ [])
            else bucket key (view tables))

    pub bucket-add_routes :
        (view : Tables Uri → HashMap Text (List (RouteEntry Uri))) (key : Text)
        (test : RouteConfig → Bool)
        → Steps view key test
        → (routes : List RouteConfig) (tables done : Tables Uri)
        → add_routes parse routes tables ≡ ok done
        → bucket key (view done) ≡ bucket key (view tables) ++ entries_of test routes
    unfolding add_routes entries_of
    bucket-add_routes view key test steps [] tables done h =
        let same : tables ≡ done = ground arith in rw (← same) (sym (append-nil _))
    bucket-add_routes view key test steps (config ∷ routes) tables done h =
        let (entry, parsed, added) = bind-eq-ok (route_entry parse config) _ h in
        let next = place parse (wildcard_suffix config.host) config.host entry tables in
        let below = bucket-add_routes view key test steps routes next done added in
        let step = steps config entry tables in
        elim (Bool-cases (test config)) [
          | inl own ↦ ground (
            arith,
            parsed,
            below,
            step,
            append_assoc (bucket key (view tables)) (entry ∷ []) (entries_of test routes),
          )
          | inr other ↦ ground (arith, below, step)
        ]

    pub exact-Steps : (host : Text) → Steps (λ t. t.exact) host (is_exact host)
    exact-Steps host config entry tables = elim (Option-cases (wildcard_suffix config.host)) [
      | inl plain ↦ rw plain (bucket-push_entry config.host host entry tables.exact)
      | inr (suffix, wild) ↦ rw wild refl
    ]

    pub wildcard-Steps : (suffix : Text) → Steps (λ t. t.wildcard) suffix (is_wildcard suffix)
    wildcard-Steps suffix config entry tables = elim (Option-cases (wildcard_suffix config.host)) [
      | inl plain ↦ rw plain refl
      | inr (own, wild) ↦ rw wild (bucket-push_entry own suffix entry tables.wildcard)
    ]
