-- ===== src/Proxy/Router/Tests.antt =====
-- Runs of crates/gaterust-proxy/src/router.rs, with texts for URIs.
use gate_rust.Common.{
  ◌≤◌, ◌≡◌, refl, ◌↔◌, ◌⊎◌, true, false, Option, none, some, List, [], ◌∷◌, ◌++◌, length, or_else,
  Memᴰ, head, ℕ_eq, list_eq,
}
use gate_rust.Common.Text.{Text, ascii, ends_with_byte, starts_with_byte}
use gate_rust.Common.Result.{Result, ok, err}
use gate_rust.Common.Sort.{sort}
use gate_rust.HashMap
use gate_rust.Proxy.Config.{RouteConfig}
use gate_rust.Proxy.Router.{
  Route, RouteEntry, Router, RouterError, path_matches, find_path, longer_prefix, find, new_router,
}
use gate_rust.Proxy.Hosts.{wildcard_matches}
use gate_rust.Proxy.Router.Buckets.{is_exact, entries_of}
use gate_rust.Proxy.Router.Find.{covers, choose, find-new_router}
use gate_rust.Proxy.Router.Paths.{path_matches_iff, find_path_longest}

abbrev parse : Text → Option Text
parse [] = none
parse (b ∷ s) = some (b ∷ s)

abbrev config : Text → Text → Text → RouteConfig
config name host path_prefix = record {
  name = name;
  host = host;
  path_prefix = path_prefix;
  upstream = ascii "u";
  certificate_id = none;
}

abbrev routes : List RouteConfig
routes =
    config (ascii "root") (ascii "e.com") (ascii "/")
    ∷ config (ascii "api") (ascii "e.com") (ascii "/api")
    ∷ config (ascii "wildcard") (ascii "*.e.com") (ascii "/")
    ∷ []

abbrev route : Text → Route Text
route name = record { name = name; upstream = ascii "u"; tls = false }

routing : Unit {0}
unfolding new_router find path_matches HashMap.map_values HashMap.insert HashMap.get HashMap.empty
    sort find_path entries_of choose wildcard_matches
routing = tt

abbrev router_in : Result RouterError (Router Text) → Router Text
router_in (ok router) = router
router_in (err e) = record { exact = HashMap.empty; wildcard = [] }

abbrev router : Router Text
router = router_in (new_router parse routes)

built : new_router parse routes ≡ ok router
unfolding routing
built = refl

api_found : find router (ascii "e.com") (ascii "/api/v1") ≡ some (route (ascii "api"))
unfolding routing
api_found = refl

wildcard_found : find router (ascii "w.e.com") (ascii "/") ≡ some (route (ascii "wildcard"))
unfolding routing
wildcard_found = refl

apix_found : find router (ascii "e.com") (ascii "/apix") ≡ some (route (ascii "root"))
unfolding routing
apix_found = refl

other_host : find router (ascii "bade.com") (ascii "/") ≡ none
unfolding routing
other_host = refl

find-new_router_example :
    find router (ascii "e.com") (ascii "/api/v1")
    ≡ or_else
        (choose (ascii "/api/v1") (entries_of parse (is_exact (ascii "e.com")) routes))
        (choose (ascii "/api/v1") (entries_of parse (covers (ascii "e.com")) routes))
find-new_router_example =
    find-new_router parse routes router (ascii "e.com") (ascii "/api/v1") built

path_matches_iff_example : (path_matches (ascii "/api/v1") (ascii "/api") ≡ true) ↔ (
    (ascii "/api/v1" ≡ ascii "/api")
    ⊎ ((rest : Text) × (ascii "/api/v1" ≡ ascii "/api" ++ rest)
        × ((ends_with_byte b'/' (ascii "/api") ≡ true) ⊎ (starts_with_byte b'/' rest ≡ true))))
path_matches_iff_example = path_matches_iff (ascii "/api/v1") (ascii "/api")

abbrev entry : Text → RouteEntry Text
entry prefix = record { path_prefix = prefix; route = route prefix }

abbrev entries : List (RouteEntry Text)
entries = entry (ascii "/") ∷ entry (ascii "/api") ∷ []

longest_found : find_path (sort longer_prefix entries) (ascii "/api") ≡ some (route (ascii "/api"))
unfolding routing
longest_found = refl

root_matches : path_matches (ascii "/api") (ascii "/") ≡ true
unfolding routing
root_matches = refl

find_path_longest_example :
    (e : RouteEntry Text) × Memᴰ e entries
    × (e.route ≡ route (ascii "/api"))
    × (path_matches (ascii "/api") e.path_prefix ≡ true)
    × (1 ≤ length e.path_prefix)
find_path_longest_example =
    find_path_longest (ascii "/api") entries (route (ascii "/api")) (entry (ascii "/"))
      longest_found (head refl) root_matches
