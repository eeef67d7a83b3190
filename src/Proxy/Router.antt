-- ===== src/Proxy/Router.antt =====
-- crates/gaterust-proxy/src/router.rs: which route serves a host and a path. The URI type and its
-- parser are parameters. `sort` keeps the order of equal keys; `sort_unstable_by` may not, which
-- differs only for routes of one host with one path prefix, and `ProxyConfig::validate` refuses
-- those.
pub mod Buckets
pub mod Longest
pub mod Find
pub mod Paths
pub mod Tests
use gate_rust.Common.{
  ℕ, Bool, true, false, ◌&&◌, ◌||◌, Option, none, some, List, [], ◌∷◌, ◌++◌, ◌==◌, ℕ_eq, list_eq,
  is_some, is_some_and, leb, if◌then◌else◌, length, or_else, find_first,
}
use gate_rust.Common.Text.{Text, strip_prefix, ends_with_byte, starts_with_byte}
use gate_rust.Common.Result.{Result, ok, err, ◌>>=◌}
use gate_rust.Common.Sort.{sort}
use gate_rust.HashMap
use gate_rust.HashMap.{HashMap}
use gate_rust.Proxy.Config.{RouteConfig}
use gate_rust.Proxy.Hosts.{wildcard_matches, wildcard_suffix}

pub record Route (Uri : Type 0) : Type 0 where
  pub name : Text
  pub upstream : Uri
  pub tls : Bool

pub record RouteEntry (Uri : Type 0) : Type 0 where
  pub path_prefix : Text
  pub route : Route Uri

pub record Router (Uri : Type 0) : Type 0 where
  pub exact : HashMap Text (List (RouteEntry Uri))
  pub wildcard : List (Text × List (RouteEntry Uri))

-- `ProxyError::InvalidConfig`, with the upstream that is no URI.
pub data RouterError : Type 0 where
  invalid_upstream : Text → RouterError

-- The two maps that `Router::new` fills.
pub record Tables (Uri : Type 0) : Type 0 where
  pub exact : HashMap Text (List (RouteEntry Uri))
  pub wildcard : HashMap Text (List (RouteEntry Uri))

unfoldable pub path_matches : Text → Text → Bool
path_matches path prefix =
    path == prefix
    || is_some_and (λ rest. ends_with_byte b'/' prefix || starts_with_byte b'/' rest)
        (strip_prefix prefix path)

module _ {Uri : Type 0} where
  abbrev pub route_of : Option (RouteEntry Uri) → Option (Route Uri)
  route_of none = none
  route_of (some entry) = some entry.route

  unfoldable pub find_path : List (RouteEntry Uri) → Text → Option (Route Uri)
  unfolding path_matches
  find_path entries path =
      route_of (find_first (λ entry. path_matches path entry.path_prefix) entries)

  -- `entry(key).or_default()`
  abbrev pub or_default : Option (List (RouteEntry Uri)) → List (RouteEntry Uri)
  or_default none = []
  or_default (some entries) = entries

  unfoldable pub bucket : Text → HashMap Text (List (RouteEntry Uri)) → List (RouteEntry Uri)
  bucket key m = or_default (HashMap.get key m)

  -- `entry(key).or_default().push(entry)`
  unfoldable pub push_entry :
      Text
      → RouteEntry Uri
      → HashMap Text (List (RouteEntry Uri))
      → HashMap Text (List (RouteEntry Uri))
  unfolding bucket
  push_entry key entry m = HashMap.insert key (bucket key m ++ (entry ∷ [])) m

  -- The order of a host's entries: the longer prefix first.
  abbrev pub longer_prefix : RouteEntry Uri → RouteEntry Uri → Bool
  longer_prefix left right = leb (length right.path_prefix) (length left.path_prefix)

  abbrev pub longer_suffix : Text × List (RouteEntry Uri) → Text × List (RouteEntry Uri) → Bool
  longer_suffix left right = leb (length right.0) (length left.0)

  unfoldable pub router_of : Tables Uri → Router Uri
  unfolding sort
  router_of tables = record {
    exact = HashMap.map_values (sort longer_prefix) tables.exact;
    wildcard = sort longer_suffix (HashMap.map_values (sort longer_prefix) tables.wildcard).entries;
  }

  -- `self.exact.get(host).and_then(..)`
  unfoldable pub find_exact : Option (List (RouteEntry Uri)) → Text → Option (Route Uri)
  unfolding find_path
  find_exact none path = none
  find_exact (some entries) path = find_path entries path

  -- What the search for a wildcard found.
  unfoldable pub find_wildcard : Option (Text × List (RouteEntry Uri)) → Text → Option (Route Uri)
  unfolding find_path
  find_wildcard none path = none
  find_wildcard (some (suffix, entries)) path = find_path entries path

  unfoldable pub find : Router Uri → Text → Text → Option (Route Uri)
  unfolding find_exact find_wildcard
  find router host path =
      or_else (find_exact (HashMap.get host router.exact) path)
        (find_wildcard (find_first (λ e. wildcard_matches host e.0) router.wildcard) path)

  module _ (parse : Text → Option Uri) where
    unfoldable pub route_entry : RouteConfig → Result RouterError (RouteEntry Uri)
    route_entry config = elim (parse config.upstream) [
      | none ↦ err (invalid_upstream config.upstream)
      | some uri ↦ ok (record {
        path_prefix = config.path_prefix;
        route = record { name = config.name; upstream = uri; tls = is_some config.certificate_id };
      })
    ]

    abbrev pub place : Option Text → Text → RouteEntry Uri → Tables Uri → Tables Uri
    place (some suffix) host entry tables = record tables {
      wildcard = push_entry suffix entry tables.wildcard;
    }
    place none host entry tables = record tables { exact = push_entry host entry tables.exact }

    -- The loop of `Router::new`.
    unfoldable pub add_routes : List RouteConfig → Tables Uri → Result RouterError (Tables Uri)
    unfolding route_entry push_entry
    add_routes [] tables = ok tables
    add_routes (config ∷ routes) tables = route_entry config >>= (λ entry.
        add_routes routes (place (wildcard_suffix config.host) config.host entry tables))

    unfoldable pub new_router : List RouteConfig → Result RouterError (Router Uri)
    unfolding add_routes router_of
    new_router routes =
        add_routes routes (record { exact = HashMap.empty; wildcard = HashMap.empty })
        >>= (λ tables. ok (router_of tables))
