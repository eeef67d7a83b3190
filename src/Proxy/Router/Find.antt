-- ===== src/Proxy/Router/Find.antt =====
-- `Router::find` of crates/gaterust-proxy/src/router.rs against a description by the routes of the
-- configuration.
use gate_rust.Common.{
  ◌≡◌, refl, ap, sym, ◌∙◌, inl, inr, Bool, true, false, Option, none, some, List, [], ◌∷◌, arith,
  Bool-cases, Option-cases, or_else, find_first, find_first_sound, find_first-none, ==_iff, ℕ_eq,
  list_eq,
}
use gate_rust.Common.Text.{Text}
use gate_rust.Common.Result.{ok, bind-eq-ok}
use gate_rust.Common.Sort.{sort, Memᴰ_of_sorted, sorted_of_Memᴰ}
use gate_rust.HashMap
use gate_rust.HashMap.{HashMap, get-Member, Member-get}
use gate_rust.Proxy.Hosts.{wildcard_matches, wildcard_suffix}
use gate_rust.Proxy.Hosts.Wildcards.{wildcard_matches_unique}
use gate_rust.Proxy.Config.{RouteConfig}
use gate_rust.Proxy.Router.{
  Route, RouteEntry, Router, Tables, path_matches, route_of, find_path, bucket, longer_prefix,
  longer_suffix, router_of, find_wildcard, find_exact, find, add_routes, new_router,
}
use gate_rust.Proxy.Router.Buckets.{
  is_exact, is_wildcard, entries_of, bucket-add_routes, exact-Steps, wildcard-Steps,
}
use gate_rust.Proxy.Router.Longest.{longest, find_first-sort}

abbrev pub suffix_covers : Text → Option Text → Bool
suffix_covers host none = false
suffix_covers host (some suffix) = wildcard_matches host suffix

-- The routes of a wildcard that matches the host.
abbrev pub covers : Text → RouteConfig → Bool
covers host config = suffix_covers host (wildcard_suffix config.host)

module _ {Uri : Type 0} where
  -- The route with the longest prefix that matches the path.
  unfoldable pub choose : Text → List (RouteEntry Uri) → Option (Route Uri)
  unfolding longest path_matches
  choose path entries = route_of (longest (λ entry. path_matches path entry.path_prefix) entries)

  find_path-sort :
      (entries : List (RouteEntry Uri)) (path : Text)
      → find_path (sort longer_prefix entries) path ≡ choose path entries
  unfolding find_path choose
  find_path-sort entries path =
      ap route_of (find_first-sort (λ entry. path_matches path entry.path_prefix) entries)

  find_exact-sort :
      (path host : Text) (m : HashMap Text (List (RouteEntry Uri)))
      → find_exact (HashMap.get host (HashMap.map_values (sort longer_prefix) m)) path
        ≡ choose path (bucket host m)
  unfolding find_exact bucket choose
  find_exact-sort path host m = elim (Option-cases (HashMap.get host m)) [
    | inl absent ↦ ground (arith, absent, HashMap.get-map_values (sort longer_prefix) host m)
    | inr (entries, found) ↦ ground (
      arith,
      found,
      HashMap.get-map_values (sort longer_prefix) host m,
      find_path-sort entries path,
    )
  ]

  module _ (parse : Text → Option Uri) where
    -- All entries whose wildcard matches the host are those of one wildcard.
    entries_of-covers :
        (host suffix : Text) (routes : List RouteConfig)
        → wildcard_matches host suffix ≡ true
        → entries_of parse (covers host) routes ≡ entries_of parse (is_wildcard suffix) routes
    unfolding entries_of
    entries_of-covers host suffix [] h = refl
    entries_of-covers host suffix (config ∷ routes) h =
        elim (Option-cases (wildcard_suffix config.host)) [
          | inl plain ↦ ground (arith, plain, entries_of-covers host suffix routes h)
          | inr (own, wild) ↦ ground (
            arith,
            wild,
            ==_iff own suffix,
            wildcard_matches_unique host own suffix,
            entries_of-covers host suffix routes h,
          )
        ]

    no_entries :
        (host : Text) (routes : List RouteConfig)
        → ((suffix : Text)
            → wildcard_matches host suffix ≡ true
            → entries_of parse (is_wildcard suffix) routes ≡ [])
        → entries_of parse (covers host) routes ≡ []
    unfolding entries_of
    no_entries host [] h = refl
    no_entries host (config ∷ routes) h = elim (Option-cases (wildcard_suffix config.host)) [
      | inl plain ↦ ground (
        arith,
        plain,
        no_entries host routes (λ suffix matched. ground (arith, plain, h suffix matched)),
      )
      | inr (own, wild) ↦ elim (Bool-cases (wildcard_matches host own)) [
        | inl match ↦ entries_of-covers host own (config ∷ routes) match ∙ h own match
        | inr other ↦ ground (
          arith,
          wild,
          other,
          no_entries host routes (λ suffix matched.
              ground (arith, wild, ==_iff own suffix, other, matched, h suffix matched)),
        )
      ]
    ]

    -- What the tables hold for every wildcard, when `Router::new` has filled them.
    abbrev HoldsWildcards : HashMap Text (List (RouteEntry Uri)) → List RouteConfig → Type 0
    HoldsWildcards m routes =
        (suffix : Text) → bucket suffix m ≡ entries_of parse (is_wildcard suffix) routes

    abbrev search :
        Text → HashMap Text (List (RouteEntry Uri)) → Option (Text × List (RouteEntry Uri))
    search host m =
        find_first (λ e. wildcard_matches host e.0)
          (sort longer_suffix (HashMap.map_values (sort longer_prefix) m).entries)

    search_found :
        (host suffix : Text) (m : HashMap Text (List (RouteEntry Uri)))
        (entries : List (RouteEntry Uri))
        → search host m ≡ some (suffix, entries)
        → (wildcard_matches host suffix ≡ true) × (entries ≡ sort longer_prefix (bucket suffix m))
    unfolding bucket sort
    search_found host suffix m entries found =
        let sorted = HashMap.map_values (sort longer_prefix) m in
        let (member, matched) =
          find_first_sound (λ e. wildcard_matches host e.0) (sort longer_suffix sorted.entries)
            found in
        let here =
          get-Member suffix entries sorted (Memᴰ_of_sorted longer_suffix sorted.entries member) in
        (matched, ground (arith, here, HashMap.get-map_values (sort longer_prefix) suffix m))

    search_nothing :
        (host suffix : Text) (m : HashMap Text (List (RouteEntry Uri)))
        → search host m ≡ none
        → wildcard_matches host suffix ≡ true
        → bucket suffix m ≡ []
    unfolding bucket
    search_nothing host suffix m nothing matched = elim (Option-cases (HashMap.get suffix m)) [
      | inl absent ↦ rw absent refl
      | inr (entries, found) ↦
          let sorted = HashMap.map_values (sort longer_prefix) m in
          let there : HashMap.get suffix sorted ≡ some (sort longer_prefix entries) =
            ground (arith, found, HashMap.get-map_values (sort longer_prefix) suffix m) in
          let member = Member-get suffix (sort longer_prefix entries) sorted there in
          let other =
            find_first-none (λ e. wildcard_matches host e.0) (sort longer_suffix sorted.entries)
              nothing (sorted_of_Memᴰ longer_suffix sorted.entries member) in
          absurd (ground (arith, other, matched))
    ]

    find_wildcard-search :
        (host path : Text) (m : HashMap Text (List (RouteEntry Uri))) (routes : List RouteConfig)
        → HoldsWildcards m routes
        → find_wildcard (search host m) path ≡ choose path (entries_of parse (covers host) routes)
    unfolding find_wildcard choose longest
    find_wildcard-search host path m routes holds = elim (Option-cases (search host m)) [
      | inl nothing ↦
          let none_left =
            no_entries host routes (λ suffix matched.
              sym (holds suffix) ∙ search_nothing host suffix m nothing matched) in
          rw (nothing, none_left) refl
      | inr ((suffix, entries), found) ↦
          let (matched, shape) = search_found host suffix m entries found in
          rw (found, shape, holds suffix, entries_of-covers host suffix routes matched)
            (find_path-sort (entries_of parse (is_wildcard suffix) routes) path)
    ]

    -- A router that was built from a configuration finds for a host and a path: among the routes of
    -- the host itself whose prefix matches the path, one with the longest prefix; if there is none,
    -- the same among the routes of the wildcard that matches the host; else nothing.
    pub find-new_router :
        (routes : List RouteConfig) (router : Router Uri) (host path : Text)
        → new_router parse routes ≡ ok router
        → find router host path
          ≡ or_else
              (choose path (entries_of parse (is_exact host) routes))
              (choose path (entries_of parse (covers host) routes))
    unfolding new_router router_of find bucket entries_of HashMap.get HashMap.empty
    find-new_router routes router host path built =
        let empty : Tables Uri = record { exact = HashMap.empty; wildcard = HashMap.empty } in
        let (tables, filled, same) = bind-eq-ok (add_routes parse routes empty) _ built in
        let own =
          bucket-add_routes parse (λ t. t.exact) host (is_exact host) (exact-Steps parse host)
            routes empty tables filled in
        let wild : HoldsWildcards tables.wildcard routes = (λ suffix.
          bucket-add_routes parse (λ t. t.wildcard) suffix (is_wildcard suffix)
            (wildcard-Steps parse suffix) routes empty tables filled) in
        let shape : router ≡ router_of tables = ground arith in
        rw (shape, find)
          (ap (λ r. or_else r (find_wildcard (search host tables.wildcard) path))
              (find_exact-sort path host tables.exact ∙ ap (choose path) own)
            ∙ ap (or_else (choose path (entries_of parse (is_exact host) routes)))
                (find_wildcard-search host path tables.wildcard routes wild))
