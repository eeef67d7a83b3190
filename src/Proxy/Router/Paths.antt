-- ===== src/Proxy/Router/Paths.antt =====
-- Which paths a prefix of crates/gaterust-proxy/src/router.rs matches, and that the longest prefix
-- wins.
use gate_rust.Common.{
  ◌≤◌, ◌≡◌, refl, sym, ◌∙◌, ◌↔◌, ◌⊎◌, inl, inr, Bool, true, Option, none, some, List, [], ◌∷◌, ◌++◌,
  arith, length, Bool-cases, Option-cases, Memᴰ, head, tail, ◌==◌, ==_iff, ℕ_eq, list_eq,
  find_first, find_first_sound, find_first-none,
}
use gate_rust.Common.Text.{Text, strip_prefix, ends_with_byte, starts_with_byte}
use gate_rust.Common.Sort.{sort, Memᴰ_of_sorted, sorted_of_Memᴰ}
use gate_rust.Proxy.Router.{RouteEntry, Route, path_matches, find_path, route_of, longer_prefix}
use gate_rust.Proxy.Router.Longest.{longest, find_first-sort}

strip_prefix-eq-some : (p s rest : Text) → strip_prefix p s ≡ some rest → s ≡ p ++ rest
strip_prefix-eq-some [] s rest h = ground arith
strip_prefix-eq-some (a ∷ p) [] rest h = absurd (ground arith)
strip_prefix-eq-some (a ∷ p) (b ∷ s) rest h =
    ground (arith, ==_iff a b, strip_prefix-eq-some p s rest)

strip_prefix-append : (p rest : Text) → strip_prefix p (p ++ rest) ≡ some rest
strip_prefix-append [] rest = refl
strip_prefix-append (a ∷ p) rest = ground (arith, ==_iff a a, strip_prefix-append p rest)

-- A prefix matches itself, and the paths that go on behind it at a `/`: one at its end, or the
-- first byte of what follows.
pub path_matches_iff :
    (path prefix : Text)
    → (path_matches path prefix ≡ true) ↔ (
        (path ≡ prefix)
        ⊎ ((rest : Text) × (path ≡ prefix ++ rest)
            × ((ends_with_byte b'/' prefix ≡ true) ⊎ (starts_with_byte b'/' rest ≡ true))))
unfolding path_matches
path_matches_iff path prefix = (
  λ h. elim (Bool-cases (path == prefix)) [
    | inl same ↦ inl ((==_iff path prefix).0 same)
    | inr other ↦ elim (Option-cases (strip_prefix prefix path)) [
      | inl missing ↦ absurd (ground arith)
      | inr (rest, found) ↦ inr (rest, strip_prefix-eq-some prefix path rest found, ground arith)
    ]
  ],
  λ cases. elim cases [
    | inl same ↦ ground (arith, ==_iff path prefix)
    | inr (rest, shape, slash) ↦
        ground (arith, shape, strip_prefix-append prefix rest, ==_iff path prefix)
  ],
)

module _ {Uri : Type 0} where
  longest_bound :
      (test : RouteEntry Uri → Bool) (entries : List (RouteEntry Uri)) (e d : RouteEntry Uri)
      → longest test entries ≡ some e
      → Memᴰ d entries
      → test d ≡ true
      → length d.path_prefix ≤ length e.path_prefix
  unfolding longest
  longest_bound test [] e d h member holds = elim member [ ]
  longest_bound test (x ∷ entries) e d h (head same) holds =
      elim (Option-cases (longest test entries)) [
        | inl nothing ↦ ground (arith, same)
        | inr (other, found) ↦ ground (arith, same)
      ]
  longest_bound test (x ∷ entries) e d h (tail member) holds =
      elim (Option-cases (longest test entries)) [
        | inl nothing ↦
            let missing =
              find_first-none test (sort longer_prefix entries)
                (find_first-sort test entries ∙ nothing)
                (sorted_of_Memᴰ longer_prefix entries member) in
            absurd (ground (arith, missing, holds))
        | inr (other, found) ↦ ground (arith, longest_bound test entries other d found member holds)
      ]

  answered :
      (o : Option (RouteEntry Uri)) {route : Route Uri} → o ≡ none → route_of o ≡ some route → ⊥
  answered none nothing h = absurd (ground arith)
  answered (some e) nothing h = absurd (ground arith)

  routed :
      (o : Option (RouteEntry Uri)) {e : RouteEntry Uri} {route : Route Uri}
      → o ≡ some e
      → route_of o ≡ some route
      → e.route ≡ route
  routed none found h = absurd (ground arith)
  routed (some e) found h = ground arith

  -- The search through a host's sorted entries answers the route of an entry that matches the path,
  -- and no entry that matches has a longer prefix.
  pub find_path_longest :
      (path : Text) (entries : List (RouteEntry Uri)) (route : Route Uri) (d : RouteEntry Uri)
      → find_path (sort longer_prefix entries) path ≡ some route
      → Memᴰ d entries
      → path_matches path d.path_prefix ≡ true
      → (e : RouteEntry Uri) × Memᴰ e entries
        × (e.route ≡ route)
        × (path_matches path e.path_prefix ≡ true)
        × (length d.path_prefix ≤ length e.path_prefix)
  unfolding find_path
  find_path_longest path entries route d h member holds =
      let test : RouteEntry Uri → Bool = λ entry. path_matches path entry.path_prefix in
      elim (Option-cases (find_first test (sort longer_prefix entries))) [
        | inl nothing ↦ absurd (answered (find_first test (sort longer_prefix entries)) nothing h)
        | inr (e, found) ↦
            let (inside, own) = find_first_sound test (sort longer_prefix entries) found in
            (
              e,
              Memᴰ_of_sorted longer_prefix entries inside,
              routed (find_first test (sort longer_prefix entries)) found h,
              own,
              longest_bound test entries e d (sym (find_first-sort test entries) ∙ found) member
                  holds,
            )
      ]
