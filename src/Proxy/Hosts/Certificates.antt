-- ===== src/Proxy/Hosts/Certificates.antt =====
-- Which certificate `certificate_for_host` of crates/gaterust-proxy/src/config.rs gives a host.
use gate_rust.Common.{
  ℕ, ◌≡◌, refl, ◌↔◌, ◌⊎◌, inl, inr, true, Option, none, some, List, [], ◌∷◌, arith, leb, length,
  Bool-cases, Option-cases, Memᴰ, head, tail, ==_iff, ℕ_eq, list_eq,
}
use gate_rust.Common.Text.{Text}
use gate_rust.HashMap
use gate_rust.HashMap.{HashMap, get-Member, Member-get}
use gate_rust.Proxy.Hosts.{
  wildcard_matches, wildcard_suffix, candidate, take_longer, longest_match, certificate_for_host,
}
use gate_rust.Proxy.Hosts.Wildcards.{wildcard_matches_unique}

-- The name of a wildcard for a suffix.
abbrev pub wildcard_name : Text → Text
wildcard_name suffix = b'*' ∷ b'.' ∷ suffix

pub wildcard_suffix_sound :
    (domain suffix : Text) → wildcard_suffix domain ≡ some suffix → domain ≡ wildcard_name suffix
wildcard_suffix_sound [] suffix h = absurd (ground arith)
wildcard_suffix_sound (a ∷ []) suffix h = absurd (ground arith)
wildcard_suffix_sound (a ∷ b ∷ s) suffix h = ground (arith, ==_iff b'*' a, ==_iff b'.' b)

-- A wildcard of the list that matches the host.
abbrev pub Covers : Text → Text → List (Text × Text) → Type 0
Covers host owner owners =
    (suffix : Text) × Memᴰ (wildcard_name suffix, owner) owners
    × (wildcard_matches host suffix ≡ true)

candidate_sound :
    (host owner domain o : Text) (size : ℕ)
    → candidate host (domain, o) ≡ some (size, owner)
    → (suffix : Text) × (◌≡◌ {A = Text × Text} (wildcard_name suffix, owner) (domain, o))
      × (wildcard_matches host suffix ≡ true)
unfolding candidate
candidate_sound host owner domain o size h = elim (Option-cases (wildcard_suffix domain)) [
  | inl plain ↦ absurd (ground arith)
  | inr (suffix, found) ↦
      let here = wildcard_suffix_sound domain suffix found in (suffix, ground arith, ground arith)
]

candidate_complete :
    (host owner suffix : Text)
    → wildcard_matches host suffix ≡ true
    → candidate host (wildcard_name suffix, owner) ≡ some (length suffix, owner)
unfolding candidate
candidate_complete host owner suffix matched = rw matched

take_longer_cases :
    (a b : Option (ℕ × Text)) (r : ℕ × Text)
    → take_longer a b ≡ some r
    → (a ≡ some r) ⊎ (b ≡ some r)
unfolding take_longer
take_longer_cases none b r h = inr h
take_longer_cases (some a) none r h = inl h
take_longer_cases (some a) (some b) r h = ground arith

take_longer_left :
    (a : ℕ × Text) (b : Option (ℕ × Text)) → (r : ℕ × Text) × (take_longer (some a) b ≡ some r)
unfolding take_longer
take_longer_left a none = (a, refl)
take_longer_left a (some b) = elim (Bool-cases (leb a.0 b.0)) [
  | inl longer ↦ (b, ground arith)
  | inr shorter ↦ (a, ground arith)
]

take_longer_right :
    (a : Option (ℕ × Text)) (b : ℕ × Text) → (r : ℕ × Text) × (take_longer a (some b) ≡ some r)
unfolding take_longer
take_longer_right none b = (b, refl)
take_longer_right (some a) b = take_longer_left a (some b)

longest_match_sound :
    (host owner : Text) (size : ℕ) (owners : List (Text × Text))
    → longest_match host owners ≡ some (size, owner)
    → Covers host owner owners
unfolding longest_match
longest_match_sound host owner size [] h = absurd (ground arith)
longest_match_sound host owner size ((domain, o) ∷ owners) h =
    elim (take_longer_cases (candidate host (domain, o)) (longest_match host owners) (size, owner)
      h) [
        | inl here ↦
            let (suffix, same, matched) = candidate_sound host owner domain o size here in
            (suffix, head same, matched)
        | inr there ↦
            let (suffix, member, matched) = longest_match_sound host owner size owners there in
            (suffix, tail member, matched)
      ]

longest_match_complete :
    (host owner suffix : Text) (owners : List (Text × Text))
    → Memᴰ (wildcard_name suffix, owner) owners
    → wildcard_matches host suffix ≡ true
    → (r : ℕ × Text) × (longest_match host owners ≡ some r)
unfolding longest_match
longest_match_complete host owner suffix [] member matched = elim member [ ]
longest_match_complete host owner suffix (e ∷ owners) (head here) matched =
    let offered : candidate host e ≡ some (length suffix, owner) =
      rw (← here) (candidate_complete host owner suffix matched) in
    rw offered (take_longer_left (length suffix, owner) (longest_match host owners))
longest_match_complete host owner suffix (e ∷ owners) (tail there) matched =
    let (r, found) = longest_match_complete host owner suffix owners there matched in
    rw found (take_longer_right (candidate host e) r)

-- The owner of a wildcard of the list that matches is the one that is found.
longest_match_owner :
    (host owner suffix : Text) (owners : HashMap Text Text)
    → HashMap.get (wildcard_name suffix) owners ≡ some owner
    → wildcard_matches host suffix ≡ true
    → (size : ℕ) × (longest_match host owners.entries ≡ some (size, owner))
longest_match_owner host owner suffix owners registered matched =
    let member = Member-get (wildcard_name suffix) owner owners registered in
    let ((size, o), found) =
      longest_match_complete host owner suffix owners.entries member matched in
    let (t, entry, match) = longest_match_sound host o size owners.entries found in
    let same = wildcard_matches_unique host t suffix match matched in
    let other = get-Member (wildcard_name t) o owners entry in
    (size, ground (arith, same, other, registered, found))

-- A host's own entry decides which certificate it gets; without one, the wildcard that matches does.
-- A host that neither covers gets none.
pub certificate_for_host_iff :
    (owners : HashMap Text Text) (host owner : Text)
    → (certificate_for_host owners host ≡ some owner) ↔ (
        (HashMap.get host owners ≡ some owner)
        ⊎ ((HashMap.get host owners ≡ none)
            × (suffix : Text) × (HashMap.get (wildcard_name suffix) owners ≡ some owner)
            × (wildcard_matches host suffix ≡ true)))
unfolding certificate_for_host
certificate_for_host_iff owners host owner = (
  λ given. elim (Option-cases (HashMap.get host owners)) [
    | inr (o, own) ↦ inl (ground arith)
    | inl absent ↦ elim (Option-cases (longest_match host owners.entries)) [
      | inl nothing ↦ absurd (ground arith)
      | inr ((size, o), found) ↦
          let (suffix, entry, matched) = longest_match_sound host o size owners.entries found in
          let other = get-Member (wildcard_name suffix) o owners entry in
          inr (absent, suffix, ground arith, matched)
    ]
  ],
  λ cases. elim cases [
    | inl own ↦ rw own
    | inr (absent, suffix, registered, matched) ↦
        let (size, found) = longest_match_owner host owner suffix owners registered matched in
        rw (absent, found)
  ],
)
