-- ===== src/Proxy/Hosts/Tests.antt =====
-- Runs of the host tests of crates/gaterust-proxy/src/config.rs.
use gate_rust.Common.{
  ◌≡◌, refl, ◌↔◌, ◌⊎◌, true, false, none, some, [], ◌∷◌, ◌++◌, contains, ℕ_eq, list_eq,
}
use gate_rust.Common.Text.{Text, ascii}
use gate_rust.HashMap
use gate_rust.HashMap.{HashMap}
use gate_rust.Proxy.Hosts.{wildcard_matches, certificate_for_host}
use gate_rust.Proxy.Hosts.Wildcards.{wildcard_matches_iff, wildcard_matches_unique}
use gate_rust.Proxy.Hosts.Certificates.{wildcard_name, certificate_for_host_iff}

hosts : Unit {0}
unfolding certificate_for_host HashMap.get HashMap.collect
hosts = tt

abbrev example_com : Text
example_com = ascii "example.com"

abbrev www : Text
www = ascii "www.example.com"

matches_subdomain : wildcard_matches www example_com ≡ true
unfolding hosts
matches_subdomain = refl

not_itself : wildcard_matches example_com example_com ≡ false
unfolding hosts
not_itself = refl

not_two_labels : wildcard_matches (ascii "a.b.example.com") example_com ≡ false
unfolding hosts
not_two_labels = refl

not_longer_name : wildcard_matches (ascii "badexample.com") example_com ≡ false
unfolding hosts
not_longer_name = refl

abbrev owners : HashMap Text Text
owners =
    HashMap.collect ((example_com, ascii "own") ∷ (wildcard_name example_com, ascii "wild") ∷ [])

wild_given : certificate_for_host owners www ≡ some (ascii "wild")
unfolding hosts
wild_given = refl

wildcard_matches_iff_example :
    (wildcard_matches www example_com ≡ true)
    ↔ ((label : Text) × (www ≡ label ++ (b'.' ∷ example_com)) × (contains label b'.' ≡ false))
wildcard_matches_iff_example = wildcard_matches_iff www example_com

wildcard_matches_unique_example : example_com ≡ example_com
wildcard_matches_unique_example =
    wildcard_matches_unique www example_com example_com matches_subdomain matches_subdomain

certificate_for_host_iff_example : (certificate_for_host owners www ≡ some (ascii "wild")) ↔ (
    (HashMap.get www owners ≡ some (ascii "wild"))
    ⊎ ((HashMap.get www owners ≡ none)
        × (suffix : Text) × (HashMap.get (wildcard_name suffix) owners ≡ some (ascii "wild"))
        × (wildcard_matches www suffix ≡ true)))
certificate_for_host_iff_example = certificate_for_host_iff owners www (ascii "wild")
