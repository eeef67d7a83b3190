-- ===== src/Proxy/Migrated.antt =====
-- What `LegacyProxyConfig::migrate` of crates/gaterust-proxy/src/config.rs makes of any configuration.
use mathlib.Core.List.Memᴰ
use mathlib.Core.List.Memᴰ.{append_left, append_right}
use gate_rust.Common.{
  ◌≡◌, ◌≢◌, refl, ap, sym, ◌∙◌, inl, inr, Bool, true, false, Option, none, some, List, [], ◌∷◌,
  ◌++◌, map, arith, ◌==◌, ==_iff, list_eq, ℕ_eq, All, Pairwise, no_pairs, pair, Memᴰ, head, tail,
  Bool-cases, Option-cases,
}
use gate_rust.Common.Text.{Text}
use gate_rust.Common.Result.{Result, ok, err, ◌>>=◌}
use gate_rust.HashMap
use gate_rust.HashMap.{get-collect}
use gate_rust.Proxy.Config.{
  AcmeAccountConfig, DnsAccountConfig, CertificateValidation, dns_account, manual,
  CertificateConfig, RouteConfig, ProxyConfig,
}
use gate_rust.Proxy.Migration.{
  ReadError, unknown_legacy_certificate, LegacyChallenge, http_01, tls_alpn_01, cloudflare_dns_01,
  LegacyCertificateConfig, LegacyRouteConfig, LegacyProxyConfig, migrated_account, migrated_dns,
  migrated_validation, migration_message, migrated_certificate, certificate_ids_of, all_dns,
  migrated_reference, migrate_routes, migrate,
}
pub mod Outcome
pub mod Tests

-- How a certificate proves its domains: with the DNS account that holds its old token, or not at all,
-- and then it says so.
abbrev pub IsProved :
    List DnsAccountConfig → LegacyCertificateConfig → LegacyChallenge → CertificateConfig → Type 0
IsProved accounts legacy cloudflare_dns_01 c =
    (a : DnsAccountConfig) × Memᴰ a accounts
    × (c.validation ≡ some (dns_account a.id))
    × (a.api_token ≡ legacy.cloudflare_api_token)
    × (c.migration_error ≡ none)
IsProved accounts legacy http_01 c = (c.validation ≡ none) × (c.migration_error ≢ none)
IsProved accounts legacy tls_alpn_01 c = (c.validation ≡ none) × (c.migration_error ≢ none)

-- The ACME account that a certificate refers to, with what the old certificate had of it.
pub record HasAccount (accounts : List AcmeAccountConfig) (legacy : LegacyCertificateConfig)
    (id : Text) : Type 0 where
  pub account : AcmeAccountConfig
  pub member : Memᴰ account accounts
  pub named : account.id ≡ id
  pub email : account.email ≡ legacy.email
  pub eab_key_id : account.eab_key_id ≡ legacy.google_eab_key_id
  pub eab_hmac_key : account.eab_hmac_key ≡ legacy.google_eab_hmac_key

-- A certificate of the configuration and the one that it was.
pub record CertificateIsMigrated (config : ProxyConfig) (legacy : LegacyCertificateConfig)
    (c : CertificateConfig) : Type 0 where
  pub id : c.id ≡ legacy.name
  pub name : c.name ≡ legacy.name
  pub domains : c.domains ≡ legacy.domains
  pub account : HasAccount config.acme_accounts legacy c.acme_account_id
  pub proved : IsProved config.dns_accounts legacy legacy.challenge c
  pub paused : c.auto_renew ≡ false

all_dns_member :
    (legacy : LegacyCertificateConfig) (l : List LegacyCertificateConfig) (a : DnsAccountConfig)
    → Memᴰ legacy l
    → Memᴰ a (migrated_dns legacy.challenge legacy)
    → Memᴰ a (all_dns l)
unfolding migrated_dns
all_dns_member legacy [] a there member = elim there [ ]
all_dns_member legacy (x ∷ l) a (head same) member = append_left (all_dns l) (rw same at member)
all_dns_member legacy (x ∷ l) a (tail there) member =
    append_right (migrated_dns x.challenge x) (all_dns_member legacy l a there member)

is_proved :
    (challenge : LegacyChallenge) (legacy : LegacyCertificateConfig)
    (accounts : List DnsAccountConfig) (c : CertificateConfig)
    → ((a : DnsAccountConfig) → Memᴰ a (migrated_dns challenge legacy) → Memᴰ a accounts)
    → c.validation ≡ migrated_validation challenge legacy.name
    → c.migration_error ≡ migration_message challenge
    → IsProved accounts legacy challenge c
unfolding migrated_dns
is_proved cloudflare_dns_01 legacy accounts c keeps validation message =
    (_, keeps _ (head refl), validation, refl, message)
is_proved http_01 legacy accounts c keeps validation message =
    (validation, λ absent. absurd (ground (arith, message, absent)))
is_proved tls_alpn_01 legacy accounts c keeps validation message =
    (validation, λ absent. absurd (ground (arith, message, absent)))

-- Every certificate of a part of the list is migrated together with the whole list.
pub certificates_migrated :
    (config : ProxyConfig) (all l : List LegacyCertificateConfig)
    → config.acme_accounts ≡ map migrated_account all
    → config.dns_accounts ≡ all_dns all
    → ((c : LegacyCertificateConfig) → Memᴰ c l → Memᴰ c all)
    → Pairwise (CertificateIsMigrated config) l (map migrated_certificate l)
unfolding migrated_certificate migrated_account
certificates_migrated config all [] accounts dns within = no_pairs
certificates_migrated config all (legacy ∷ l) accounts dns within =
    pair legacy (migrated_certificate legacy) l (map migrated_certificate l)
      (record {
        id = refl;
        name = refl;
        domains = refl;
        account = record {
          account = migrated_account legacy;
          member = rw accounts (Memᴰ.map migrated_account (within legacy (head refl)));
          named = refl;
          email = refl;
          eab_key_id = refl;
          eab_hmac_key = refl;
        };
        proved =
            is_proved legacy.challenge legacy config.dns_accounts (migrated_certificate legacy)
              (λ a member. rw dns (all_dns_member legacy all a (within legacy (head refl)) member))
              refl refl;
        paused = refl;
      })
      (certificates_migrated config all l accounts dns (λ c member. within c (tail member)))
