-- ===== src/Control/ProxyEdits/DnsSecrets.antt =====
-- The secrets that `update_dns_account` of crates/gaterust-control/src/store.rs keeps.
use gate_rust.Common.{
  ◌≡◌, ◌≢◌, refl, ◌∙◌, some, arith, ◌==◌, ==_iff, list_eq, ℕ_eq, Bool-cases, inl, inr,
}
use gate_rust.Common.Text.{Text}
use gate_rust.Common.Result.{ok, bind-eq-ok, then_ok, require, require_ok}
use gate_rust.Proxy.Config.{DnsAccountConfig, dns_provider_beq, ProxyConfig}
use gate_rust.Control.Errors.{resource_conflict, dns_id_changed, a_dns_account}
use gate_rust.Control.Named.{update_first, find_named, find_named_sound}
use gate_rust.Control.ProxyEdits.{
  DnsAccountRequest, dns_account_id, dns_account_from_request, keep_dns_secrets, update_dns_account,
}
use gate_rust.Control.ProxyEdits.Secrets.{
  dns_account_of, kept_secret, find_first-update_first, find_first-update_other,
}

pub record DnsIsUpdated (id : Text) (request : DnsAccountRequest) (config after : ProxyConfig)
    : Type 0 where
  pub before : DnsAccountConfig
  pub found : dns_account_of id config ≡ some before
  pub now : DnsAccountConfig
  pub updated : dns_account_of id after ≡ some now
  pub same_id : now.id ≡ id
  pub name : now.name ≡ request.name
  pub provider : now.provider ≡ request.provider
  pub api_token :
      now.api_token
      ≡ kept_secret
          (dns_provider_beq request.provider before.provider)
          request.api_token
          before.api_token
  pub access_key :
      now.access_key
      ≡ kept_secret
          (dns_provider_beq request.provider before.provider)
          request.access_key
          before.access_key
  pub secret_key :
      now.secret_key
      ≡ kept_secret
          (dns_provider_beq request.provider before.provider)
          request.secret_key
          before.secret_key

kept_account :
    (id : Text) (request : DnsAccountRequest) (config after : ProxyConfig)
    (before now : DnsAccountConfig)
    → request.id ≡ id
    → dns_account_of id config ≡ some before
    → dns_account_of id after ≡ some now
    → keep_dns_secrets before (dns_account_from_request request) ≡ now
    → DnsIsUpdated id request config after
unfolding keep_dns_secrets dns_account_from_request
kept_account id request config after before now named found updated same =
    elim (Bool-cases (dns_provider_beq request.provider before.provider)) [
      | inl equal ↦
          let made = rw (equal, keep_dns_secrets) at same in
          record {
            before = before;
            found = found;
            now = now;
            updated = updated;
            same_id = rw (← made) named;
            name = rw (← made) refl;
            provider = rw (← made) refl;
            api_token = rw (equal, ← made) refl;
            access_key = rw (equal, ← made) refl;
            secret_key = rw (equal, ← made) refl;
          }
      | inr unequal ↦
          let made = rw (unequal, keep_dns_secrets) at same in
          record {
            before = before;
            found = found;
            now = now;
            updated = updated;
            same_id = rw (← made) named;
            name = rw (← made) refl;
            provider = rw (← made) refl;
            api_token = rw (unequal, ← made) refl;
            access_key = rw (unequal, ← made) refl;
            secret_key = rw (unequal, ← made) refl;
          }
    ]

keep_dns_secrets_id :
    (before : DnsAccountConfig) (request : DnsAccountRequest)
    → (keep_dns_secrets before (dns_account_from_request request)).id ≡ request.id
unfolding keep_dns_secrets dns_account_from_request
keep_dns_secrets_id before request =
    elim (Bool-cases (dns_provider_beq request.provider before.provider)) [
      | inl equal ↦ rw (equal, keep_dns_secrets) refl
      | inr unequal ↦ rw (unequal, keep_dns_secrets) refl
    ]

-- Where update_dns_account succeeds, the account had the identifier before and has it still, with the
-- name and the provider of the request; a secret that the request leaves out is the one before if the
-- provider is the same, and is gone otherwise; the account of every other identifier is the same.
pub update_dns_account-DnsIsUpdated :
    (id : Text) (request : DnsAccountRequest) (config after : ProxyConfig) (other : Text)
    → update_dns_account id request config ≡ ok after
    → other ≢ id
    → DnsIsUpdated id request config after
      × (dns_account_of other after ≡ dns_account_of other config)
unfolding update_dns_account
update_dns_account-DnsIsUpdated id request config after other h apart =
    let (same_id, h1) =
      then_ok (require (request.id == id) (resource_conflict dns_id_changed)) _ h in
    let named =
      (==_iff request.id id).0
        (require_ok (request.id == id) (resource_conflict dns_id_changed) same_id) in
    let (before, looked_up, last) =
      bind-eq-ok (find_named dns_account_id config.dns_accounts id a_dns_account) _ h1 in
    let found =
      find_named_sound dns_account_id config.dns_accounts id a_dns_account before looked_up in
    let now = keep_dns_secrets before (dns_account_from_request request) in
    let now_id = keep_dns_secrets_id before request in
    let result : (record config {
      dns_accounts = update_first (λ (a : DnsAccountConfig). a.id == id) now config.dns_accounts;
    })
        ≡ after =
      ground arith in
    rw (← result) (
      kept_account id request config
          (record config {
            dns_accounts =
                update_first (λ (a : DnsAccountConfig). a.id == id) now config.dns_accounts;
          })
          before now named found
          (find_first-update_first (λ (a : DnsAccountConfig). a.id == id) now config.dns_accounts
            ((==_iff now.id id).1 (now_id ∙ named)) before found)
          refl,
      find_first-update_other (λ (a : DnsAccountConfig). a.id == id)
          (λ (a : DnsAccountConfig). a.id == other) now config.dns_accounts
          (ground (arith, ==_iff now.id other))
          (λ x test. ground (arith, ==_iff x.id id, ==_iff x.id other)),
    )
