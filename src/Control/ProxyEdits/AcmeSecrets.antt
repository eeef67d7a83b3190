-- ===== src/Control/ProxyEdits/AcmeSecrets.antt =====
-- The secret that `update_acme_account` of crates/gaterust-control/src/store.rs keeps.
use gate_rust.Common.{
  ◌≡◌, ◌≢◌, refl, ◌∙◌, ◌&&◌, is_some, Bool, true, false, not, Option, none, some, arith, ◌==◌,
  ==_iff, list_eq, ℕ_eq, Bool-cases, inl, inr,
}
use gate_rust.Common.Text.{Text}
use gate_rust.Common.Result.{ok, bind-eq-ok, then_ok, require, require_ok}
use gate_rust.Proxy.Config.{AcmeAccountConfig, google_cloud, acme_provider_beq, ProxyConfig}
use gate_rust.Control.Errors.{resource_conflict, acme_id_changed, an_acme_account}
use gate_rust.Control.Named.{update_first, find_named, find_named_sound}
use gate_rust.Control.ProxyEdits.{
  AcmeAccountRequest, account_id, acme_account_from_request, keep_hmac_key, update_acme_account,
}
use gate_rust.Control.ProxyEdits.Secrets.{
  acme_account_of, kept_secret, find_first-update_first, find_first-update_other,
}

pub record AcmeIsUpdated (id : Text) (request : AcmeAccountRequest) (config after : ProxyConfig)
    : Type 0 where
  pub before : AcmeAccountConfig
  pub found : acme_account_of id config ≡ some before
  pub now : AcmeAccountConfig
  pub updated : acme_account_of id after ≡ some now
  pub same_id : now.id ≡ id
  pub email : now.email ≡ request.email
  pub eab_key_id : now.eab_key_id ≡ request.eab_key_id
  pub eab_hmac_key :
      now.eab_hmac_key
      ≡ kept_secret
          (acme_provider_beq request.provider google_cloud
            && acme_provider_beq before.provider google_cloud)
          request.eab_hmac_key
          before.eab_hmac_key

record AcmeIsKept (before : AcmeAccountConfig) (request : AcmeAccountRequest)
    (now : AcmeAccountConfig) : Type 0 where
  same_id : now.id ≡ request.id
  email : now.email ≡ request.email
  eab_key_id : now.eab_key_id ≡ request.eab_key_id
  eab_hmac_key :
      now.eab_hmac_key
      ≡ kept_secret
          (acme_provider_beq request.provider google_cloud
            && acme_provider_beq before.provider google_cloud)
          request.eab_hmac_key
          before.eab_hmac_key

left_out :
    (r b : Bool) (given before : Option Text)
    → (r && (not (is_some given) && b)) ≡ true
    → before ≡ kept_secret (r && b) given before
left_out true true none before h = refl
left_out true true (some given) before h = absurd (ground arith)
left_out true false given before h = absurd (ground arith)
left_out false b given before h = absurd (ground arith)

not_left_out :
    (r b : Bool) (given before : Option Text)
    → (r && (not (is_some given) && b)) ≡ false
    → given ≡ kept_secret (r && b) given before
not_left_out true true none before h = absurd (ground arith)
not_left_out true true (some given) before h = refl
not_left_out true false given before h = refl
not_left_out false b given before h = refl

keep_hmac_key_sound :
    (before : AcmeAccountConfig) (request : AcmeAccountRequest)
    → AcmeIsKept before request (keep_hmac_key before (acme_account_from_request request))
unfolding keep_hmac_key acme_account_from_request
keep_hmac_key_sound before request =
    elim (Bool-cases (
      acme_provider_beq request.provider google_cloud
      && (not (is_some request.eab_hmac_key) && acme_provider_beq before.provider google_cloud))) [
        | inl keep ↦
            rw (keep, keep_hmac_key)
              (record {
                same_id = refl;
                email = refl;
                eab_key_id = refl;
                eab_hmac_key =
                    left_out (acme_provider_beq request.provider google_cloud)
                      (acme_provider_beq before.provider google_cloud) request.eab_hmac_key
                      before.eab_hmac_key keep;
              })
        | inr take ↦
            rw (take, keep_hmac_key)
              (record {
                same_id = refl;
                email = refl;
                eab_key_id = refl;
                eab_hmac_key =
                    not_left_out (acme_provider_beq request.provider google_cloud)
                      (acme_provider_beq before.provider google_cloud) request.eab_hmac_key
                      before.eab_hmac_key take;
              })
      ]

-- Where update_acme_account succeeds, the account had the identifier before and has it still, with the
-- email and the key identifier of the request; a secret key that the request leaves out is the one
-- before where the provider is and was Google Cloud, and there is none otherwise; the account of every
-- other identifier is the same.
pub update_acme_account-AcmeIsUpdated :
    (id : Text) (request : AcmeAccountRequest) (config after : ProxyConfig) (other : Text)
    → update_acme_account id request config ≡ ok after
    → other ≢ id
    → AcmeIsUpdated id request config after
      × (acme_account_of other after ≡ acme_account_of other config)
unfolding update_acme_account
update_acme_account-AcmeIsUpdated id request config after other h apart =
    let (same_id, h1) =
      then_ok (require (request.id == id) (resource_conflict acme_id_changed)) _ h in
    let named =
      (==_iff request.id id).0
        (require_ok (request.id == id) (resource_conflict acme_id_changed) same_id) in
    let (before, looked_up, last) =
      bind-eq-ok (find_named account_id config.acme_accounts id an_acme_account) _ h1 in
    let found =
      find_named_sound account_id config.acme_accounts id an_acme_account before looked_up in
    let now = keep_hmac_key before (acme_account_from_request request) in
    let kept = keep_hmac_key_sound before request in
    let now_id = kept.same_id ∙ named in
    let result : (record config {
      acme_accounts = update_first (λ (a : AcmeAccountConfig). a.id == id) now config.acme_accounts;
    })
        ≡ after =
      ground arith in
    rw (← result) (
      record {
        before = before;
        found = found;
        now = now;
        updated =
            find_first-update_first (λ (a : AcmeAccountConfig). a.id == id) now config.acme_accounts
              ((==_iff now.id id).1 now_id) before found;
        same_id = now_id;
        email = kept.email;
        eab_key_id = kept.eab_key_id;
        eab_hmac_key = kept.eab_hmac_key;
      },
      find_first-update_other (λ (a : AcmeAccountConfig). a.id == id)
          (λ (a : AcmeAccountConfig). a.id == other) now config.acme_accounts
          (ground (arith, ==_iff now.id other))
          (λ x test. ground (arith, ==_iff x.id id, ==_iff x.id other)),
    )
