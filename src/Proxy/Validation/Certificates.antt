-- ===== src/Proxy/Validation/Certificates.antt =====
-- The loop over the certificates in `ProxyConfig::validate` of crates/gaterust-proxy/src/config.rs.
use gate_rust.Common.{
  ◌∙◌, suc, ap, ◌≤◌, ◌≡◌, refl, ◌⊎◌, inl, inr, Bool, true, false, not, ◌&&◌, Option, none, some,
  List, [], ◌∷◌, ◌++◌, map, arith, list_eq, ℕ_eq, contains, All, is_some, length, Memᴰ, head, tail,
  ltb,
}
use gate_rust.Common.Text.{Text}
use gate_rust.Common.Result.{ok, bind-eq-ok, then_ok, require, require_ok}
use gate_rust.Common.Distinct.{AllDifferent}
use gate_rust.HashMap
use gate_rust.HashMap.{HashMap}
use gate_rust.Proxy.Config.{CertificateValidation, dns_account, manual, CertificateConfig}
use gate_rust.Proxy.Fields.{is_domain, invalid_domain_count, unknown_acme_account}
use gate_rust.Proxy.Validation.{
  Seen, Certified, check_names, check_method, check_domains, validate_certificate,
  check_certificates,
}
use gate_rust.Proxy.Validation.Names.{NamesAreFree, nothing_left, check_names_sound}
use gate_rust.Proxy.Validation.Domains.{
  Unowned, DomainsAreFree, check_domains_step, frame_each, check_domains_sound, check_domains_owner,
  different_append, Unowned-append,
}

abbrev pub certificate_ids : List CertificateConfig → List Text
certificate_ids = map (λ (c : CertificateConfig). c.id)

abbrev pub certificate_names : List CertificateConfig → List Text
certificate_names = map (λ (c : CertificateConfig). c.name)

abbrev pub domains_of : List CertificateConfig → List Text
domains_of [] = []
domains_of (c ∷ certificates) = c.domains ++ domains_of certificates

-- How a certificate proves its domains: with a DNS account that exists, by hand and without
-- renewal, or, when its migration failed, not at all.
abbrev pub MethodIsValid : List Text → Option CertificateValidation → Bool → Option Text → Type 0
MethodIsValid dns (some (dns_account id)) auto_renew migration_error = contains dns id ≡ true
MethodIsValid dns (some manual) auto_renew migration_error = auto_renew ≡ false
MethodIsValid dns none auto_renew migration_error =
    (is_some migration_error ≡ true) × (auto_renew ≡ false)

pub record CertificateIsValid (acme dns : List Text) (c : CertificateConfig) : Type 0 where
  pub account : contains acme c.acme_account_id ≡ true
  pub method : MethodIsValid dns c.validation c.auto_renew c.migration_error
  pub domains : All (λ d. is_domain d ≡ true) c.domains
  pub some_domains : 1 ≤ length c.domains
  pub few_domains : length c.domains ≤ 100

check_method_sound :
    (dns : List Text) (validation : Option CertificateValidation) (auto_renew : Bool)
    (migration_error : Option Text)
    → check_method dns validation auto_renew migration_error ≡ ok tt
    → MethodIsValid dns validation auto_renew migration_error
unfolding check_method
check_method_sound dns (some (dns_account id)) auto_renew migration_error h = require_ok _ _ h
check_method_sound dns (some manual) auto_renew migration_error h = ground (arith, require_ok _ _ h)
check_method_sound dns none auto_renew migration_error h =
    (ground (arith, require_ok _ _ h), ground (arith, require_ok _ _ h))

check_domains-length :
    (id : Text) (values own : List Text) (owners : HashMap Text Text) (ds : List Text)
    (after : HashMap Text Text)
    → check_domains id values own owners ≡ ok (ds, after)
    → length ds ≡ length values
unfolding check_domains
check_domains-length id [] own owners ds after h = ground arith
check_domains-length id (value ∷ values) own owners ds after h =
    let step = check_domains_step id value values own owners ds after h in
    let size =
      check_domains-length id values (step.domain ∷ own) (HashMap.insert step.domain id owners)
        step.rest after step.later in
    rw step.shape (ap suc size)

record CertificateStep (acme dns : List Text) (c : CertificateConfig) (owners : HashMap Text Text)
    (done : CertificateConfig) (after : HashMap Text Text) : Type 0 where
  pub valid : CertificateIsValid acme dns done
  pub free : DomainsAreFree owners done.domains
  pub checked : check_domains c.id c.domains [] owners ≡ ok (done.domains, after)
  pub same_id : done.id ≡ c.id
  pub same_name : done.name ≡ c.name

validate_certificate_sound :
    (acme dns : List Text) (c : CertificateConfig) (owners : HashMap Text Text)
    (done : CertificateConfig) (after : HashMap Text Text)
    → validate_certificate acme dns c owners ≡ ok (done, after)
    → CertificateStep acme dns c owners done after
unfolding validate_certificate
validate_certificate_sound acme dns c owners done after h =
    let (account, h1) =
      then_ok (require (contains acme c.acme_account_id) unknown_acme_account) _ h in
    let (method, h2) =
      then_ok (check_method dns c.validation c.auto_renew c.migration_error) _ h1 in
    let (count, h3) =
      then_ok
        (require (ltb 0 (length c.domains) && not (ltb 100 (length c.domains)))
          invalid_domain_count)
        _ h2 in
    let ((ds, final), checked, last) = bind-eq-ok (check_domains c.id c.domains [] owners) _ h3 in
    let free = check_domains_sound c.id c.domains [] owners ds final checked in
    let size = check_domains-length c.id c.domains [] owners ds final checked in
    let result : record c { domains = ds } ≡ done = ground arith in
    let same : final ≡ after = ground arith in
    let counted =
      require_ok (ltb 0 (length c.domains) && not (ltb 100 (length c.domains))) invalid_domain_count
        count in
    rw (← result, ← same)
      (record {
        valid = record {
          account = require_ok (contains acme c.acme_account_id) unknown_acme_account account;
          method = check_method_sound dns c.validation c.auto_renew c.migration_error method;
          domains = free.valid;
          some_domains = ground arith;
          few_domains = ground arith;
        };
        free = free;
        checked = checked;
        same_id = refl;
        same_name = refl;
      })

-- What the loop accepts, when it has seen some certificates and some domains have owners.
pub record CertificatesAreAccepted (acme dns : List Text) (seen : Seen) (owners : HashMap Text Text)
    (certificates : List CertificateConfig) : Type 0 where
  pub valid : All (CertificateIsValid acme dns) certificates
  pub names : NamesAreFree seen (certificate_ids certificates) (certificate_names certificates)
  pub unowned : Unowned owners (domains_of certificates)
  pub different : AllDifferent (domains_of certificates)

record CertificatesStep (acme dns : List Text) (c : CertificateConfig)
    (certificates : List CertificateConfig) (seen : Seen) (owners : HashMap Text Text)
    (result : Certified) : Type 0 where
  next : Seen
  done : CertificateConfig
  after : HashMap Text Text
  rest : Certified
  named : check_names c.id c.name seen ≡ ok next
  step : CertificateStep acme dns c owners done after
  later : check_certificates acme dns certificates next after ≡ ok rest
  listed : result.certificates ≡ done ∷ rest.certificates
  owned : result.owners ≡ rest.owners

check_certificates_step :
    (acme dns : List Text) (c : CertificateConfig) (certificates : List CertificateConfig)
    (seen : Seen) (owners : HashMap Text Text) (result : Certified)
    → check_certificates acme dns (c ∷ certificates) seen owners ≡ ok result
    → CertificatesStep acme dns c certificates seen owners result
unfolding check_certificates
check_certificates_step acme dns c certificates seen owners result h =
    let (next, named, h1) = bind-eq-ok (check_names c.id c.name seen) _ h in
    let ((done, after), validated, h2) = bind-eq-ok (validate_certificate acme dns c owners) _ h1 in
    let (rest, later, last) =
      bind-eq-ok (check_certificates acme dns certificates next after) _ h2 in
    record {
      next = next;
      done = done;
      after = after;
      rest = rest;
      named = named;
      step = validate_certificate_sound acme dns c owners done after validated;
      later = later;
      listed = ground arith;
      owned = ground arith;
    }

pub check_certificates_sound :
    (acme dns : List Text) (certificates : List CertificateConfig) (seen : Seen)
    (owners : HashMap Text Text) (result : Certified)
    → check_certificates acme dns certificates seen owners ≡ ok result
    → CertificatesAreAccepted acme dns seen owners result.certificates
unfolding check_certificates
check_certificates_sound acme dns [] seen owners result h =
    let none_left : [] ≡ result.certificates = ground arith in
    rw (← none_left)
      (record { valid = tt; names = nothing_left seen; unowned = tt; different = tt })
check_certificates_sound acme dns (c ∷ certificates) seen owners result h =
    let s = check_certificates_step acme dns c certificates seen owners result h in
    let rest = check_certificates_sound acme dns certificates s.next s.after s.rest s.later in
    let done = s.done in
    let (unseen, unowned) =
      frame_each c.id c.domains [] owners done.domains s.after (domains_of s.rest.certificates)
        s.step.checked rest.unowned in
    let names =
      check_names_sound c.id c.name seen s.next (certificate_ids s.rest.certificates)
        (certificate_names s.rest.certificates) s.named rest.names in
    rw s.listed (record {
      valid = (s.step.valid, rest.valid);
      names = rw (s.step.same_id, s.step.same_name) names;
      unowned =
          Unowned-append owners done.domains (domains_of s.rest.certificates) s.step.free.unowned
            unowned;
      different =
          different_append done.domains (domains_of s.rest.certificates) s.step.free.different
            rest.different unseen;
    })

-- An owner afterwards is an owner before, or a certificate of the list with that domain.
pub check_certificates_owner :
    (acme dns : List Text) (certificates : List CertificateConfig) (seen : Seen)
    (owners : HashMap Text Text) (result : Certified) (d owner : Text)
    → check_certificates acme dns certificates seen owners ≡ ok result
    → HashMap.get d result.owners ≡ some owner
    → (HashMap.get d owners ≡ some owner)
      ⊎ ((c : CertificateConfig) × Memᴰ c result.certificates
          × (c.id ≡ owner)
          × (contains c.domains d ≡ true))
unfolding check_certificates
check_certificates_owner acme dns [] seen owners result d owner h found = inl (ground arith)
check_certificates_owner acme dns (c ∷ certificates) seen owners result d owner h found =
    let s = check_certificates_step acme dns c certificates seen owners result h in
    let listed = s.listed in
    let owned = s.owned in
    elim (check_certificates_owner acme dns certificates s.next s.after s.rest d owner s.later
      (ground arith)) [
        | inr (k, member, same, has) ↦ inr (k, rw listed (tail member), same, has)
        | inl before ↦
            elim (check_domains_owner c.id c.domains [] owners s.done.domains s.after d owner
              s.step.checked before) [
                | inl earlier ↦ inl earlier
                | inr (same, has) ↦
                    let kept = s.step.same_id in
                    inr (s.done, rw listed (head refl), kept ∙ same, has)
              ]
      ]
