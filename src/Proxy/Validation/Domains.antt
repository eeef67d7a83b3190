-- ===== src/Proxy/Validation/Domains.antt =====
-- The loop of `CertificateConfig::validate` of crates/gaterust-proxy/src/config.rs over the domains:
-- a domain has one owner.
use gate_rust.Common.{
  ◌≡◌, refl, ◌≢◌, Bool-cases, ◌==◌, ◌⊎◌, inl, inr, true, false, not, none, some, List, [], ◌∷◌,
  ◌++◌, arith, list_eq, ℕ_eq, contains, All, ==_iff, Option-cases,
}
use gate_rust.Common.Text.{Text}
use gate_rust.Common.Result.{ok, bind-eq-ok, then_ok, require, require_ok}
use gate_rust.Common.Distinct.{AllDifferent, Unseen, extend, not_before}
use gate_rust.HashMap
use gate_rust.HashMap.{HashMap, get-insert}
use gate_rust.Proxy.Fields.{domain_owned, domain_repeated, is_domain, normalize, normalize_domain}
use gate_rust.Proxy.Validation.{check_domains}

-- None of the domains has an owner.
abbrev pub Unowned : HashMap Text Text → List Text → Type 0
Unowned owners = All (λ d. HashMap.get d owners ≡ none)

pub normalize_domain_sound :
    (value domain : Text) → normalize_domain value ≡ ok domain → is_domain domain ≡ true
unfolding normalize_domain
normalize_domain_sound value domain h =
    let same : normalize value ≡ domain = ground arith in rw (← same) (ground arith)

-- A round of the loop.
pub record DomainStep (id value : Text) (values own : List Text) (owners : HashMap Text Text)
    (ds : List Text) (after : HashMap Text Text) : Type 0 where
  pub domain : Text
  pub rest : List Text
  pub valid : is_domain domain ≡ true
  pub unowned : HashMap.get domain owners ≡ none
  pub later :
      check_domains id values (domain ∷ own) (HashMap.insert domain id owners) ≡ ok (rest, after)
  pub shape : ds ≡ domain ∷ rest

pub check_domains_step :
    (id value : Text) (values own : List Text) (owners : HashMap Text Text) (ds : List Text)
    (after : HashMap Text Text)
    → check_domains id (value ∷ values) own owners ≡ ok (ds, after)
    → DomainStep id value values own owners ds after
unfolding check_domains
check_domains_step id value values own owners ds after h =
    let (domain, normal, h1) = bind-eq-ok (normalize_domain value) _ h in
    let (_, h2) = then_ok (require (not (contains own domain)) domain_repeated) _ h1 in
    let (free, h3) =
      then_ok (require (not (HashMap.contains_key domain owners)) domain_owned) _ h2 in
    let ((rest, final), later, last) =
      bind-eq-ok (check_domains id values (domain ∷ own) (HashMap.insert domain id owners)) _ h3 in
    let same : final ≡ after = ground arith in
    record {
      domain = domain;
      rest = rest;
      valid = normalize_domain_sound value domain normal;
      unowned = elim (Option-cases (HashMap.get domain owners)) [
        | inl absent ↦ absent
        | inr (o, found) ↦ absurd (
            ground (arith, require_ok (not (HashMap.contains_key domain owners)) domain_owned free))
      ];
      later = rw (← same) later;
      shape = ground arith;
    }

-- A domain without an owner afterwards had none, and is not one of the certificate's.
pub check_domains_frame :
    (id : Text) (values own : List Text) (owners : HashMap Text Text) (ds : List Text)
    (after : HashMap Text Text) (d : Text)
    → check_domains id values own owners ≡ ok (ds, after)
    → HashMap.get d after ≡ none
    → (contains ds d ≡ false) × (HashMap.get d owners ≡ none)
unfolding check_domains
check_domains_frame id [] own owners ds after d h absent = (ground arith, ground arith)
check_domains_frame id (value ∷ values) own owners ds after d h absent =
    let step = check_domains_step id value values own owners ds after h in
    let (other, before) =
      check_domains_frame id values (step.domain ∷ own) (HashMap.insert step.domain id owners)
        step.rest after d step.later absent in
    let shape = step.shape in
    (
      ground (arith, get-insert step.domain d id owners),
      ground (arith, get-insert step.domain d id owners),
    )

-- What a loop over lists of domains has left free.
pub frame_each :
    (id : Text) (values own : List Text) (owners : HashMap Text Text) (ds : List Text)
    (after : HashMap Text Text) (others : List Text)
    → check_domains id values own owners ≡ ok (ds, after)
    → Unowned after others
    → Unseen ds others × Unowned owners others
frame_each id values own owners ds after [] h free = (tt, tt)
frame_each id values own owners ds after (d ∷ others) h (absent, free) =
    let (other, before) = check_domains_frame id values own owners ds after d h absent in
    let (unseen, unowned) = frame_each id values own owners ds after others h free in
    ((other, unseen), (before, unowned))

free_before :
    (x id : Text) (owners : HashMap Text Text) (ds : List Text)
    → Unowned (HashMap.insert x id owners) ds
    → Unseen (x ∷ []) ds × Unowned owners ds
free_before x id owners [] h = (tt, tt)
free_before x id owners (d ∷ ds) (absent, h) =
    let (unseen, unowned) = free_before x id owners ds h in
    (
      (ground (arith, get-insert x d id owners), unseen),
      (ground (arith, get-insert x d id owners), unowned),
    )

-- The domains of one certificate.
pub record DomainsAreFree (owners : HashMap Text Text) (ds : List Text) : Type 0 where
  pub valid : All (λ d. is_domain d ≡ true) ds
  pub unowned : Unowned owners ds
  pub different : AllDifferent ds

pub check_domains_sound :
    (id : Text) (values own : List Text) (owners : HashMap Text Text) (ds : List Text)
    (after : HashMap Text Text)
    → check_domains id values own owners ≡ ok (ds, after)
    → DomainsAreFree owners ds
unfolding check_domains
check_domains_sound id [] own owners ds after h =
    let none_left : [] ≡ ds = ground arith in
    rw (← none_left) (record { valid = tt; unowned = tt; different = tt })
check_domains_sound id (value ∷ values) own owners ds after h =
    let step = check_domains_step id value values own owners ds after h in
    let rest =
      check_domains_sound id values (step.domain ∷ own) (HashMap.insert step.domain id owners)
        step.rest after step.later in
    let (unseen, unowned) = free_before step.domain id owners step.rest rest.unowned in
    let (_, different) = extend [] step.domain step.rest refl unseen rest.different in
    rw step.shape (record {
      valid = (step.valid, rest.valid);
      unowned = (step.unowned, unowned);
      different = different;
    })

-- An owner afterwards is the owner before, or the certificate whose domain it is.
pub check_domains_owner :
    (id : Text) (values own : List Text) (owners : HashMap Text Text) (ds : List Text)
    (after : HashMap Text Text) (d owner : Text)
    → check_domains id values own owners ≡ ok (ds, after)
    → HashMap.get d after ≡ some owner
    → (HashMap.get d owners ≡ some owner) ⊎ ((id ≡ owner) × (contains ds d ≡ true))
unfolding check_domains
check_domains_owner id [] own owners ds after d owner h found = inl (ground arith)
check_domains_owner id (value ∷ values) own owners ds after d owner h found =
    let step = check_domains_step id value values own owners ds after h in
    let shape = step.shape in
    elim (check_domains_owner id values (step.domain ∷ own) (HashMap.insert step.domain id owners)
      step.rest after d owner step.later found) [
        | inr (same, listed) ↦ inr (same, ground arith)
        | inl before ↦ elim (Bool-cases (step.domain == d)) [
          | inl here ↦ inr (
            ground (arith, get-insert step.domain d id owners),
            ground (arith, ==_iff d step.domain, ==_iff step.domain d),
          )
          | inr other ↦ inl (ground (arith, get-insert step.domain d id owners))
        ]
      ]

-- Loops that take only what the earlier ones left give lists without repetition.
all_append :
    (x : Text) (ds others : List Text)
    → All (λ y. y ≢ x) ds
    → All (λ y. y ≢ x) others
    → All (λ y. y ≢ x) (ds ++ others)
all_append x [] others h g = g
all_append x (d ∷ ds) others (here, h) g = (here, all_append x ds others h g)

pub different_append :
    (ds others : List Text)
    → AllDifferent ds
    → AllDifferent others
    → Unseen ds others
    → AllDifferent (ds ++ others)
different_append [] others h g unseen = g
different_append (d ∷ ds) others (apart, h) g unseen =
    let (away, rest) = not_before ds d others unseen in
    (all_append d ds others apart away, different_append ds others h g rest)

pub Unowned-append :
    (owners : HashMap Text Text) (ds others : List Text)
    → Unowned owners ds
    → Unowned owners others
    → Unowned owners (ds ++ others)
Unowned-append owners [] others h g = g
Unowned-append owners (d ∷ ds) others (here, h) g = (here, Unowned-append owners ds others h g)
