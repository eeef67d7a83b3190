-- ===== src/Proxy/Validation/Names.antt =====
-- The identifiers and names that `ProxyConfig::validate` of crates/gaterust-proxy/src/config.rs keeps
-- apart.
use gate_rust.Common.{◌≡◌, false, List, [], ◌∷◌, map, arith, list_eq, ℕ_eq, contains}
use gate_rust.Common.Text.{Text}
use gate_rust.Common.Result.{ok, bind-eq-ok, then_ok}
use gate_rust.Common.Distinct.{AllDifferent, Unseen, extend}
use gate_rust.Proxy.Config.{AcmeAccountConfig, DnsAccountConfig}
use gate_rust.Proxy.Fields.{insert_unique, validate_display_name, validate_id}
use gate_rust.Proxy.Validation.{Seen, check_names, check_acme_accounts, check_dns_accounts}

pub insert_unique_sound :
    (values : List Text) (value : Text) (next : List Text)
    → insert_unique values value ≡ ok next
    → (contains values value ≡ false) × (next ≡ value ∷ values)
unfolding insert_unique
insert_unique_sound values value next h = (ground arith, ground arith)

-- No identifier and no name of the later entries repeats, or is among those seen.
pub record NamesAreFree (seen : Seen) (ids names : List Text) : Type 0 where
  pub unseen_ids : Unseen seen.ids ids
  pub different_ids : AllDifferent ids
  pub unseen_names : Unseen seen.names names
  pub different_names : AllDifferent names

pub nothing_left : (seen : Seen) → NamesAreFree seen [] []
nothing_left seen = record {
  unseen_ids = tt;
  different_ids = tt;
  unseen_names = tt;
  different_names = tt;
}

pub check_names_sound :
    (id name : Text) (seen next : Seen) (ids names : List Text)
    → check_names id name seen ≡ ok next
    → NamesAreFree next ids names
    → NamesAreFree seen (id ∷ ids) (name ∷ names)
unfolding check_names
check_names_sound id name seen next ids names h free =
    let (_, h1) = then_ok (validate_id id) _ h in
    let (_, h2) = then_ok (validate_display_name name) _ h1 in
    let (new_ids, inserted, h3) = bind-eq-ok (insert_unique seen.ids id) _ h2 in
    let (new_names, named, last) = bind-eq-ok (insert_unique seen.names name) _ h3 in
    let (fresh_id, ids_are) = insert_unique_sound seen.ids id new_ids inserted in
    let (fresh_name, names_are) = insert_unique_sound seen.names name new_names named in
    let ids_next : next.ids ≡ id ∷ seen.ids = ground arith in
    let names_next : next.names ≡ name ∷ seen.names = ground arith in
    let (unseen_ids, different_ids) =
      extend seen.ids id ids fresh_id (rw ids_next at free.unseen_ids) free.different_ids in
    let (unseen_names, different_names) =
      extend seen.names name names fresh_name (rw names_next at free.unseen_names)
        free.different_names in
    record {
      unseen_ids = unseen_ids;
      different_ids = different_ids;
      unseen_names = unseen_names;
      different_names = different_names;
    }

abbrev pub acme_ids : List AcmeAccountConfig → List Text
acme_ids = map (λ (a : AcmeAccountConfig). a.id)

abbrev pub acme_names : List AcmeAccountConfig → List Text
acme_names = map (λ (a : AcmeAccountConfig). a.name)

abbrev pub dns_ids : List DnsAccountConfig → List Text
dns_ids = map (λ (a : DnsAccountConfig). a.id)

abbrev pub dns_names : List DnsAccountConfig → List Text
dns_names = map (λ (a : DnsAccountConfig). a.name)

pub check_acme_accounts_sound :
    (accounts : List AcmeAccountConfig) (seen : Seen)
    → check_acme_accounts accounts seen ≡ ok tt
    → NamesAreFree seen (acme_ids accounts) (acme_names accounts)
unfolding check_acme_accounts
check_acme_accounts_sound [] seen h = nothing_left seen
check_acme_accounts_sound (a ∷ accounts) seen h =
    let (next, named, h1) = bind-eq-ok (check_names a.id a.name seen) _ h in
    let (_, later) = then_ok _ _ h1 in
    check_names_sound a.id a.name seen next (acme_ids accounts) (acme_names accounts) named
      (check_acme_accounts_sound accounts next later)

pub check_dns_accounts_sound :
    (accounts : List DnsAccountConfig) (seen : Seen)
    → check_dns_accounts accounts seen ≡ ok tt
    → NamesAreFree seen (dns_ids accounts) (dns_names accounts)
unfolding check_dns_accounts
check_dns_accounts_sound [] seen h = nothing_left seen
check_dns_accounts_sound (a ∷ accounts) seen h =
    let (next, named, h1) = bind-eq-ok (check_names a.id a.name seen) _ h in
    let (_, later) = then_ok _ _ h1 in
    check_names_sound a.id a.name seen next (dns_ids accounts) (dns_names accounts) named
      (check_dns_accounts_sound accounts next later)
