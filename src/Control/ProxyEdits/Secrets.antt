-- ===== src/Control/ProxyEdits/Secrets.antt =====
-- The secrets that an update of an account leaves out, in crates/gaterust-control/src/store.rs.
use gate_rust.Common.{
  ◌≡◌, refl, if◌then◌else◌, Bool, true, false, Option, some, List, [], ◌∷◌, arith, ◌==◌, list_eq,
  ℕ_eq, find_first, Bool-cases, inl, inr, or_else,
}
use gate_rust.Common.Text.{Text}
use gate_rust.Proxy.Config.{AcmeAccountConfig, DnsAccountConfig, ProxyConfig}
use gate_rust.Control.Named.{update_first}

module _ {T : Type 0} where
  -- The first element that passes the test after it was replaced.
  pub find_first-update_first :
      (p : T → Bool) (new : T) (items : List T)
      → p new ≡ true
      → (current : T) → find_first p items ≡ some current
      → find_first p (update_first p new items) ≡ some new
  find_first-update_first p new [] h current found = absurd (ground arith)
  find_first-update_first p new (x ∷ items) h current found = elim (Bool-cases (p x)) [
    | inl here ↦ rw (here, h) refl
    | inr there ↦ rw (there, there) (find_first-update_first p new items h current (ground arith))
  ]

  -- Other elements stay.
  pub find_first-update_other :
      (p q : T → Bool) (new : T) (items : List T)
      → q new ≡ false
      → ((x : T) → p x ≡ true → q x ≡ false)
      → find_first q (update_first p new items) ≡ find_first q items
  find_first-update_other p q new [] h apart = refl
  find_first-update_other p q new (x ∷ items) h apart = elim (Bool-cases (p x)) [
    | inl here ↦ rw (here, h, apart x here) refl
    | inr there ↦ rw there (rw (find_first-update_other p q new items h apart) refl)
  ]

-- The account of an identifier.
abbrev pub dns_account_of : Text → ProxyConfig → Option DnsAccountConfig
dns_account_of id config = find_first (λ (a : DnsAccountConfig). a.id == id) config.dns_accounts

abbrev pub acme_account_of : Text → ProxyConfig → Option AcmeAccountConfig
acme_account_of id config = find_first (λ (a : AcmeAccountConfig). a.id == id) config.acme_accounts

-- A secret that is left out is the one before, for the same provider.
abbrev pub kept_secret : Bool → Option Text → Option Text → Option Text
kept_secret same given before = if same then or_else given before else given
