-- ===== src/Tunnel/ConfigStatus/Reports.antt =====
-- What reports leave in the channel of `TunnelRuntime` in crates/gaterust-tunnel/src/runtime.rs.
use Prim.Native.Nat.{◌+◌, ◌%◌, ◌^◌, ◌≤◌}
use gate_rust.Common.{
  ℕ, ◌≡◌, refl, sym, ap, ◌∙◌, ◌⊎◌, inl, inr, Option, none, some, List, [], ◌∷◌, ◌++◌, EqTest, ℕ_eq,
  option_eq, arith, Option-cases, length, Memᴰ, head, tail,
}
use gate_rust.Common.Text.{Text}
use gate_rust.Tunnel.Config.{ServerConfig}
use gate_rust.Tunnel.ConfigStatus.{
  TunnelConfigStatus, ConfigApplyState, Report, applied, failed, load_failed, publish_config_status,
  report_config_load_error, published, report, states_of,
}

-- The configuration that a report is about, and how it went.
abbrev pub config_of : Report → Option ServerConfig
config_of (applied config) = some config
config_of (failed config error) = some config
config_of (load_failed error) = none

abbrev pub error_of : Report → Option Text
error_of (applied config) = none
error_of (failed config error) = some error
error_of (load_failed error) = some error

module _ {D : Type 0} ⦃e : EqTest D⦄ where
  -- The last state that is seen is the last state.
  pub data EndsWith (s : ConfigApplyState D) : List (ConfigApplyState D) → Type 0 where
    only : EndsWith s (s ∷ [])
    later :
        (t : ConfigApplyState D) (states : List (ConfigApplyState D))
        → EndsWith s states
        → EndsWith s (t ∷ states)

module _ {D : Type 0} ⦃e : EqTest D⦄ (fingerprint : ServerConfig → Option D) where
  -- The report is about a configuration with the fingerprint.
  abbrev pub IsAbout : Report → D → Type 0
  IsAbout r digest =
      (config : ServerConfig) × (config_of r ≡ some config) × (fingerprint config ≡ some digest)

  pub record Reported (reports : List Report) (digest : D) (status : TunnelConfigStatus)
      : Type 0 where
    pub made : Report
    pub member : Memᴰ made reports
    pub about : IsAbout made digest
    pub error : status.last_apply_error ≡ error_of made

  -- What one report leaves: the state before, or its own.
  report_origin :
      (r : Report) (s : ConfigApplyState D) (digest : D)
      → (report fingerprint r s).fingerprint ≡ some digest
      → (report fingerprint r s ≡ s)
        ⊎ (IsAbout r digest × ((report fingerprint r s).status.last_apply_error ≡ error_of r))
  unfolding report published publish_config_status report_config_load_error
  report_origin (load_failed error) s digest h = absurd (ground arith)
  report_origin (applied config) s digest h = elim (Option-cases (fingerprint config)) [
    | inl absent ↦ inl (rw (absent, report, published) refl)
    | inr (d, print) ↦
        let same : d ≡ digest = ground arith in
        inr ((config, refl, print ∙ ap some same), rw (print, report, published) refl)
  ]
  report_origin (failed config error) s digest h = elim (Option-cases (fingerprint config)) [
    | inl absent ↦ inl (rw (absent, report, published) refl)
    | inr (d, print) ↦
        let same : d ≡ digest = ground arith in
        inr ((config, refl, print ∙ ap some same), rw (print, report, published) refl)
  ]

  origin_here :
      (r : Report) (reports : List Report) (s t : ConfigApplyState D) (digest : D)
      → t ≡ report fingerprint r s
      → t.fingerprint ≡ some digest
      → (t ≡ s) ⊎ Reported (r ∷ reports) digest t.status
  origin_here r reports s t digest same print =
      elim (report_origin r s digest
        (ap (λ (x : ConfigApplyState D). x.fingerprint) (sym same) ∙ print)) [
          | inl kept ↦ inl (same ∙ kept)
          | inr (about, error) ↦ inr (record {
            made = r;
            member = head refl;
            about = about;
            error = ap (λ (x : ConfigApplyState D). x.status.last_apply_error) same ∙ error;
          })
        ]

  pub origin :
      (reports : List Report) (s t : ConfigApplyState D) (digest : D)
      → Memᴰ t (states_of fingerprint reports s)
      → t.fingerprint ≡ some digest
      → (t ≡ s) ⊎ Reported reports digest t.status
  unfolding states_of
  origin [] s t digest member print = elim member [ ]
  origin (r ∷ reports) s t digest (head same) print = origin_here r reports s t digest same print
  origin (r ∷ reports) s t digest (tail member) print =
      elim (origin reports (report fingerprint r s) t digest member print) [
        | inl same ↦ origin_here r reports s t digest same print
        | inr found ↦ inr (record {
          made = found.made;
          member = tail found.member;
          about = found.about;
          error = found.error;
        })
      ]

  -- The state after the last report, which publishes.
  pub record IsLast (reports : List Report) (r : Report) (s : ConfigApplyState D) (digest : D)
      : Type 0 where
    pub last : ConfigApplyState D
    pub ends : EndsWith last (states_of fingerprint (reports ++ r ∷ []) s)
    pub print : last.fingerprint ≡ some digest
    pub k : ℕ
    pub few : k ≤ length reports
    pub revision : last.status.revision ≡ (s.status.revision + (k + 1)) % 2 ^ 64

  report_revision :
      (r : Report) (s : ConfigApplyState D)
      → ((report fingerprint r s).status.revision ≡ s.status.revision)
        ⊎ ((report fingerprint r s).status.revision ≡ (s.status.revision + 1) % 2 ^ 64)
  unfolding report published publish_config_status report_config_load_error
  report_revision (load_failed error) s = inr refl
  report_revision (applied config) s = elim (Option-cases (fingerprint config)) [
    | inl absent ↦ inl (rw (absent, report, published) refl)
    | inr (d, print) ↦ inr (rw (print, report, published) refl)
  ]
  report_revision (failed config error) s = elim (Option-cases (fingerprint config)) [
    | inl absent ↦ inl (rw (absent, report, published) refl)
    | inr (d, print) ↦ inr (rw (print, report, published) refl)
  ]

  one_report :
      (r : Report) (s : ConfigApplyState D) (digest : D)
      → IsAbout r digest
      → ((report fingerprint r s).fingerprint ≡ some digest)
        × ((report fingerprint r s).status.revision ≡ (s.status.revision + 1) % 2 ^ 64)
  unfolding report published publish_config_status
  one_report (load_failed error) s digest (config, same, print) = absurd (ground arith)
  one_report (applied config) s digest (c, same, print) =
      let equal : config ≡ c = ground arith in
      let found : fingerprint config ≡ some digest = ap fingerprint equal ∙ print in
      rw (found, report, published) (refl, refl)
  one_report (failed config error) s digest (c, same, print) =
      let equal : config ≡ c = ground arith in
      let found : fingerprint config ≡ some digest = ap fingerprint equal ∙ print in
      rw (found, report, published) (refl, refl)

  pub report-IsLast :
      (reports : List Report) (r : Report) (s : ConfigApplyState D) (digest : D)
      → IsAbout r digest
      → IsLast reports r s digest
  unfolding states_of
  report-IsLast [] r s digest about =
      let (print, revision) = one_report r s digest about in
      record {
        last = report fingerprint r s;
        ends = only;
        print = print;
        k = 0;
        few = omega arith;
        revision = revision;
      }
  report-IsLast (q ∷ reports) r s digest about =
      let next = report fingerprint q s in
      let rest = report-IsLast reports r next digest about in
      let revision = rest.revision in
      let few = rest.few in
      elim (report_revision q s) [
        | inl same ↦ record {
          last = rest.last;
          ends = later next (states_of fingerprint (reports ++ r ∷ []) next) rest.ends;
          print = rest.print;
          k = rest.k;
          few = omega arith;
          revision = rw same at revision;
        }
        | inr more ↦ record {
          last = rest.last;
          ends = later next (states_of fingerprint (reports ++ r ∷ []) next) rest.ends;
          print = rest.print;
          k = rest.k + 1;
          few = omega arith;
          revision = omega arith;
        }
      ]
