-- ===== src/Tunnel/ConfigStatus/Waiting.antt =====
-- When `wait_for_config` of crates/gaterust-tunnel/src/runtime.rs answers, and with what.
use Prim.Native.Nat.{◌+◌, ◌^◌, ◌<◌}
use gate_rust.Common.{
  ℕ, ◌≡◌, ◌≢◌, refl, ap, inl, inr, true, false, not, ◌&&◌, Option, some, List, [], ◌∷◌, ◌++◌,
  EqTest, ◌==◌, ==_iff, ℕ_eq, option_eq, arith, Bool-cases, length, Memᴰ, head, tail,
}
use gate_rust.Tunnel.Config.{ServerConfig}
use gate_rust.Tunnel.ConfigStatus.{
  TunnelConfigStatus, ConfigApplyState, Report, first_match, seen_before, states_of, wait_for,
}
use gate_rust.Tunnel.ConfigStatus.Reports.{
  EndsWith, only, later, IsAbout, Reported, origin, report-IsLast,
}

-- What a reader of the channel sees of its states: it may miss some, and it sees the last.
pub data Observes {D : Type 0}
    : List (ConfigApplyState D) → List (ConfigApplyState D) → Type 0 where
  at_last : (s : ConfigApplyState D) → Observes (s ∷ []) (s ∷ [])
  seen :
      (s : ConfigApplyState D) (states observed : List (ConfigApplyState D))
      → Observes states observed
      → Observes (s ∷ states) (s ∷ observed)
  missed :
      (s : ConfigApplyState D) (states observed : List (ConfigApplyState D))
      → Observes states observed
      → Observes (s ∷ states) observed

module _ {D : Type 0} ⦃e : EqTest D⦄ where
  observed_last :
      (s : ConfigApplyState D) (states observed : List (ConfigApplyState D))
      → EndsWith s states
      → Observes states observed
      → EndsWith s observed
  observed_last s _ _ only (at_last _) = only
  observed_last s _ _ (later t _ ends) (at_last _) = elim ends [ ]
  observed_last s _ _ only (seen t _ observed sees) = elim sees [ ]
  observed_last s _ _ (later t states ends) (seen _ _ observed sees) =
      later t observed (observed_last s states observed ends sees)
  observed_last s _ _ only (missed t _ observed sees) = elim sees [ ]
  observed_last s _ _ (later t states ends) (missed _ _ observed sees) =
      observed_last s states observed ends sees

  first_match_last :
      (fingerprint : D) (after : ℕ) (s : ConfigApplyState D) (observed : List (ConfigApplyState D))
      → EndsWith s observed
      → s.fingerprint ≡ some fingerprint
      → s.status.revision ≢ after
      → (status : TunnelConfigStatus) × (first_match fingerprint after observed ≡ some status)
  unfolding first_match
  first_match_last fingerprint after s _ only print fresh =
      let new : (s.status.revision == after) ≡ false =
        ground (arith, ==_iff s.status.revision after) in
      let same : (s.fingerprint == some fingerprint) ≡ true =
        (==_iff s.fingerprint (some fingerprint)).1 print in
      (s.status, rw (new, same, first_match) refl)
  first_match_last fingerprint after s _ (later t states ends) print fresh =
      let (status, found) = first_match_last fingerprint after s states ends print fresh in
      elim (Bool-cases (not (t.status.revision == after) && t.fingerprint == some fingerprint)) [
        | inl here ↦ (t.status, rw (here, first_match) refl)
        | inr there ↦ (status, rw (there, first_match) found)
      ]

  -- What is answered is the status of a state that was seen.
  first_match_sound :
      (fingerprint : D) (after : ℕ) (observed : List (ConfigApplyState D))
      (status : TunnelConfigStatus)
      → first_match fingerprint after observed ≡ some status
      → (s : ConfigApplyState D) × Memᴰ s observed
        × (s.status ≡ status)
        × (s.fingerprint ≡ some fingerprint)
        × (s.status.revision ≢ after)
  unfolding first_match
  first_match_sound fingerprint after [] status h = absurd (ground arith)
  first_match_sound fingerprint after (t ∷ observed) status h =
      elim (Bool-cases (t.status.revision == after)) [
        | inl old ↦
            let rest : first_match fingerprint after observed ≡ some status =
              rw (old, first_match) at h in
            let (s, member, equal, print, fresh) =
              first_match_sound fingerprint after observed status rest in
            (s, tail member, equal, print, fresh)
        | inr new ↦ elim (Bool-cases (t.fingerprint == some fingerprint)) [
          | inr other ↦
              let rest : first_match fingerprint after observed ≡ some status =
                rw (new, other, first_match) at h in
              let (s, member, equal, print, fresh) =
                first_match_sound fingerprint after observed status rest in
              (s, tail member, equal, print, fresh)
          | inl same ↦ (
            t,
            head refl,
            ground (arith, same),
            (==_iff t.fingerprint (some fingerprint)).0 same,
            λ equal. ground (arith, ==_iff t.status.revision after),
          )
        ]
      ]

observed_member :
    {D : Type 0} (t : ConfigApplyState D) (states observed : List (ConfigApplyState D))
    → Observes states observed
    → Memᴰ t observed
    → Memᴰ t states
observed_member t _ _ (at_last s) member = member
observed_member t _ _ (seen s states observed sees) (head same) = head same
observed_member t _ _ (seen s states observed sees) (tail member) =
    tail (observed_member t states observed sees member)
observed_member t _ _ (missed s states observed sees) member =
    tail (observed_member t states observed sees member)

module _ {D : Type 0} ⦃e : EqTest D⦄ (fingerprint : ServerConfig → Option D) where
  first_match-Reported :
      (reports : List Report) (r : Report) (s : ConfigApplyState D) (digest : D)
      (observed : List (ConfigApplyState D))
      → s.status.revision < 2 ^ 64
      → length reports + 1 < 2 ^ 64
      → IsAbout fingerprint r digest
      → Observes (s ∷ states_of fingerprint (reports ++ r ∷ []) s) observed
      → (status : TunnelConfigStatus) × (first_match digest s.status.revision observed
          ≡ some status)
        × Reported fingerprint (reports ++ r ∷ []) digest status
  first_match-Reported reports r s digest observed small few about sees =
      let all = reports ++ r ∷ [] in
      let last = report-IsLast fingerprint reports r s digest about in
      let states = states_of fingerprint all s in
      let ends = observed_last last.last (s ∷ states) observed (later s states last.ends) sees in
      let revision = last.revision in
      let within = last.few in
      let fresh : last.last.status.revision ≢ s.status.revision = λ same. omega arith in
      let (status, found) =
        first_match_last digest s.status.revision last.last observed ends last.print fresh in
      let (t, member, equal, print, new) =
        first_match_sound digest s.status.revision observed status found in
      let reported : Reported fingerprint all digest t.status =
        elim (observed_member t (s ∷ states) observed sees member) [
          | head same ↦ absurd (new (ap (λ (x : ConfigApplyState D). x.status.revision) same))
          | tail there ↦ elim (origin fingerprint all s t digest there print) [
            | inl same ↦ absurd (new (ap (λ (x : ConfigApplyState D). x.status.revision) same))
            | inr given ↦ given
          ]
        ] in
      (status, found, rw equal at reported)

  -- Whatever states of the channel the waiter misses: if the last report is about a configuration of the
  -- fingerprint, fewer than 2^64 reports are made after the revision was read, and the waiter comes to
  -- see the state that the last report leaves before its deadline, the wait answers with a status, and
  -- that is how one of these reports, on a configuration of the same fingerprint, went.
  pub wait_for-Reported :
      (reports : List Report) (r : Report) (s current : ConfigApplyState D) (digest : D)
      (deadline : ℕ) (changes : List (ℕ × ConfigApplyState D))
      → s.status.revision < 2 ^ 64
      → length reports + 1 < 2 ^ 64
      → IsAbout fingerprint r digest
      → Observes
          (s ∷ states_of fingerprint (reports ++ r ∷ []) s)
          (current ∷ seen_before deadline changes)
      → (status : TunnelConfigStatus) × (wait_for digest s.status.revision deadline current changes
          ≡ some status)
        × Reported fingerprint (reports ++ r ∷ []) digest status
  unfolding wait_for
  wait_for-Reported reports r s current digest deadline changes small few about sees =
      first_match-Reported reports r s digest (current ∷ seen_before deadline changes) small few
        about sees
