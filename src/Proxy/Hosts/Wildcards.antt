-- ===== src/Proxy/Hosts/Wildcards.antt =====
-- What a wildcard matches (crates/gaterust-proxy/src/config.rs), and that a host matches one
-- wildcard at most, so that no order among the wildcards matters.
use gate_rust.Common.{
  ℕ, ◌≡◌, refl, ap, sym, ◌∙◌, ◌↔◌, true, false, some, [], ◌∷◌, ◌++◌, arith, ==_iff, ℕ_eq, list_eq,
  list_beq, list_beq_iff, contains, length, length-append, Bool-cases, Option-cases, inl, inr,
}
use gate_rust.Common.Text.{Text, strip_suffix, without_last, ends_with_byte}
use gate_rust.Proxy.Hosts.{is_label, wildcard_matches}

strip_suffix-eq-some : (t s p : Text) → strip_suffix t s ≡ some p → s ≡ p ++ t
strip_suffix-eq-some t [] p h = ground (arith, list_beq_iff t [])
strip_suffix-eq-some t (b ∷ s) p h = elim (Bool-cases (list_beq t (b ∷ s))) [
  | inl whole ↦ ground (arith, list_beq_iff t (b ∷ s))
  | inr part ↦ elim (Option-cases (strip_suffix t s)) [
    | inl missing ↦ absurd (ground arith)
    | inr (q, found) ↦ ground (arith, strip_suffix-eq-some t s q found)
  ]
]

-- A list is no longer than itself.
longer : (b : ℕ) (p t : Text) → list_beq t (b ∷ (p ++ t)) ≡ false
longer b p t = elim (Bool-cases (list_beq t (b ∷ (p ++ t)))) [
  | inl same ↦
      absurd (ground (arith, list_beq_iff t (b ∷ (p ++ t)), length-append p t, ap (length {A = ℕ})))
  | inr other ↦ other
]

strip_suffix_self : (t : Text) → strip_suffix t t ≡ some []
strip_suffix_self [] = refl
strip_suffix_self (b ∷ t) = ground (arith, list_beq_iff (b ∷ t) (b ∷ t))

strip_suffix-append : (t p : Text) → strip_suffix t (p ++ t) ≡ some p
strip_suffix-append t [] = strip_suffix_self t
strip_suffix-append t (b ∷ p) = ground (arith, longer b p t, strip_suffix-append t p)

ends_with_byte-split :
    (c : ℕ) (p : Text) → ends_with_byte c p ≡ true → p ≡ without_last p ++ (c ∷ [])
ends_with_byte-split c [] h = absurd (ground arith)
ends_with_byte-split c (a ∷ []) h = ground (arith, ==_iff a c)
ends_with_byte-split c (a ∷ b ∷ s) h = ground (arith, ends_with_byte-split c (b ∷ s) h)

ends_with_byte-append : (c : ℕ) (p : Text) → ends_with_byte c (p ++ (c ∷ [])) ≡ true
ends_with_byte-append c [] = ground (arith, ==_iff c c)
ends_with_byte-append c (a ∷ []) = ground (arith, ==_iff c c)
ends_with_byte-append c (a ∷ b ∷ s) = ends_with_byte-append c (b ∷ s)

without_last-append : (c : ℕ) (p : Text) → without_last (p ++ (c ∷ [])) ≡ p
without_last-append c [] = refl
without_last-append c (a ∷ []) = refl
without_last-append c (a ∷ b ∷ s) = ap (◌∷◌ a) (without_last-append c (b ∷ s))

append_assoc : (p q r : Text) → (p ++ q) ++ r ≡ p ++ (q ++ r)
append_assoc [] q r = refl
append_assoc (b ∷ p) q r = ap (◌∷◌ b) (append_assoc p q r)

split :
    (host suffix p : Text)
    → strip_suffix suffix host ≡ some p
    → is_label p ≡ true
    → (label : Text) × (host ≡ label ++ (b'.' ∷ suffix)) × (contains label b'.' ≡ false)
unfolding is_label
split host suffix p found named = (
  without_last p,
  ground (
    arith,
    strip_suffix-eq-some suffix host p found,
    ends_with_byte-split b'.' p,
    append_assoc (without_last p) (b'.' ∷ []) suffix,
  ),
  ground arith,
)

-- `*.suffix` matches a host exactly if the host is the suffix behind a dot and one label.
-- The label may be empty.
pub wildcard_matches_iff :
    (host suffix : Text)
    → (wildcard_matches host suffix ≡ true)
      ↔ ((label : Text) × (host ≡ label ++ (b'.' ∷ suffix)) × (contains label b'.' ≡ false))
unfolding wildcard_matches is_label
wildcard_matches_iff host suffix = (
  λ matched. elim (Option-cases (strip_suffix suffix host)) [
    | inl missing ↦ absurd (ground arith)
    | inr (p, found) ↦ split host suffix p found (ground arith)
  ],
  λ (label, shape, plain). ground (
    arith,
    strip_suffix-append suffix (label ++ (b'.' ∷ [])),
    append_assoc label (b'.' ∷ []) suffix,
    ends_with_byte-append b'.' label,
    without_last-append b'.' label,
  ),
)

behind_label :
    (l k s t : Text)
    → l ++ (b'.' ∷ s) ≡ k ++ (b'.' ∷ t)
    → contains l b'.' ≡ false
    → contains k b'.' ≡ false
    → s ≡ t
behind_label [] [] s t same left right = ground arith
behind_label [] (b ∷ k) s t same left right = absurd (ground (arith, ==_iff b b'.'))
behind_label (b ∷ l) [] s t same left right = absurd (ground (arith, ==_iff b b'.'))
behind_label (a ∷ l) (b ∷ k) s t same left right =
    behind_label l k s t (ground arith) (ground arith) (ground arith)

-- A host matches one wildcard at most: suffixes that both match are the same. So the answers of
-- `find` and `certificate_for_host` depend on no order among wildcards, the hash map's included.
pub wildcard_matches_unique :
    (host s t : Text) → wildcard_matches host s ≡ true → wildcard_matches host t ≡ true → s ≡ t
wildcard_matches_unique host s t first second =
    let (l, left, plain) = (wildcard_matches_iff host s).0 first in
    let (k, right, clear) = (wildcard_matches_iff host t).0 second in
    behind_label l k s t (sym left ∙ right) plain clear
