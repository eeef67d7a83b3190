-- ===== src/Tunnel/Listeners/Wanted.antt =====
-- The configuration that `apply_once` of crates/gaterust-tunnel/src/server/mod.rs wants for a name.
use gate_rust.Common.{
  ◌≡◌, ◌≢◌, refl, sym, ap, ◌∙◌, inl, inr, true, some, List, [], ◌∷◌, arith, ◌==◌, ==_iff, ℕ_eq,
  list_eq, option_eq, contains, All, Bool-cases, Option-cases, Memᴰ, head, tail,
}
use gate_rust.Common.Text.{Text}
use gate_rust.Common.Distinct.{AllDifferent}
use gate_rust.HashMap
use gate_rust.HashMap.{HashMap, last_for, get-collect, get-Member, Member-get, get-empty}
use gate_rust.Tunnel.Config.{ServerTunnelConfig}
use gate_rust.Tunnel.Listeners.{by_name, desired_of}
use gate_rust.Tunnel.Listeners.Served.{Agree}
use gate_rust.Tunnel.Listeners.Attempts.{names_in}

-- Elements of one name are the same.
abbrev pub Unique : List ServerTunnelConfig → Type 0
Unique l = (a b : ServerTunnelConfig) → Memᴰ a l → Memᴰ b l → a.name ≡ b.name → a ≡ b

not_named :
    (x a : ServerTunnelConfig) (l : List ServerTunnelConfig)
    → All (λ y. y ≢ x.name) (names_in l)
    → Memᴰ a l
    → a.name ≢ x.name
not_named x a [] others member = elim member [ ]
not_named x a (y ∷ l) (other, others) (head same) =
    λ equal. other (ap (λ (c : ServerTunnelConfig). c.name) (sym same) ∙ equal)
not_named x a (y ∷ l) (other, others) (tail member) = not_named x a l others member

pub different-Unique : (l : List ServerTunnelConfig) → AllDifferent (names_in l) → Unique l
different-Unique [] different a b ma mb same = elim ma [ ]
different-Unique (x ∷ l) (others, different) a b (head ea) (head eb) same = ea ∙ sym eb
different-Unique (x ∷ l) (others, different) a b (head ea) (tail mb) same =
    absurd (not_named x b l others mb (sym same ∙ ap (λ (c : ServerTunnelConfig). c.name) ea))
different-Unique (x ∷ l) (others, different) a b (tail ma) (head eb) same =
    absurd (not_named x a l others ma (same ∙ ap (λ (c : ServerTunnelConfig). c.name) eb))
different-Unique (x ∷ l) (others, different) a b (tail ma) (tail mb) same =
    different-Unique l different a b ma mb same

pub last_named :
    (n : Text) (l : List ServerTunnelConfig) (c : ServerTunnelConfig)
    → last_for n (by_name l) ≡ some c
    → Memᴰ c l × (c.name ≡ n)
unfolding last_for
last_named n [] c h = absurd (ground arith)
last_named n (x ∷ l) c h = elim (Option-cases (last_for n (by_name l))) [
  | inr (d, found) ↦
      let same : d ≡ c = ground arith in
      let (member, named) = last_named n l d found in rw (← same) (tail member, named)
  | inl absent ↦ elim (Bool-cases (x.name == n)) [
    | inr other ↦ absurd (ground arith)
    | inl here ↦
        let same : x ≡ c = ground arith in rw (← same) (head refl, (==_iff x.name n).0 here)
  ]
]

pub last_present :
    (n : Text) (l : List ServerTunnelConfig)
    → contains (names_in l) n ≡ true
    → (c : ServerTunnelConfig) × (last_for n (by_name l) ≡ some c)
unfolding last_for
last_present n [] h = absurd (ground arith)
last_present n (x ∷ l) h = elim (Option-cases (last_for n (by_name l))) [
  | inr (d, found) ↦ (d, rw (found, last_for) refl)
  | inl absent ↦ elim (Bool-cases (x.name == n)) [
    | inl here ↦ (x, rw (absent, here, last_for) refl)
    | inr other ↦ let (c, found) = last_present n l (ground arith) in absurd (ground arith)
  ]
]

pub contains-named :
    (n : Text) (l : List ServerTunnelConfig) (c : ServerTunnelConfig)
    → Memᴰ c l
    → c.name ≡ n
    → contains (names_in l) n ≡ true
contains-named n [] c member named = elim member [ ]
contains-named n (x ∷ l) c (head same) named = ground (arith, ==_iff x.name n)
contains-named n (x ∷ l) c (tail member) named = ground (arith, contains-named n l c member)

pub get-desired_of :
    (n : Text) (l : List ServerTunnelConfig) → HashMap.get n (desired_of l) ≡ last_for n (by_name l)
unfolding desired_of
get-desired_of n l = get-collect n (by_name l)

Agree-each :
    (l rest : List ServerTunnelConfig)
    → Unique l
    → ((c : ServerTunnelConfig) → Memᴰ c rest → Memᴰ c l)
    → Agree (desired_of l) rest
Agree-each l [] unique inside = tt
Agree-each l (c ∷ rest) unique inside =
    let here = inside c (head refl) in
    let (d, found) = last_present c.name l (contains-named c.name l c here refl) in
    let (member, named) = last_named c.name l d found in
    let same = unique d c member here named in
    (
      get-desired_of c.name l ∙ found ∙ ap some same,
      Agree-each l rest unique (λ x m. inside x (tail m)),
    )

pub Agree-all : (l : List ServerTunnelConfig) → Unique l → Agree (desired_of l) l
Agree-all l unique = Agree-each l l unique (λ c m. m)
