-- ===== src/Tunnel/Protocol/Declarations.antt =====
-- Which service declarations `validate_declarations` of crates/gaterust-tunnel/src/protocol.rs
-- accepts.
use gate_rust.Common.{
  ℕ, ◌≤◌, ◌≡◌, refl, ◌≢◌, ◌↔◌, ◌⊎◌, true, false, List, [], ◌∷◌, map, arith, all, All, contains,
  ==_iff, list_eq, ℕ_eq, length,
}
use gate_rust.Common.Text.{Text, is_empty}
use gate_rust.Common.Result.{ok}
use gate_rust.Tunnel.Config.{max_client_services}
use gate_rust.Tunnel.Runtime.{ServiceDeclaration}
use gate_rust.Tunnel.Protocol.{
  is_name_byte, is_valid_name, check_declarations, validate_declarations,
}

-- A letter, a digit, `-` or `_`.
abbrev pub IsNameByte : ℕ → Type 0
IsNameByte b =
    ((48 ≤ b) × (b ≤ 57)) ⊎ ((65 ≤ b) × (b ≤ 90)) ⊎ ((97 ≤ b) × (b ≤ 122)) ⊎ (b ≡ 45) ⊎ (b ≡ 95)

pub record IsName (name : Text) : Type 0 where
  pub present : 1 ≤ length name
  pub short : length name ≤ 64
  pub bytes : All IsNameByte name

is_name_byte_iff : (b : ℕ) → (is_name_byte b ≡ true) ↔ IsNameByte b
unfolding is_name_byte
is_name_byte_iff b = (λ h. ground arith, λ h. ground arith)

pub all_name_bytes_iff : (name : Text) → (all is_name_byte name ≡ true) ↔ All IsNameByte name
all_name_bytes_iff [] = (λ h. tt, λ h. refl)
all_name_bytes_iff (b ∷ name) = (
  λ h. ((is_name_byte_iff b).0 (ground arith), (all_name_bytes_iff name).0 (ground arith)),
  λ (h, hs). ground (arith, (is_name_byte_iff b).1 h, (all_name_bytes_iff name).1 hs),
)

pub present_of_not_empty : (name : Text) → is_empty name ≡ false → 1 ≤ length name
present_of_not_empty [] h = cc
present_of_not_empty (b ∷ name) h = omega arith

pub not_empty_of_present : (name : Text) → 1 ≤ length name → is_empty name ≡ false
not_empty_of_present [] h = absurd (omega arith)
not_empty_of_present (b ∷ name) h = refl

pub is_valid_name_iff : (name : Text) → (is_valid_name name ≡ true) ↔ IsName name
unfolding is_valid_name
is_valid_name_iff name = (
  λ h. record {
    present = present_of_not_empty name (ground arith);
    short = ground arith;
    bytes = (all_name_bytes_iff name).0 (ground arith);
  },
  λ h.
      ground
        (arith, not_empty_of_present name h.present, h.short, (all_name_bytes_iff name).1 h.bytes),
)

-- No two of the names are the same.
abbrev pub AreDistinct : List Text → Type 0
AreDistinct [] = Unit
AreDistinct (name ∷ names) = All (λ other. other ≢ name) names × AreDistinct names

abbrev pub names_of : List ServiceDeclaration → List Text
names_of = map (λ (s : ServiceDeclaration). s.name)

-- What the loop accepts, when it has seen some names.
record IsAccepted (seen : List Text) (services : List ServiceDeclaration) : Type 0 where
  names : All IsName (names_of services)
  distinct : AreDistinct (names_of services)
  unseen : All (λ name. contains seen name ≡ false) (names_of services)

unseen_cons :
    (seen : List Text) (name : Text) (names : List Text)
    → All (λ n. contains (name ∷ seen) n ≡ false) names
    → All (λ n. n ≢ name) names × All (λ n. contains seen n ≡ false) names
unseen_cons seen name [] h = (tt, tt)
unseen_cons seen name (n ∷ names) (h, hs) =
    let (rest, later) = unseen_cons seen name names hs in
    ((λ e. ground (arith, ==_iff name n), rest), (ground arith, later))

cons_unseen :
    (seen : List Text) (name : Text) (names : List Text)
    → All (λ n. n ≢ name) names
    → All (λ n. contains seen n ≡ false) names
    → All (λ n. contains (name ∷ seen) n ≡ false) names
cons_unseen seen name [] h k = tt
cons_unseen seen name (n ∷ names) (h, hs) (k, ks) =
    (ground (arith, ==_iff name n), cons_unseen seen name names hs ks)

check_declarations_sound :
    (seen : List Text) (services : List ServiceDeclaration)
    → check_declarations seen services ≡ ok tt
    → IsAccepted seen services
unfolding check_declarations
check_declarations_sound seen [] h = record { names = tt; distinct = tt; unseen = tt }
check_declarations_sound seen (s ∷ services) h =
    let rest = check_declarations_sound (s.name ∷ seen) services (ground arith) in
    let (others, unseen) = unseen_cons seen s.name (names_of services) rest.unseen in
    record {
      names = ((is_valid_name_iff s.name).0 (ground arith), rest.names);
      distinct = (others, rest.distinct);
      unseen = (ground arith, unseen);
    }

check_declarations_complete :
    (seen : List Text) (services : List ServiceDeclaration)
    → IsAccepted seen services
    → check_declarations seen services ≡ ok tt
unfolding check_declarations
check_declarations_complete seen [] a = refl
check_declarations_complete seen (s ∷ services) a = ground (
  arith,
  (is_valid_name_iff s.name).1 a.names.0,
  a.unseen.0,
  check_declarations_complete (s.name ∷ seen) services (record {
    names = a.names.1;
    distinct = a.distinct.1;
    unseen = cons_unseen seen s.name (names_of services) a.distinct.0 a.unseen.1;
  }),
)

unseen_nil : (names : List Text) → All (λ name. contains [] name ≡ false) names
unseen_nil [] = tt
unseen_nil (n ∷ names) = (refl, unseen_nil names)

-- A list of declarations is accepted exactly if it has at most 256 entries, each name has 1 to 64
-- bytes that are ASCII letters, digits, `-` or `_`, and no two names are the same.
pub validate_declarations_iff :
    (services : List ServiceDeclaration)
    → (validate_declarations services ≡ ok tt) ↔ (
        (length services ≤ max_client_services)
        × All IsName (names_of services)
        × AreDistinct (names_of services))
unfolding validate_declarations
validate_declarations_iff services = (
  λ h.
      let a = check_declarations_sound [] services (ground arith) in
      (ground arith, a.names, a.distinct),
  λ (few, names, distinct). ground (
    arith,
    check_declarations_complete [] services
        (record { names = names; distinct = distinct; unseen = unseen_nil (names_of services) }),
  ),
)
