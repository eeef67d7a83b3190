-- ===== src/Control/Auth/Answered.antt =====
-- What an answer of `login` in crates/gaterust-control/src/auth.rs leaves of the count of an address's
-- failures and of its logins in flight.
use Prim.Native.Nat.{◌+◌, ◌≤◌, ◌<◌, zero, suc}
use gate_rust.Common.{
  ℕ, ◌≡◌, refl, Bool, true, false, not, ◌||◌, ◌&&◌, Option, none, some, List, [], ◌∷◌,
  if◌then◌else◌, arith, ◌==◌, list_eq, ℕ_eq, All, Bool-cases, inl, inr,
}
use gate_rust.Common.Text.{Text}
use gate_rust.Common.Net.{IpAddr, ip_eq}
use gate_rust.Common.Result.{Result, ok, err}
use gate_rust.HashMap
use gate_rust.HashMap.{HashMap, size-remove-le}
use gate_rust.Control.Auth.{
  login_window, max_login_failures, max_tracked_addresses, LoginAttempt, LoginError,
  invalid_credentials, rate_limited, internal, Claims, AuthToken, AuthConfig, Login, is_wrong,
  Service, take_at, finish_login,
}
use gate_rust.Control.Auth.Throttle.{
  Tracked, own_failure-Tracked, other_failure-Tracked, other_success-Tracked, size-record_failure,
}

abbrev is_invalid : Result LoginError AuthToken → Bool
is_invalid (err invalid_credentials) = true
is_invalid (err rate_limited) = false
is_invalid (err internal) = false
is_invalid (ok token) = false

abbrev pub one_wrong : IpAddr → Option (IpAddr × Result LoginError AuthToken) → ℕ
one_wrong address none = 0
one_wrong address (some a) = if a.0 == address && is_invalid a.1 then 1 else 0

-- How many logins of the address are told that the name or the password is wrong.
abbrev pub wrong_answers : IpAddr → List (IpAddr × Result LoginError AuthToken) → ℕ
wrong_answers address [] = 0
wrong_answers address (a ∷ answers) = one_wrong address (some a) + wrong_answers address answers

-- How many logins of the address have been let through and are not answered.
abbrev pub in_flight : IpAddr → List (IpAddr × Login) → ℕ
in_flight address [] = 0
in_flight address (p ∷ pending) = (if p.0 == address then 1 else 0) + in_flight address pending

module _ (verify : Text → Text → Bool) (encode : Claims → Option Text)
    (decode : ℕ → Text → Option Claims) where
  -- A login of any address in the window that begins at an instant, which is wrong if it is the address's.
  abbrev pub IsGuess : AuthConfig → ℕ → IpAddr → IpAddr × Login → Type 0
  IsGuess config start address p =
      (start ≤ p.1.failed_at)
      × (p.1.checked_at < start + login_window)
      × ((not (p.0 == address) || is_wrong verify encode decode config p.1) ≡ true)

  module _ (config : AuthConfig) (start most : ℕ) (address : IpAddr) where
    -- Where so many logins of the address have been answered as wrong.
    pub record IsBounded (failures : ℕ) (s : Service) : Type 0 where
      pub tracked : Tracked start address failures s.attempts
      pub bounded : failures + 1 + in_flight address s.pending ≤ max_login_failures + most
      pub guesses : All (IsGuess config start address) s.pending

    abbrev pub IsTaken :
        List (IpAddr × Login) → Option (IpAddr × Login) × List (IpAddr × Login) → Type 0
    IsTaken pending (none, rest) =
        (in_flight address rest ≡ in_flight address pending)
        × All (IsGuess config start address) rest
    IsTaken pending (some p, rest) =
        (in_flight address pending ≡ in_flight address (p ∷ rest))
        × IsGuess config start address p
        × All (IsGuess config start address) rest

    behind :
        (q : IpAddr × Login) (pending : List (IpAddr × Login))
        (taken : Option (IpAddr × Login) × List (IpAddr × Login))
        → IsGuess config start address q
        → IsTaken pending taken
        → IsTaken (q ∷ pending) (taken.0, q ∷ taken.1)
    behind q pending (none, rest) g (count, guesses) = (omega arith, (g, guesses))
    behind q pending (some p, rest) g (count, h, guesses) = (omega arith, h, (g, guesses))

    pub take_at-IsTaken :
        (n : ℕ) (pending : List (IpAddr × Login))
        → All (IsGuess config start address) pending
        → IsTaken pending (take_at n pending)
    unfolding take_at
    take_at-IsTaken n [] h = (refl, tt)
    take_at-IsTaken zero (p ∷ pending) (g, h) = (refl, g, h)
    take_at-IsTaken (suc n) (p ∷ pending) (g, h) =
        behind p pending (take_at n pending) g (take_at-IsTaken n pending h)

    -- An answer for one of the pending logins, and what it leaves.
    pub record IsAnswered (failures : ℕ) (s : Service) (rest : List (IpAddr × Login))
        (answer : IpAddr × Result LoginError AuthToken) (after : HashMap IpAddr LoginAttempt)
        : Type 0 where
      pub total : ℕ
      pub counted : failures + one_wrong address (some answer) ≡ total
      pub bounded : IsBounded total (record { attempts = after; pending = rest })
      pub size : HashMap.size after ≤ HashMap.size s.attempts + 1

    pub finish_own :
        (failures : ℕ) (p : IpAddr × Login) (rest : List (IpAddr × Login)) (s : Service)
        → (p.0 == address) ≡ true
        → Tracked start address failures s.attempts
        → failures + 2 + in_flight address rest ≤ max_login_failures + most
        → IsGuess config start address p
        → All (IsGuess config start address) rest
        → HashMap.size s.attempts < max_tracked_addresses
        → let done = finish_login verify encode decode config p.0 p.1 s.attempts in
          IsAnswered failures s rest (p.0, done.0) done.1
    unfolding finish_login
    finish_own failures p rest s own tracked count (since, within, wrong) guesses free =
        elim (Bool-cases p.1.works) [
          | inr down ↦
              rw (down, finish_login)
                (record {
                  total = failures;
                  counted = rw own (omega arith);
                  bounded = record { tracked = tracked; bounded = omega arith; guesses = guesses };
                  size = omega arith;
                })
          | inl up ↦
              let guess : is_wrong verify encode decode config p.1 ≡ true = ground (arith, own) in
              let failed =
                own_failure-Tracked start address p.0 failures p.1.failed_at s.attempts free own
                  since tracked in
              rw (up, guess, finish_login)
                (record {
                  total = suc failures;
                  counted = rw own (omega arith);
                  bounded = record { tracked = failed; bounded = omega arith; guesses = guesses };
                  size = size-record_failure p.1.failed_at p.0 s.attempts free;
                })
        ]

    pub finish_other :
        (failures : ℕ) (p : IpAddr × Login) (rest : List (IpAddr × Login)) (s : Service)
        → (p.0 == address) ≡ false
        → Tracked start address failures s.attempts
        → failures + 1 + in_flight address rest ≤ max_login_failures + most
        → All (IsGuess config start address) rest
        → HashMap.size s.attempts < max_tracked_addresses
        → let done = finish_login verify encode decode config p.0 p.1 s.attempts in
          IsAnswered failures s rest (p.0, done.0) done.1
    unfolding finish_login
    finish_other failures p rest s other tracked count guesses free = elim (Bool-cases p.1.works) [
      | inr down ↦
          rw (down, finish_login)
            (record {
              total = failures;
              counted = rw other (omega arith);
              bounded = record { tracked = tracked; bounded = count; guesses = guesses };
              size = omega arith;
            })
      | inl up ↦ elim (Bool-cases (is_wrong verify encode decode config p.1)) [
        | inl wrong ↦
            rw (up, wrong, finish_login)
              (record {
                total = failures;
                counted = rw other (omega arith);
                bounded = record {
                  tracked =
                      other_failure-Tracked start address p.0 failures p.1.failed_at s.attempts free
                        other tracked;
                  bounded = count;
                  guesses = guesses;
                };
                size = size-record_failure p.1.failed_at p.0 s.attempts free;
              })
        | inr right ↦
            let less = size-remove-le p.0 s.attempts in
            rw (up, right, finish_login)
              (record {
                total = failures;
                counted = rw other (omega arith);
                bounded = record {
                  tracked =
                      other_success-Tracked start address p.0 failures s.attempts other tracked;
                  bounded = count;
                  guesses = guesses;
                };
                size = omega arith;
              })
      ]
    ]
