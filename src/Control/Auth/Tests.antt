-- ===== src/Control/Auth/Tests.antt =====
-- Logins of crates/gaterust-control/src/auth.rs. Here a password is its own hash.
use Prim.Native.Nat.{◌+◌}
use gate_rust.Common.{
  ℕ, ◌≡◌, ◌≤◌, refl, Bool, true, Option, none, some, List, [], ◌∷◌, arith, ◌==◌, ℕ_eq, list_eq,
}
use gate_rust.Common.Text.{Text, ascii}
use gate_rust.Common.Net.{ipv4, ip_eq}
use gate_rust.HashMap
use gate_rust.HashMap.{get-empty}
use gate_rust.Control.Auth.{
  AuthConfig, Claims, Login, Service, Event, arrives, tested, given_up, max_login_failures, run,
}
use gate_rust.Control.Auth.Answered.{wrong_answers}
use gate_rust.Control.Auth.Interleaved.{run_bound}

abbrev verify : Text → Text → Bool
verify hash password = hash == password

abbrev encode : Claims → Option Text
encode claims = some claims.sub

abbrev decode : ℕ → Text → Option Claims
decode now token = none

abbrev config : AuthConfig
config = record { username = ascii "admin"; password_hash = ascii "secret"; token_ttl = 3600 }

abbrev guess_at : ℕ → Login
guess_at now = record {
  username = ascii "admin";
  password = ascii "guess";
  checked_at = now;
  failed_at = now;
  wall_clock = some 0;
  works = true;
}

abbrev idle : Service
unfolding HashMap.empty
idle = record { attempts = HashMap.empty; pending = [] }

abbrev from_home : ℕ → Event
from_home now = arrives (ipv4 1) (guess_at now)

-- Two logins at once, one of which is given up, and others one after the other; the last is refused.
abbrev events : List Event
events =
    from_home 10
    ∷ from_home 11
    ∷ given_up 1
    ∷ tested 0
    ∷ arrives (ipv4 2) (guess_at 12)
    ∷ tested 0
    ∷ from_home 13
    ∷ from_home 13
    ∷ tested 0
    ∷ tested 0
    ∷ from_home 14
    ∷ from_home 14
    ∷ tested 0
    ∷ tested 0
    ∷ from_home 16
    ∷ []

five_are_tested : wrong_answers (ipv4 1) (run verify encode decode config events idle).0 ≡ 5
unfolding run HashMap.empty HashMap.get HashMap.insert HashMap.retain HashMap.size
five_are_tested = refl

abbrev overlapping : List Event
overlapping = from_home 10 ∷ from_home 11 ∷ tested 1 ∷ tested 0 ∷ []

run_bound_example :
    wrong_answers (ipv4 1) (run verify encode decode config overlapping idle).0 + 1
    ≤ max_login_failures + 2
unfolding run HashMap.empty HashMap.get HashMap.insert HashMap.retain HashMap.size
run_bound_example =
    run_bound verify encode decode config 10 2 (ipv4 1) overlapping idle refl refl
      (omega arith, (omega arith, (omega arith, (omega arith, omega arith))))
      ((omega arith, omega arith, refl), ((omega arith, omega arith, refl), (tt, (tt, tt))))
      (omega arith)

-- Logins that are let through before the first of them fails are all tested.
abbrev at_once : List Event
at_once =
    from_home 10
    ∷ from_home 10
    ∷ from_home 10
    ∷ from_home 10
    ∷ from_home 10
    ∷ from_home 10
    ∷ from_home 10
    ∷ tested 0
    ∷ tested 0
    ∷ tested 0
    ∷ tested 0
    ∷ tested 0
    ∷ tested 0
    ∷ tested 0
    ∷ []

seven_are_tested : wrong_answers (ipv4 1) (run verify encode decode config at_once idle).0 ≡ 7
unfolding run HashMap.empty HashMap.get HashMap.insert HashMap.retain HashMap.size
seven_are_tested = refl
