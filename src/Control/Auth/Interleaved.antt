-- ===== src/Control/Auth/Interleaved.antt =====
-- How many passwords an address may try in crates/gaterust-control/src/auth.rs, however its logins and
-- those of other addresses are interleaved.
use Prim.Native.Nat.{◌+◌, ◌≤◌, ◌<◌}
use gate_rust.Common.{
  ℕ, ◌≡◌, refl, ◌∙◌, Bool, Option, none, some, List, [], ◌∷◌, length, arith, ◌==◌, list_eq, ℕ_eq,
  All, Bool-cases, inl, inr,
}
use gate_rust.Common.Text.{Text}
use gate_rust.Common.Net.{IpAddr, ip_eq}
use gate_rust.Common.Result.{Result, err}
use gate_rust.HashMap
use gate_rust.HashMap.{HashMap, size-remove-le}
use gate_rust.Control.Auth.{
  max_login_failures, max_tracked_addresses, LoginAttempt, LoginError, rate_limited, Claims,
  AuthToken, AuthConfig, Login, Service, Event, arrives, tested, given_up, take_at, can_attempt,
  begin_login, finish_login, finished, step, with_answer, run,
}
use gate_rust.Control.Auth.Throttle.{can_attempt-Tracked, own_attempt-few, size-can_attempt}
use gate_rust.Control.Auth.Answered.{
  one_wrong, wrong_answers, in_flight, IsGuess, IsBounded, IsTaken, IsAnswered, take_at-IsTaken,
  finish_own, finish_other,
}

module _ (verify : Text → Text → Bool) (encode : Claims → Option Text)
    (decode : ℕ → Text → Option Claims) where
  abbrev pub OnlyGuesses : AuthConfig → ℕ → IpAddr → Event → Type 0
  OnlyGuesses config start address (arrives other l) =
      IsGuess verify encode decode config start address (other, l)
  OnlyGuesses config start address (tested n) = Unit
  OnlyGuesses config start address (given_up n) = Unit

  -- The address never has more logins in flight.
  abbrev pub AtMostInFlight : AuthConfig → ℕ → IpAddr → List Event → Service → Type 0
  AtMostInFlight config most address [] s = in_flight address s.pending ≤ most
  AtMostInFlight config most address (e ∷ events) s =
      (in_flight address s.pending ≤ most)
      × AtMostInFlight config most address events (step verify encode decode config e s).1

  module _ (config : AuthConfig) (start most : ℕ) (address : IpAddr) where
    -- One step, and what it leaves.
    record IsStepped (failures : ℕ) (s : Service)
        (answer : Option (IpAddr × Result LoginError AuthToken)) (after : Service) : Type 0 where
      total : ℕ
      counted : failures + one_wrong address answer ≡ total
      bounded : IsBounded verify encode decode config start most address total after
      size : HashMap.size after.attempts ≤ HashMap.size s.attempts + 1

    begin_sound :
        (failures : ℕ) (other : IpAddr) (l : Login) (s : Service)
        → IsBounded verify encode decode config start most address failures s
        → IsGuess verify encode decode config start address (other, l)
        → in_flight address (begin_login verify encode decode other l s).1.pending ≤ most
        → IsStepped failures s
            (begin_login verify encode decode other l s).0
            (begin_login verify encode decode other l s).1
    unfolding begin_login
    begin_sound failures other l s b (since, within, wrong) few =
        let now = l.checked_at in
        let tracked =
          can_attempt-Tracked start address failures now other s.attempts within b.tracked in
        let smaller = size-can_attempt now other s.attempts in
        let waiting = b.bounded in
        elim (Bool-cases (can_attempt now other s.attempts).0) [
          | inr refused ↦
              let apart : one_wrong address (some (other, err rate_limited)) ≡ 0 = ground (arith) in
              rw (begin_login, refused)
                (record {
                  total = failures;
                  counted = rw apart (omega arith);
                  bounded = record { tracked = tracked; bounded = waiting; guesses = b.guesses };
                  size = omega arith;
                })
          | inl free ↦
              let count : in_flight address ((other, l) ∷ s.pending) ≤ most =
                rw (begin_login, free) at few in
              let bounded : failures + 1 + in_flight address ((other, l) ∷ s.pending)
                  ≤ max_login_failures + most =
                elim (Bool-cases (other == address)) [
                  | inr apart ↦ rw apart (omega arith)
                  | inl own ↦
                      let tries =
                        own_attempt-few start address other failures now s.attempts own tracked
                          free in
                      omega arith
                ] in
              rw (begin_login, free)
                (record {
                  total = failures;
                  counted = omega arith;
                  bounded = record {
                    tracked = tracked;
                    bounded = bounded;
                    guesses = ((since, within, wrong), b.guesses);
                  };
                  size = omega arith;
                })
        ]

    answered_step :
        (failures : ℕ) (s : Service) (rest : List (IpAddr × Login))
        (answer : IpAddr × Result LoginError AuthToken) (after : HashMap IpAddr LoginAttempt)
        → IsAnswered verify encode decode config start most address failures s rest answer after
        → IsStepped failures s (some answer) (record { attempts = after; pending = rest })
    answered_step failures s rest answer after a = record {
      total = a.total;
      counted = a.counted;
      bounded = a.bounded;
      size = a.size;
    }

    finished_sound :
        (failures : ℕ) (s : Service) (taken : Option (IpAddr × Login) × List (IpAddr × Login))
        → IsBounded verify encode decode config start most address failures s
        → IsTaken verify encode decode config start most address s.pending taken
        → HashMap.size s.attempts < max_tracked_addresses
        → IsStepped failures s
            (finished verify encode decode config taken s).0
            (finished verify encode decode config taken s).1
    unfolding finished
    finished_sound failures s (none, rest) b h free = record {
      total = failures;
      counted = omega arith;
      bounded = b;
      size = omega arith;
    }
    finished_sound failures s (some p, rest) b (count, guess, guesses) free =
        let waiting = b.bounded in
        answered_step failures s rest
          (p.0, (finish_login verify encode decode config p.0 p.1 s.attempts).0)
          (finish_login verify encode decode config p.0 p.1 s.attempts).1
          (elim (Bool-cases (p.0 == address)) [
            | inl own ↦
                let n : in_flight address s.pending ≡ 1 + in_flight address rest =
                  count ∙ rw own refl in
                finish_own verify encode decode config start most address failures p rest s own
                  b.tracked (omega arith) guess guesses free
            | inr other ↦
                let n : in_flight address s.pending ≡ 0 + in_flight address rest =
                  count ∙ rw other refl in
                finish_other verify encode decode config start most address failures p rest s other
                  b.tracked (omega arith) guesses free
          ])

    given_up_sound :
        (failures : ℕ) (s : Service) (taken : Option (IpAddr × Login) × List (IpAddr × Login))
        → IsBounded verify encode decode config start most address failures s
        → IsTaken verify encode decode config start most address s.pending taken
        → IsStepped failures s none (record s { pending = taken.1 })
    given_up_sound failures s (none, rest) b (count, guesses) =
        let waiting = b.bounded in
        record {
          total = failures;
          counted = omega arith;
          bounded = record { tracked = b.tracked; bounded = omega arith; guesses = guesses };
          size = omega arith;
        }
    given_up_sound failures s (some p, rest) b (count, guess, guesses) =
        let waiting = b.bounded in
        record {
          total = failures;
          counted = omega arith;
          bounded = record { tracked = b.tracked; bounded = omega arith; guesses = guesses };
          size = omega arith;
        }

    step_sound :
        (failures : ℕ) (e : Event) (s : Service)
        → IsBounded verify encode decode config start most address failures s
        → OnlyGuesses config start address e
        → HashMap.size s.attempts < max_tracked_addresses
        → in_flight address (step verify encode decode config e s).1.pending ≤ most
        → IsStepped failures s
            (step verify encode decode config e s).0
            (step verify encode decode config e s).1
    unfolding step
    step_sound failures (arrives other l) s b guess free few =
        begin_sound failures other l s b guess few
    step_sound failures (tested n) s b guess free few =
        finished_sound failures s (take_at n s.pending) b
          (take_at-IsTaken verify encode decode config start most address n s.pending b.guesses)
          free
    step_sound failures (given_up n) s b guess free few =
        given_up_sound failures s (take_at n s.pending) b
          (take_at-IsTaken verify encode decode config start most address n s.pending b.guesses)

    wrong_answers-with_answer :
        (answer : Option (IpAddr × Result LoginError AuthToken))
        (answers : List (IpAddr × Result LoginError AuthToken))
        → wrong_answers address (with_answer answer answers)
          ≡ one_wrong address answer + wrong_answers address answers
    wrong_answers-with_answer none answers = omega arith
    wrong_answers-with_answer (some a) answers = refl

    in_flight_now :
        (events : List Event) (s : Service)
        → AtMostInFlight config most address events s
        → in_flight address s.pending ≤ most
    in_flight_now [] s h = h
    in_flight_now (e ∷ events) s h = h.0

    run_bounded :
        (failures : ℕ) (events : List Event) (s : Service)
        → IsBounded verify encode decode config start most address failures s
        → AtMostInFlight config most address events s
        → All (OnlyGuesses config start address) events
        → HashMap.size s.attempts + length events ≤ max_tracked_addresses
        → failures + wrong_answers address (run verify encode decode config events s).0 + 1
          ≤ max_login_failures + most
    unfolding run
    run_bounded failures [] s b few guesses room = let waiting = b.bounded in omega arith
    run_bounded failures (e ∷ events) s b (now, later) (guess, guesses) room =
        let next = step verify encode decode config e s in
        let one =
          step_sound failures e s b guess (omega arith) (in_flight_now events next.1 later) in
        let size = one.size in
        let counted = one.counted in
        let rest = run_bounded one.total events next.1 one.bounded later guesses (omega arith) in
        let answers = (run verify encode decode config events next.1).0 in
        let added = wrong_answers-with_answer next.0 answers in omega arith

  -- From a service with no login in flight and an address that is not tracked, through any interleaving
  -- of logins of any addresses within a window: if those of the address are all wrong, no more of them
  -- than a number are ever in flight together, and the table has room for one more address at every
  -- event, then at most four more than that number are told that the name or the password is wrong. That
  -- is five where the address's logins come one after the other.
  pub run_bound :
      (config : AuthConfig) (start most : ℕ) (address : IpAddr) (events : List Event) (s : Service)
      → s.pending ≡ []
      → HashMap.get address s.attempts ≡ none
      → AtMostInFlight config most address events s
      → All (OnlyGuesses config start address) events
      → HashMap.size s.attempts + length events ≤ max_tracked_addresses
      → wrong_answers address (run verify encode decode config events s).0 + 1
        ≤ max_login_failures + most
  run_bound config start most address events s idle untracked few guesses room =
      let bounded : IsBounded verify encode decode config start most address 0 s = record {
        tracked = untracked;
        bounded = rw idle (omega arith);
        guesses = rw idle tt;
      } in
      let bound = run_bounded config start most address 0 events s bounded few guesses room in
      omega arith
