-- ===== src/Control/Auth.antt =====
-- `AuthService` of crates/gaterust-control/src/auth.rs: the login throttle and the session tokens. The
-- password hash's test and the signing of tokens are parameters; instants are in nanoseconds. A login
-- has two critical sections, and others run between them.
pub mod Throttle
pub mod Answered
pub mod Interleaved
pub mod Tests
use Prim.Native.Nat.{◌+◌, ◌-◌, ◌*◌, ◌^◌, min, zero, suc}
use gate_rust.Common.{
  ℕ, Bool, true, false, not, ◌&&◌, ◌||◌, Option, none, some, List, [], ◌∷◌, if◌then◌else◌, ltb, leb,
  ◌==◌, ℕ_eq, list_eq,
}
use gate_rust.Common.Text.{Text}
use gate_rust.Common.Net.{IpAddr, ip_eq}
use gate_rust.Common.Result.{Result, ok, err, ◌>>=◌}
use gate_rust.HashMap
use gate_rust.HashMap.{HashMap}

abbrev pub login_window : ℕ
login_window = 60 * 1000000000

abbrev pub max_login_failures : ℕ
max_login_failures = 5

abbrev pub max_tracked_addresses : ℕ
max_tracked_addresses = 4096

abbrev pub token_refresh_interval : ℕ
token_refresh_interval = 3600

pub record LoginAttempt : Type 0 where
  pub window_started : ℕ
  pub failures : ℕ

pub data LoginError : Type 0 where
  invalid_credentials rate_limited internal : LoginError

pub record Claims : Type 0 where
  pub sub : Text
  pub iat : ℕ
  pub exp : ℕ

pub record AuthToken : Type 0 where
  pub value : Text
  pub expires_at : ℕ

-- What the service was made with: `token_ttl` is in seconds.
pub record AuthConfig : Type 0 where
  pub username : Text
  pub password_hash : Text
  pub token_ttl : ℕ

-- A login, with the instants of the test of its address and of its failure, the answer of the wall clock, and whether
-- the worker that tests the password answers.
pub record Login : Type 0 where
  pub username : Text
  pub password : Text
  pub checked_at : ℕ
  pub failed_at : ℕ
  pub wall_clock : Option ℕ
  pub works : Bool

abbrev pub is_recent : ℕ → LoginAttempt → Bool
is_recent now attempt = ltb (now - attempt.window_started) login_window

abbrev pub may_try : Option LoginAttempt → Bool
may_try none = true
may_try (some attempt) = ltb attempt.failures max_login_failures

unfoldable pub can_attempt :
    ℕ → IpAddr → HashMap IpAddr LoginAttempt → Bool × HashMap IpAddr LoginAttempt
unfolding HashMap.retain HashMap.get
can_attempt now address attempts =
    let recent = HashMap.retain (λ _ attempt. is_recent now attempt) attempts in
    (may_try (HashMap.get address recent), recent)

-- `min_by_key` takes the first of the least elements.
abbrev pub earlier : IpAddr × LoginAttempt → Option (IpAddr × LoginAttempt) → IpAddr × LoginAttempt
earlier e none = e
earlier e (some other) = if leb e.1.window_started other.1.window_started then e else other

unfoldable pub oldest : List (IpAddr × LoginAttempt) → Option (IpAddr × LoginAttempt)
oldest [] = none
oldest (e ∷ entries) = some (earlier e (oldest entries))

abbrev pub without_entry :
    Option (IpAddr × LoginAttempt) → HashMap IpAddr LoginAttempt → HashMap IpAddr LoginAttempt
without_entry none attempts = attempts
without_entry (some e) attempts = HashMap.remove e.0 attempts

unfoldable pub make_room : IpAddr → HashMap IpAddr LoginAttempt → HashMap IpAddr LoginAttempt
unfolding HashMap.size HashMap.get HashMap.remove oldest
make_room address attempts =
    if leb max_tracked_addresses (HashMap.size attempts)
      && not (HashMap.contains_key address attempts)
    then without_entry (oldest attempts.entries) attempts
    else attempts

-- The failures are a `u8`, and its addition saturates.
abbrev pub one_more : ℕ → Option LoginAttempt → LoginAttempt
one_more now none = record { window_started = now; failures = 1 }
one_more now (some attempt) = record attempt { failures = min (attempt.failures + 1) 255 }

unfoldable pub record_failure :
    ℕ → IpAddr → HashMap IpAddr LoginAttempt → HashMap IpAddr LoginAttempt
unfolding make_room HashMap.get HashMap.insert
record_failure now address attempts =
    let room = make_room address attempts in
    HashMap.insert address (one_more now (HashMap.get address room)) room

-- The table, and the logins whose address has been let through and whose password is still tested.
pub record Service : Type 0 where
  pub attempts : HashMap IpAddr LoginAttempt
  pub pending : List (IpAddr × Login)

-- A login arrives, the password of the n-th pending one has been tested, or its request is given up.
pub data Event : Type 0 where
  arrives : IpAddr → Login → Event
  tested given_up : ℕ → Event

unfoldable pub take_at : ℕ → List (IpAddr × Login) → Option (IpAddr × Login) × List (IpAddr × Login)
take_at n [] = (none, [])
take_at zero (p ∷ pending) = (some p, pending)
take_at (suc n) (p ∷ pending) = let taken = take_at n pending in (taken.0, p ∷ taken.1)

abbrev pub with_answer {ℓ} : {A : Type ℓ} → Option A → List A → List A
with_answer none answers = answers
with_answer (some a) answers = a ∷ answers

module _ (verify : Text → Text → Bool) (encode : Claims → Option Text)
    (decode : ℕ → Text → Option Claims) where
  abbrev pub encoded : ℕ → Option Text → Result LoginError AuthToken
  encoded expires_at none = err internal
  encoded expires_at (some value) = ok (record { value = value; expires_at = expires_at })

  unfoldable pub issue_token : AuthConfig → ℕ → Result LoginError AuthToken
  issue_token config issued_at =
      let expires_at = min (issued_at + config.token_ttl) (2 ^ 64 - 1) in
      encoded expires_at
        (encode (record { sub = config.username; iat = issued_at; exp = expires_at }))

  abbrev pub issue_now : AuthConfig → Option ℕ → Result LoginError AuthToken
  unfolding issue_token
  issue_now config none = err internal
  issue_now config (some now) = issue_token config now

  abbrev pub is_wrong : AuthConfig → Login → Bool
  is_wrong config l =
      not (verify config.password_hash l.password) || not (l.username == config.username)

  -- `login` up to the test of the password
  unfoldable pub begin_login :
      IpAddr → Login → Service → Option (IpAddr × Result LoginError AuthToken) × Service
  unfolding can_attempt
  begin_login address l s =
      let tried = can_attempt l.checked_at address s.attempts in
      if tried.0
      then (none, record { attempts = tried.1; pending = (address, l) ∷ s.pending })
      else (some (address, err rate_limited), record s { attempts = tried.1 })

  -- `login` from the test of the password on
  unfoldable pub finish_login :
      AuthConfig
      → IpAddr
      → Login
      → HashMap IpAddr LoginAttempt
      → Result LoginError AuthToken × HashMap IpAddr LoginAttempt
  unfolding record_failure HashMap.remove issue_token
  finish_login config address l attempts =
      if not l.works
      then (err internal, attempts)
      else if is_wrong config l
      then (err invalid_credentials, record_failure l.failed_at address attempts)
      else (issue_now config l.wall_clock, HashMap.remove address attempts)

  unfoldable pub finished :
      AuthConfig
      → Option (IpAddr × Login) × List (IpAddr × Login)
      → Service
      → Option (IpAddr × Result LoginError AuthToken) × Service
  unfolding finish_login
  finished config (none, rest) s = (none, s)
  finished config (some p, rest) s =
      let done = finish_login config p.0 p.1 s.attempts in
      (some (p.0, done.0), record { attempts = done.1; pending = rest })

  -- Logins of any addresses, interleaved.
  unfoldable pub step :
      AuthConfig → Event → Service → Option (IpAddr × Result LoginError AuthToken) × Service
  unfolding begin_login finished take_at
  step config (arrives address l) s = begin_login address l s
  step config (tested n) s = finished config (take_at n s.pending) s
  step config (given_up n) s = (none, record s { pending = (take_at n s.pending).1 })

  unfoldable pub run :
      AuthConfig → List Event → Service → List (IpAddr × Result LoginError AuthToken) × Service
  unfolding step
  run config [] s = ([], s)
  run config (e ∷ events) s =
      let one = step config e s in
      let rest = run config events one.1 in (with_answer one.0 rest.0, rest.1)

  -- The instant at which a session's token was issued.
  unfoldable pub verify_token : AuthConfig → ℕ → Text → Option ℕ
  verify_token config now token = elim (decode now token) [
    | none ↦ none
    | some claims ↦ if claims.sub == config.username then some claims.iat else none
  ]

  abbrev pub renewed : Result LoginError AuthToken → Result LoginError (Option AuthToken)
  renewed (ok token) = ok (some token)
  renewed (err e) = err e

  unfoldable pub refresh_token : AuthConfig → Option ℕ → ℕ → Result LoginError (Option AuthToken)
  unfolding issue_token
  refresh_token config none issued_at = err internal
  refresh_token config (some now) issued_at =
      if ltb (now - issued_at) token_refresh_interval
      then ok none
      else renewed (issue_token config now)
