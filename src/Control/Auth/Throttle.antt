-- ===== src/Control/Auth/Throttle.antt =====
-- What the throttle of crates/gaterust-control/src/auth.rs keeps of an address's failures.
use Prim.Native.Nat.{◌+◌, ◌≤◌, ◌<◌, min, zero, suc}
use gate_rust.Common.{
  ℕ, ◌≡◌, refl, ◌∙◌, true, false, none, some, arith, ◌==◌, ==_self, ==_iff, list_eq, ℕ_eq, leb, ltb,
}
use gate_rust.Common.Net.{IpAddr, ip_eq}
use gate_rust.HashMap
use gate_rust.HashMap.{
  HashMap, kept, get-retain, get-insert, get-remove, size-retain-le, size-insert-le,
}
use gate_rust.Control.Auth.{
  login_window, max_tracked_addresses, max_login_failures, LoginAttempt, is_recent, can_attempt,
  make_room, one_more, record_failure,
}

make_room_free :
    (address : IpAddr) (attempts : HashMap IpAddr LoginAttempt)
    → HashMap.size attempts < max_tracked_addresses
    → make_room address attempts ≡ attempts
unfolding make_room
make_room_free address attempts h =
    let free : leb max_tracked_addresses (HashMap.size attempts) ≡ false = ground arith in
    rw (free, make_room) refl

record_failure_free :
    (now : ℕ) (address : IpAddr) (attempts : HashMap IpAddr LoginAttempt)
    → HashMap.size attempts < max_tracked_addresses
    → record_failure now address attempts
      ≡ HashMap.insert address (one_more now (HashMap.get address attempts)) attempts
unfolding record_failure
record_failure_free now address attempts h =
    rw (record_failure, make_room_free address attempts h) refl

pub size-record_failure :
    (now : ℕ) (address : IpAddr) (attempts : HashMap IpAddr LoginAttempt)
    → HashMap.size attempts < max_tracked_addresses
    → HashMap.size (record_failure now address attempts) ≤ HashMap.size attempts + 1
size-record_failure now address attempts h =
    rw (record_failure_free now address attempts h)
      (size-insert-le address (one_more now (HashMap.get address attempts)) attempts)

pub size-can_attempt :
    (now : ℕ) (address : IpAddr) (attempts : HashMap IpAddr LoginAttempt)
    → HashMap.size (can_attempt now address attempts).1 ≤ HashMap.size attempts
unfolding can_attempt
size-can_attempt now address attempts = size-retain-le (λ _ attempt. is_recent now attempt) attempts

-- What the test of any address leaves of an entry.
get-can_attempt :
    (now : ℕ) (other address : IpAddr) (attempts : HashMap IpAddr LoginAttempt)
    → HashMap.get address (can_attempt now other attempts).1
      ≡ kept (λ _ attempt. is_recent now attempt) address (HashMap.get address attempts)
unfolding can_attempt
get-can_attempt now other address attempts =
    get-retain (λ _ attempt. is_recent now attempt) address attempts

-- The table has the failures of the address, none of which was before the instant.
abbrev pub Tracked : ℕ → IpAddr → ℕ → HashMap IpAddr LoginAttempt → Type 0
Tracked start address zero attempts = HashMap.get address attempts ≡ none
Tracked start address (suc failures) attempts =
    (a : LoginAttempt) × (HashMap.get address attempts ≡ some a)
    × (a.failures ≡ min (suc failures) 255)
    × (start ≤ a.window_started)

pub can_attempt-Tracked :
    (start : ℕ) (address : IpAddr) (failures now : ℕ) (other : IpAddr)
    (attempts : HashMap IpAddr LoginAttempt)
    → now < start + login_window
    → Tracked start address failures attempts
    → Tracked start address failures (can_attempt now other attempts).1
can_attempt-Tracked start address zero now other attempts within h =
    get-can_attempt now other address attempts ∙ rw h refl
can_attempt-Tracked start address (suc failures) now other attempts within (a, h, count, since) =
    let recent : is_recent now a ≡ true = ground arith in
    (a, get-can_attempt now other address attempts ∙ rw (h, recent) refl, count, since)

-- Fewer than five failures where the address is let through.
can_attempt-few :
    (start : ℕ) (address : IpAddr) (failures now : ℕ) (attempts : HashMap IpAddr LoginAttempt)
    → Tracked start address failures (can_attempt now address attempts).1
    → (can_attempt now address attempts).0 ≡ true
    → failures < max_login_failures
unfolding can_attempt
can_attempt-few start address zero now attempts h free = omega arith
can_attempt-few start address (suc failures) now attempts (a, h, count, since) free =
    let few : ltb a.failures max_login_failures ≡ true = rw h at free in ground arith

pub own_attempt-few :
    (start : ℕ) (address other : IpAddr) (failures now : ℕ) (attempts : HashMap IpAddr LoginAttempt)
    → (other == address) ≡ true
    → Tracked start address failures (can_attempt now other attempts).1
    → (can_attempt now other attempts).0 ≡ true
    → failures < max_login_failures
own_attempt-few start address other failures now attempts own h free =
    let same = (==_iff other address).0 own in
    can_attempt-few start address failures now attempts (rw same at h) (rw same at free)

record_failure-Tracked :
    (start : ℕ) (address : IpAddr) (failures now : ℕ) (attempts : HashMap IpAddr LoginAttempt)
    → HashMap.size attempts < max_tracked_addresses
    → start ≤ now
    → Tracked start address failures attempts
    → Tracked start address (suc failures) (record_failure now address attempts)
record_failure-Tracked start address zero now attempts free since h =
    let entry : LoginAttempt = record { window_started = now; failures = 1 } in
    (
      entry,
      rw
          (
            record_failure_free now address attempts free,
            get-insert address address (one_more now (HashMap.get address attempts)) attempts,
            ==_self address,
            h,
          )
          refl,
      omega arith,
      since,
    )
record_failure-Tracked start address (suc failures) now attempts free since (a, h, count, was) =
    let entry : LoginAttempt = record a { failures = min (a.failures + 1) 255 } in
    (
      entry,
      rw
          (
            record_failure_free now address attempts free,
            get-insert address address (one_more now (HashMap.get address attempts)) attempts,
            ==_self address,
            h,
          )
          refl,
      omega arith,
      was,
    )

pub own_failure-Tracked :
    (start : ℕ) (address other : IpAddr) (failures now : ℕ) (attempts : HashMap IpAddr LoginAttempt)
    → HashMap.size attempts < max_tracked_addresses
    → (other == address) ≡ true
    → start ≤ now
    → Tracked start address failures attempts
    → Tracked start address (suc failures) (record_failure now other attempts)
own_failure-Tracked start address other failures now attempts free own since h =
    rw ((==_iff other address).0 own)
      (record_failure-Tracked start address failures now attempts free since h)

-- The same entry is the same record of failures.
same-Tracked :
    (start : ℕ) (address : IpAddr) (failures : ℕ) (attempts after : HashMap IpAddr LoginAttempt)
    → HashMap.get address after ≡ HashMap.get address attempts
    → Tracked start address failures attempts
    → Tracked start address failures after
same-Tracked start address zero attempts after same h = same ∙ h
same-Tracked start address (suc failures) attempts after same (a, h, count, since) =
    (a, same ∙ h, count, since)

pub other_failure-Tracked :
    (start : ℕ) (address other : IpAddr) (failures now : ℕ) (attempts : HashMap IpAddr LoginAttempt)
    → HashMap.size attempts < max_tracked_addresses
    → (other == address) ≡ false
    → Tracked start address failures attempts
    → Tracked start address failures (record_failure now other attempts)
other_failure-Tracked start address other failures now attempts free apart h =
    same-Tracked start address failures attempts (record_failure now other attempts)
      (rw
        (
          record_failure_free now other attempts free,
          get-insert other address (one_more now (HashMap.get other attempts)) attempts,
          apart,
        )
        refl)
      h

pub other_success-Tracked :
    (start : ℕ) (address other : IpAddr) (failures : ℕ) (attempts : HashMap IpAddr LoginAttempt)
    → (other == address) ≡ false
    → Tracked start address failures attempts
    → Tracked start address failures (HashMap.remove other attempts)
other_success-Tracked start address other failures attempts apart h =
    same-Tracked start address failures attempts (HashMap.remove other attempts)
      (rw (get-remove other address attempts, apart) refl) h
