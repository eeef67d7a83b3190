-- ===== src/Tunnel/RateLimit.antt =====
-- crates/gaterust-tunnel/src/rate_limit.rs: a rate limiter that many streams share. An instant is
-- the number of nanoseconds since the clock's origin, a duration a number of nanoseconds. The
-- limiter's lock makes each reservation one step on `next`.
pub mod Throughput
pub mod Tests
use Prim.Native.Nat.{ℕ, ◌+◌, ◌-◌, ◌*◌, ◌/◌, ◌^◌, max, min}
use gate_rust.Common.{Bool, Option, none, some, leb, if◌then◌else◌}

abbrev pub u64_max : ℕ
u64_max = 2 ^ 64 - 1

-- The rate is not zero in the source.
pub record Limited : Type 0 where
  pub bytes_per_second : ℕ
  pub next : ℕ
  pub burst : ℕ

abbrev pub RateLimiter : Type 0
RateLimiter = Option Limited

-- `RateLimiter::new`, at the instant `now`
unfoldable pub new_limiter : Option ℕ → ℕ → RateLimiter
new_limiter none now = none
new_limiter (some rate) now =
    some (record { bytes_per_second = rate; next = now; burst = 100 * 1_000_000 })

-- `u128::div_ceil`
unfoldable pub div_ceil : ℕ → ℕ → ℕ
div_ceil n d = (n + (d - 1)) / d

-- The time that some bytes take, saturated at 64 bits.
unfoldable pub cost_of : ℕ → ℕ → ℕ
unfolding div_ceil
cost_of rate bytes = min (div_ceil (min bytes u64_max * 1_000_000_000) rate) u64_max

-- `Instant::checked_sub(..).unwrap_or(now)`
unfoldable pub sub_or : ℕ → ℕ → ℕ → ℕ
sub_or now instant duration = if leb duration instant then instant - duration else now

-- `Limited::reserve`: the limiter afterwards and the delay.
unfoldable pub reserve : ℕ → ℕ → Limited → Limited × ℕ
unfolding cost_of sub_or
reserve bytes now limited =
    let next = max limited.next now + cost_of limited.bytes_per_second bytes in
    (record limited { next = next }, sub_or now next limited.burst - now)

-- `RateLimiter::acquire` up to its sleep: the delay, or zero where there is no limit.
unfoldable pub acquire : ℕ → ℕ → RateLimiter → RateLimiter × ℕ
unfolding reserve
acquire bytes now none = (none, 0)
acquire bytes now (some limited) =
    (some (reserve bytes now limited).0, (reserve bytes now limited).1)
