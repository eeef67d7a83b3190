-- ===== src/Tunnel/RateLimit/Throughput.antt =====
-- How much traffic the limiter of crates/gaterust-tunnel/src/rate_limit.rs lets through.
use Prim.Native.Nat.{ℕ, ◌+◌, ◌-◌, ◌*◌, ◌≤◌, ◌<◌, max, min}
use native.Mathlib.Nat.{div-add-mod, mod-lt}
use gate_rust.Common.{◌≡◌, List, [], ◌∷◌, arith, All}
use gate_rust.Tunnel.RateLimit.{Limited, u64_max, div_ceil, cost_of, sub_or, reserve}

-- A reservation: how many bytes, and when.
pub record Request : Type 0 where
  pub bytes : ℕ
  pub now : ℕ

-- The limiter after some requests, and the instant at which the last is let through.
unfoldable pub serve_all : List Request → Limited → ℕ → Limited × ℕ
unfolding reserve
serve_all [] limited release = (limited, release)
serve_all (r ∷ rs) limited release =
    let (limited', delay) = reserve r.bytes r.now limited in serve_all rs limited' (r.now + delay)

unfoldable pub total_bytes : List Request → ℕ
total_bytes [] = 0
total_bytes (r ∷ rs) = r.bytes + total_bytes rs

-- Rounding up never makes the bytes cheaper.
div_ceil_covers : (n d : ℕ) → 0 < d → n ≤ d * div_ceil n d
unfolding div_ceil
div_ceil_covers n d h = omega (arith, div-add-mod (n + (d - 1)) d, mod-lt (n + (d - 1)) h)

-- The cost is not cut off at 64 bits.
abbrev pub Fits : ℕ → Request → Type 0
Fits rate r = r.bytes * 1_000_000_000 ≤ rate * u64_max × (r.bytes ≤ u64_max)

cost_covers :
    (rate : ℕ) (r : Request)
    → 0 < rate
    → Fits rate r
    → r.bytes * 1_000_000_000 ≤ rate * cost_of rate r.bytes
unfolding cost_of
cost_covers rate r positive (slow, small) =
    grind (arith, div_ceil_covers (min r.bytes u64_max * 1_000_000_000) rate positive)

-- One reservation moves `next` on by at least its cost.
next_grows :
    (rate next now start cost : ℕ)
    → start ≤ max next now
    → rate * start + rate * cost ≤ rate * (max next now + cost)
next_grows rate next now start cost h = grind arith

mul_le_left : (rate a b : ℕ) → a ≤ b → rate * a ≤ rate * b
mul_le_left rate a b h = grind arith

abbrev after_all : List Request → Limited → ℕ → ℕ
after_all rs limited release = (serve_all rs limited release).0.next

next_covers :
    (rs : List Request) (limited : Limited) (release : ℕ)
    → 0 < limited.bytes_per_second
    → All (Fits limited.bytes_per_second) rs
    → total_bytes rs * 1_000_000_000 + limited.bytes_per_second * limited.next
      ≤ limited.bytes_per_second * after_all rs limited release
unfolding serve_all total_bytes
next_covers [] limited release positive fits = omega arith
next_covers (r ∷ rs) limited release positive (fit, fits) =
    let rate = limited.bytes_per_second in
    let step = reserve r.bytes r.now limited in
    omega (
      arith,
      cost_covers rate r positive fit,
      next_grows rate limited.next r.now limited.next (cost_of rate r.bytes) (omega arith),
      next_covers rs step.0 (r.now + step.1) positive fits,
    )

-- The last request is let through no earlier than a burst before `next`.
release_covers :
    (rs : List Request) (limited : Limited) (release : ℕ)
    → limited.next ≤ release + limited.burst
    → after_all rs limited release ≤ (serve_all rs limited release).1 + limited.burst
unfolding serve_all sub_or
release_covers [] limited release h = h
release_covers (r ∷ rs) limited release h =
    let step = reserve r.bytes r.now limited in
    release_covers rs step.0 (r.now + step.1) (ground arith)

-- From the instant of the first request to the instant at which the last is let through, the
-- limiter lets through no more bytes than the rate allows in that time and one burst, whatever the
-- requests and whenever they come.
pub throughput_bound :
    (r : Request) (rs : List Request) (limited : Limited)
    → 0 < limited.bytes_per_second
    → All (Fits limited.bytes_per_second) (r ∷ rs)
    → total_bytes (r ∷ rs) * 1_000_000_000 + limited.bytes_per_second * r.now
      ≤ limited.bytes_per_second * ((serve_all (r ∷ rs) limited 0).1 + limited.burst)
unfolding serve_all total_bytes sub_or
throughput_bound r rs limited positive (fit, fits) =
    let rate = limited.bytes_per_second in
    let step = reserve r.bytes r.now limited in
    let last = serve_all rs step.0 (r.now + step.1) in
    let late = release_covers rs step.0 (r.now + step.1) (ground arith) in
    let enough : rate * after_all rs step.0 (r.now + step.1) ≤ rate * (last.1 + limited.burst) =
      mul_le_left rate _ _ late in
    omega (
      arith,
      cost_covers rate r positive fit,
      next_grows rate limited.next r.now r.now (cost_of rate r.bytes) (omega arith),
      next_covers rs step.0 (r.now + step.1) positive fits,
      enough,
    )

-- The delay of a reservation: what is booked beyond a burst from now, also where the clock's origin
-- is less than a burst ago.
pub reserve_delay :
    (bytes now : ℕ) (limited : Limited)
    → (reserve bytes now limited).1
      ≡ max limited.next now + cost_of limited.bytes_per_second bytes - (now + limited.burst)
unfolding reserve sub_or
reserve_delay bytes now limited = ground arith

-- Two reservations at one instant leave the same limiter in either order, and the delay of the
-- later one is the same.
pub reserve_comm :
    (a b now : ℕ) (limited : Limited)
    → ((reserve b now (reserve a now limited).0).0 ≡ (reserve a now (reserve b now limited).0).0)
      × ((reserve b now (reserve a now limited).0).1 ≡ (reserve a now (reserve b now limited).0).1)
unfolding reserve sub_or
reserve_comm a b now limited = (ground arith, ground arith)
