-- ===== src/Tunnel/RateLimit/Tests.antt =====
-- Runs of crates/gaterust-tunnel/src/rate_limit.rs: 1000 bytes a second, with a burst of 100 ms.
use Prim.Native.Nat.{◌+◌, ◌*◌, ◌-◌, ◌≤◌, max}
use gate_rust.Common.{◌≡◌, refl, [], ◌∷◌, arith, none}
use gate_rust.Tunnel.RateLimit.{Limited, reserve, acquire, new_limiter, cost_of}
use gate_rust.Tunnel.RateLimit.Throughput.{
  Request, serve_all, total_bytes, throughput_bound, reserve_delay, reserve_comm,
}

abbrev limited : Limited
limited = record { bytes_per_second = 1000; next = 5_000_000_000; burst = 100_000_000 }

abbrev ask : Request
ask = record { bytes = 50; now = 5_000_000_000 }

-- The delays of the source's own test, which takes 50 bytes four times: 0, 0, 50 and 100 ms.
delays :
    ((serve_all (ask ∷ ask ∷ []) limited 0).1 ≡ 5_000_000_000)
    × ((serve_all (ask ∷ ask ∷ ask ∷ []) limited 0).1 ≡ 5_050_000_000)
    × ((serve_all (ask ∷ ask ∷ ask ∷ ask ∷ []) limited 0).1 ≡ 5_100_000_000)
unfolding serve_all
delays = (refl, refl, refl)

unlimited : (acquire 1_000_000 7 (new_limiter none 0)).1 ≡ 0
unfolding acquire new_limiter
unlimited = refl

throughput_bound_example :
    total_bytes (ask ∷ ask ∷ ask ∷ []) * 1_000_000_000 + 1000 * 5_000_000_000
    ≤ 1000 * ((serve_all (ask ∷ ask ∷ ask ∷ []) limited 0).1 + 100_000_000)
throughput_bound_example = throughput_bound ask (ask ∷ ask ∷ []) limited (omega arith) (omega arith)

reserve_delay_example :
    (reserve 50 5_000_000_000 limited).1
    ≡ max limited.next 5_000_000_000 + cost_of 1000 50 - (5_000_000_000 + limited.burst)
reserve_delay_example = reserve_delay 50 5_000_000_000 limited

reserve_comm_example :
    ((reserve 70 9_000_000_000 (reserve 50 9_000_000_000 limited).0).0
      ≡ (reserve 50 9_000_000_000 (reserve 70 9_000_000_000 limited).0).0)
    × ((reserve 70 9_000_000_000 (reserve 50 9_000_000_000 limited).0).1
        ≡ (reserve 50 9_000_000_000 (reserve 70 9_000_000_000 limited).0).1)
reserve_comm_example = reserve_comm 50 70 9_000_000_000 limited
