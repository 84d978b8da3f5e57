-- ===== src/Ackhandler/Sent/Backoff.antt =====
-- ackhandler/sent_packet_handler.go: the exponential backoff of the retransmission timeout.
use plus_quic_go.Base.{
  ℕ, zero, suc, ◌+◌, ◌*◌, ◌%◌, ◌^◌, ◌≤◌, ◌<◌, ◌≡◌, ltb, ◌==◌, if◌then◌else◌, arith,
}
use Prim.Native.Nat.add
use native.Mathlib.Nat.{one-le-pow, mul-le-mul_left, two-pow-succ}
use plus_quic_go.Ackhandler.Sent.Loss.{
  default_rto_timeout, min_rto_timeout, max_rto_timeout, max_duration, min_duration, rto_timeout,
}

-- The timeout before the shift.
abbrev base_timeout : ℕ → ℕ
base_timeout delay =
    max_duration (if delay == 0 then default_rto_timeout else delay) min_rto_timeout

min_duration_bounds :
    (x : ℕ)
    → x < 2 ^ 63
    → 200_000_000 ≤ x
    → (200_000_000 ≤ min_duration (x % 2 ^ 64) max_rto_timeout)
      × (min_duration (x % 2 ^ 64) max_rto_timeout ≤ 60_000_000_000)
      × (min_duration (x % 2 ^ 64) max_rto_timeout
          ≡ (if ltb x 60_000_000_000 then x else 60_000_000_000))
min_duration_bounds x h k = (ground arith, ground arith, ground arith)

base_timeout_min : (delay : ℕ) → 200_000_000 ≤ base_timeout delay
base_timeout_min delay = ground arith

shift_grows : (b count : ℕ) → b ≤ b * 2 ^ count
shift_grows b count = omega (arith, mul-le-mul_left b (one-le-pow count 2 (omega arith)))

shifted_out : (b more : ℕ) → b * 2 ^ (more + 64) % 2 ^ 64 ≡ 0
shifted_out b zero = omega arith
shifted_out b (suc more) = rw (add.suc, two-pow-succ) (omega (arith, shifted_out b more))

-- While the base timeout (the retransmission delay, or 500 ms for none, but at least 200 ms), doubled
-- `count` times, fits an int64, the timeout is that value or 60 s, whichever is less; so it lies
-- between 200 ms and 60 s.
pub rto_timeout_bounds :
    (delay count : ℕ)
    → base_timeout delay * 2 ^ count < 2 ^ 63
    → (200_000_000 ≤ rto_timeout delay count)
      × (rto_timeout delay count ≤ 60_000_000_000)
      × (rto_timeout delay count ≡ (
          if ltb (base_timeout delay * 2 ^ count) 60_000_000_000
          then base_timeout delay * 2 ^ count
          else 60_000_000_000))
unfolding rto_timeout
rto_timeout_bounds delay count h =
    min_duration_bounds (base_timeout delay * 2 ^ count) h
      (omega (arith, base_timeout_min delay, shift_grows (base_timeout delay) count))

-- After 64 timeouts and more without an ACK every bit is shifted out: the timeout is 0.
pub rto_timeout_collapses : (delay more : ℕ) → rto_timeout delay (more + 64) ≡ 0
unfolding rto_timeout
rto_timeout_collapses delay more = rw (shifted_out (base_timeout delay) more)
