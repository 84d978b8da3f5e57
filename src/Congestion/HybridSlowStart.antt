-- ===== src/Congestion/HybridSlowStart.antt =====
-- congestion/hybrid_slow_start.go: when the delay says that slow start is to end. Durations are
-- nanoseconds, not negative; the sample count is a uint32.
pub mod Rounds
use plus_quic_go.Base.{
  ℕ, ◌+◌, ◌*◌, ◌/◌, ◌^◌, Bool, true, false, ltb, leb, ◌==◌, ◌&&◌, ◌||◌, not, if◌then◌else◌,
}
use plus_quic_go.Base.Words.{add32}

abbrev pub hybrid_start_low_window : ℕ
hybrid_start_low_window = 16

abbrev pub hybrid_start_min_samples : ℕ
hybrid_start_min_samples = 8

abbrev pub hybrid_start_delay_factor_exp : ℕ
hybrid_start_delay_factor_exp = 3

abbrev pub hybrid_start_delay_min_threshold_us : ℕ
hybrid_start_delay_min_threshold_us = 4_000

abbrev pub hybrid_start_delay_max_threshold_us : ℕ
hybrid_start_delay_max_threshold_us = 16_000

pub record HybridSlowStart : Type 0 where
  pub end_packet_number : ℕ
  pub last_sent_packet_number : ℕ
  pub started : Bool
  pub current_min_rtt : ℕ
  pub rtt_sample_count : ℕ
  pub hystart_found : Bool

-- StartReceiveRound
unfoldable pub start_receive_round : ℕ → HybridSlowStart → HybridSlowStart
start_receive_round last_sent s = record s {
  end_packet_number = last_sent;
  current_min_rtt = 0;
  rtt_sample_count = 0;
  started = true;
}

-- IsEndOfRound
unfoldable pub is_end_of_round : ℕ → HybridSlowStart → Bool
is_end_of_round ack s = ltb s.end_packet_number ack

-- utils.MinInt64 and utils.MaxInt64
abbrev pub min_int64 : ℕ → ℕ → ℕ
min_int64 a b = if ltb a b then a else b

abbrev pub max_int64 : ℕ → ℕ → ℕ
max_int64 a b = if ltb a b then b else a

-- minRTTincreaseThreshold, in nanoseconds: `minRTT / time.Microsecond >> 3` divides by 1000
-- and by 2^3.
unfoldable pub min_rtt_increase_threshold : ℕ → ℕ
min_rtt_increase_threshold min_rtt =
    max_int64
      (min_int64 (min_rtt / 1_000 / 2 ^ hybrid_start_delay_factor_exp)
        hybrid_start_delay_max_threshold_us)
      hybrid_start_delay_min_threshold_us
    * 1_000

-- The sample, where it is one of the first 8 of the round, in the least delay of the round.
unfoldable pub take_sample : ℕ → HybridSlowStart → HybridSlowStart
take_sample latest_rtt s =
    let count = add32 s.rtt_sample_count 1 in
    record s {
      rtt_sample_count = count;
      current_min_rtt =
          if leb count hybrid_start_min_samples
            && ((s.current_min_rtt == 0) || ltb latest_rtt s.current_min_rtt)
          then latest_rtt
          else s.current_min_rtt;
    }

-- The check at the eighth sample.
unfoldable pub detect_delay : ℕ → HybridSlowStart → HybridSlowStart
unfolding min_rtt_increase_threshold
detect_delay min_rtt s = record s {
  hystart_found =
      if (s.rtt_sample_count == hybrid_start_min_samples)
        && ltb (min_rtt + min_rtt_increase_threshold min_rtt) s.current_min_rtt
      then true
      else s.hystart_found;
}

-- ShouldExitSlowStart
unfoldable pub should_exit_slow_start : ℕ → ℕ → ℕ → HybridSlowStart → Bool × HybridSlowStart
unfolding start_receive_round take_sample detect_delay
should_exit_slow_start latest_rtt min_rtt congestion_window s =
    let s' = if s.started then s else start_receive_round s.last_sent_packet_number s in
    if s'.hystart_found
    then (true, s')
    else (let s'' = detect_delay min_rtt (take_sample latest_rtt s') in
        (leb hybrid_start_low_window congestion_window && s''.hystart_found, s''))

-- OnPacketSent
unfoldable pub on_packet_sent : ℕ → HybridSlowStart → HybridSlowStart
on_packet_sent packet_number s = record s { last_sent_packet_number = packet_number }

-- OnPacketAcked
unfoldable pub on_packet_acked : ℕ → HybridSlowStart → HybridSlowStart
unfolding is_end_of_round
on_packet_acked acked_packet_number s =
    if is_end_of_round acked_packet_number s then record s { started = false } else s

-- Restart
unfoldable pub restart : HybridSlowStart → HybridSlowStart
restart s = record s { started = false; hystart_found = false }
