-- ===== src/Congestion/HybridSlowStart/Rounds.antt =====
-- congestion/hybrid_slow_start.go: a round of samples.
use plus_quic_go.Base.{
  ℕ, ◌+◌, ◌*◌, ◌/◌, ◌<◌, ◌≡◌, Bool, true, false, List, [], ◌∷◌, ◌++◌, ltb, leb, ◌&&◌, if◌then◌else◌,
  length, All, arith,
}
use plus_quic_go.Congestion.HybridSlowStart.{
  HybridSlowStart, start_receive_round, take_sample, detect_delay, should_exit_slow_start,
  min_rtt_increase_threshold,
}

-- ShouldExitSlowStart for each of these samples, and the last answer.
abbrev pub answers : List ℕ → ℕ → ℕ → Bool → HybridSlowStart → Bool × HybridSlowStart
answers [] min_rtt window b s = (b, s)
answers (r ∷ rs) min_rtt window b s =
    let (b', s') = should_exit_slow_start r min_rtt window s in answers rs min_rtt window b' s'

-- The least of `r` and the others.
abbrev pub least : ℕ → List ℕ → ℕ
least r [] = r
least r (x ∷ xs) = least (if ltb x r then x else r) xs

-- An eighth of the delay in whole microseconds, between 4 and 16 ms.
min_rtt_increase_threshold_clamped :
    (min_rtt : ℕ)
    → (if ltb (min_rtt / 1_000 / 8) 4_000
        then 4_000_000
        else if ltb 16_000 (min_rtt / 1_000 / 8)
        then 16_000_000
        else min_rtt / 1_000 / 8 * 1_000)
      ≡ min_rtt_increase_threshold min_rtt
unfolding min_rtt_increase_threshold
min_rtt_increase_threshold_clamped min_rtt = ground arith

record IsSampling (k best : ℕ) (s : HybridSlowStart) : Type 0 where
  pub started : s.started ≡ true
  pub count : s.rtt_sample_count ≡ k
  pub low : s.current_min_rtt ≡ best
  pub not_found : s.hystart_found ≡ false

-- One sample that is not the eighth.
sample-IsSampling :
    (r min_rtt window k low : ℕ) (s : HybridSlowStart)
    → 0 < low
    → k < 7
    → IsSampling k low s
    → IsSampling
        (k + 1)
        (if ltb r low then r else low)
        (should_exit_slow_start r min_rtt window s).1
unfolding should_exit_slow_start take_sample detect_delay
sample-IsSampling r min_rtt window k low s pos few v = record {
  started = ground (arith, v);
  count = ground (arith, v);
  low = ground (arith, v);
  not_found = ground (arith, v);
}

eighth_sample :
    (r min_rtt window low : ℕ) (s : HybridSlowStart)
    → 0 < low
    → IsSampling 7 low s
    → (should_exit_slow_start r min_rtt window s).0
      ≡ leb 16 window
        && ltb (min_rtt + min_rtt_increase_threshold min_rtt) (if ltb r low then r else low)
unfolding should_exit_slow_start take_sample detect_delay
eighth_sample r min_rtt window low s pos v = ground (arith, v)

samples_decide :
    (xs : List ℕ) (z min_rtt window k low : ℕ) (b : Bool) (s : HybridSlowStart)
    → 0 < low
    → All (λ x. 0 < x) xs
    → k + length xs ≡ 7
    → IsSampling k low s
    → (answers (xs ++ z ∷ []) min_rtt window b s).0
      ≡ leb 16 window
        && ltb (min_rtt + min_rtt_increase_threshold min_rtt) (least low (xs ++ z ∷ []))
samples_decide [] z min_rtt window k low b s pos all c v =
    let e : k ≡ 7 = omega arith in eighth_sample z min_rtt window low s pos (rw e at v)
samples_decide (x ∷ xs) z min_rtt window k low b s pos all c v =
    let (b', s') = should_exit_slow_start x min_rtt window s in
    samples_decide xs z min_rtt window (k + 1) (if ltb x low then x else low) b' s' (ground arith)
      all.1 (omega arith) (sample-IsSampling x min_rtt window k low s pos (omega arith) v)

first_sample :
    (r min_rtt window : ℕ) (s : HybridSlowStart)
    → s.hystart_found ≡ false
    → s.started ≡ false
    → IsSampling 1 r (should_exit_slow_start r min_rtt window s).1
unfolding should_exit_slow_start start_receive_round take_sample detect_delay
first_sample r min_rtt window s f t = record {
  started = ground arith;
  count = ground arith;
  low = ground arith;
  not_found = ground arith;
}

-- The answer to the eighth sample of a round says whether the least of the eight exceeds the least
-- delay of the session by more than an eighth of it, held between 4 and 16 ms, and the congestion
-- window has at least 16 packets. The delay was not found before, the round starts with the first
-- sample, and the first seven samples are not 0.
pub eight_samples_decide :
    (a z min_rtt window : ℕ) (xs : List ℕ) (s : HybridSlowStart)
    → 0 < a
    → All (λ x. 0 < x) xs
    → length xs ≡ 6
    → s.hystart_found ≡ false
    → s.started ≡ false
    → (answers (a ∷ xs ++ z ∷ []) min_rtt window false s).0
      ≡ leb 16 window
        && ltb
            (min_rtt
              + (if ltb (min_rtt / 1_000 / 8) 4_000
                  then 4_000_000
                  else if ltb 16_000 (min_rtt / 1_000 / 8)
                  then 16_000_000
                  else min_rtt / 1_000 / 8 * 1_000))
            (least a (xs ++ z ∷ []))
eight_samples_decide a z min_rtt window xs s pos all c f t =
    let (b', s') = should_exit_slow_start a min_rtt window s in
    let e = min_rtt_increase_threshold_clamped min_rtt in
    rw e (
      samples_decide xs z min_rtt window 1 a b' s' pos all (omega arith)
        (first_sample a min_rtt window s f t))
