-- ===== src/Timer/Convert/Midpoint.antt =====
-- How far `system_time_to_instant` of src/timer.rs is off.
use Prim.Native.Nat.{ℕ, zero, suc, ◌+◌, ◌/◌, ◌≤◌, ◌<◌}
use rep_cxl.Prelude.{ltb, leb, lt→ltb, le→leb, dec_lt, ◌≡◌, refl, ◌⊎◌, inl, inr, false, arith}
use rep_cxl.Timer.Convert.{
  Sample, Best, duration_max, span, better, sampled, instant_of, system_time_to_instant,
}

-- The wall clock is ahead of the monotonic clock by `ahead`, and was read in between.
abbrev pub InStep : ℕ → Sample → Type 0
InStep ahead s = (s.mono_before + ahead ≤ s.wall_now) × (s.wall_now ≤ s.mono_after + ahead)

-- The best sample so far is that of round `j`.
abbrev IsSample : (ℕ → Sample) → ℕ → Best → Type 0
IsSample sample j b =
    (b.best_span ≡ span (sample j))
    × (b.best_mono_before ≡ (sample j).mono_before)
    × (b.best_mono_after ≡ (sample j).mono_after)
    × (b.best_wall_now ≡ (sample j).wall_now)

module _ (sample : ℕ → Sample) where
  -- The sample of round `j` is within the limit, or at most as long as that of round `limit` and
  -- those of the rounds from `k` on.
  abbrev Shortest : ℕ → ℕ → ℕ → ℕ → Type 0
  Shortest j limit k end =
      (span (sample j) ≤ 10000)
      ⊎ ((span (sample j) ≤ span (sample limit))
          × ((i : ℕ) → k ≤ i → i < end → span (sample j) ≤ span (sample i)))

  -- The loop ended with the sample of a round.
  abbrev Ended : ℕ → ℕ → ℕ → Best → Type 0
  Ended limit k end b = (j : ℕ) × (j < end) × IsSample sample j b × Shortest j limit k end

  one_more :
      (limit now k end : ℕ) {b : Best}
      → span (sample now) ≤ span (sample limit)
      → span (sample now) ≤ span (sample k)
      → Ended now (suc k) end b
      → Ended limit k end b
  one_more limit now k end le at_k (j, low, here, inl short) = (j, low, here, inl short)
  one_more limit now k end le at_k (j, low, here, inr (least, rest)) = (
    j,
    low,
    here,
    inr (
      omega arith,
      λ i from below. elim (dec_lt k i) [
        | yes later ↦ rest i (omega arith) below
        | no first ↦ let same : k ≡ i = omega arith in rw (← same) (omega (arith, at_k, least))
      ],
    ),
  )

  better-less :
      (k : ℕ) (b : Best) → span (sample k) < b.best_span → IsSample sample k (better (sample k) b)
  unfolding better
  better-less k b less = rw (lt→ltb _ _ less) (refl, refl, refl, refl)

  better-same : (k : ℕ) (b : Best) → b.best_span ≤ span (sample k) → better (sample k) b ≡ b
  unfolding better
  better-same k b le =
      let no_less : ltb (span (sample k)) b.best_span ≡ false = ground (arith, le) in
      rw no_less refl

  sampled-stop :
      (left k : ℕ) (b : Best)
      → span (sample k) ≤ 10000
      → sampled sample k (suc left) b ≡ better (sample k) b
  unfolding sampled
  sampled-stop left k b short = rw (le→leb _ _ short) refl

  sampled-again :
      (left k : ℕ) (b : Best)
      → 10000 < span (sample k)
      → sampled sample k (suc left) b ≡ sampled sample (suc k) left (better (sample k) b)
  unfolding sampled
  sampled-again left k b long =
      let on : leb (span (sample k)) 10000 ≡ false = ground (arith, long) in rw on refl

  -- From a round on, the loop ends with the sample that it had, of round `j`, or a later one.
  sampled-Ended :
      (left k end j : ℕ) (b : Best)
      → k + left ≡ end
      → j < k
      → IsSample sample j b
      → Ended j k end (sampled sample k left b)
  unfolding sampled
  sampled-Ended zero k end j b total before here =
      (j, omega arith, here, inr (omega arith, λ i low high. absurd (omega (arith, low, high))))
  sampled-Ended (suc left) k end j b total before here =
      elim (dec_lt (span (sample k)) b.best_span) [
        | yes less ↦
            let now = better-less k b less in
            elim (dec_lt 10000 (span (sample k))) [
              | yes long ↦
                  let rest =
                    sampled-Ended left (suc k) end k (better (sample k) b) (omega arith)
                      (omega arith) now in
                  rw (sampled-again left k b long)
                    (one_more j k k end (omega (arith, here.0)) (omega arith) rest)
              | no short ↦
                  rw (sampled-stop left k b (omega arith)) (k, omega arith, now, inl (omega arith))
            ]
        | no more ↦
            let le : b.best_span ≤ span (sample k) = omega arith in
            let same = better-same k b le in
            elim (dec_lt 10000 (span (sample k))) [
              | yes long ↦
                  let rest = sampled-Ended left (suc k) end j b (omega arith) (omega arith) here in
                  rw (sampled-again left k b long, same)
                    (one_more j j k end (omega arith) (omega (arith, here.0)) rest)
              | no short ↦
                  rw (sampled-stop left k b (omega arith), same)
                    (j, omega arith, here, inl (omega (arith, here.0)))
            ]
      ]

  -- The whole loop, whose first round always has a better sample than none.
  sampled-first : (b : Best) → span (sample 0) < b.best_span → Ended 0 0 8 (sampled sample 0 8 b)
  unfolding sampled
  sampled-first b less =
      let now = better-less 0 b less in
      elim (dec_lt 10000 (span (sample 0))) [
        | yes long ↦ rw (sampled-again 7 0 b long) (
            one_more 0 0 0 8 (omega arith) (omega arith)
              (sampled-Ended 7 1 8 0 (better (sample 0) b) refl (omega arith) now))
        | no short ↦ rw (sampled-stop 7 0 b (omega arith)) (0, omega arith, now, inl (omega arith))
      ]

off_by :
    (start_time ahead : ℕ) (s : Sample) (b : Best)
    → InStep ahead s
    → s.wall_now ≤ start_time
    → (b.best_span ≡ span s)
      × (b.best_mono_before ≡ s.mono_before)
      × (b.best_mono_after ≡ s.mono_after)
      × (b.best_wall_now ≡ s.wall_now)
    → (instant_of start_time b + ahead ≤ start_time + span s / 2)
      × (start_time ≤ instant_of start_time b + ahead + (span s + 1) / 2)
off_by start_time ahead s b step later (sp, before, after, wall) = omega arith

-- If in each of the eight rounds the wall clock is ahead of the monotonic clock by `ahead` and is
-- read between the two readings of the monotonic clock, the start time has not come yet, and the
-- first span is below the largest duration: then the instant differs from the start time on the
-- monotonic clock by at most half the span of one of the rounds, rounded up, and that span is at
-- most ten microseconds or the shortest of all eight.
pub system_time_to_instant-near :
    (sample : ℕ → Sample) (first_mono first_wall start_time ahead : ℕ)
    → ((k : ℕ) → k < 8 → InStep ahead (sample k) × ((sample k).wall_now ≤ start_time))
    → span (sample 0) < duration_max
    → (j : ℕ) × (j < 8)
      × (system_time_to_instant sample first_mono first_wall start_time + ahead
          ≤ start_time + span (sample j) / 2)
      × (start_time
          ≤ system_time_to_instant sample first_mono first_wall start_time
            + ahead
            + (span (sample j) + 1) / 2)
      × ((span (sample j) ≤ 10000) ⊎ ((i : ℕ) → i < 8 → span (sample j) ≤ span (sample i)))
unfolding system_time_to_instant
system_time_to_instant-near sample first_mono first_wall start_time ahead clocks less =
    let b : Best = record {
      best_span = duration_max;
      best_mono_before = first_mono;
      best_mono_after = first_mono;
      best_wall_now = first_wall;
    } in
    let (j, low, here, short) = sampled-first sample b less in
    let (step, later) = clocks j low in
    let (early, late) = off_by start_time ahead (sample j) (sampled sample 0 8 b) step later here in
    (
      j,
      low,
      early,
      late,
      elim short [
        | inl small ↦ inl small
        | inr (least, all) ↦ inr (λ i below. all i (omega arith) below)
      ],
    )
