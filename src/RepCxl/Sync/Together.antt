-- ===== src/RepCxl/Sync/Together.antt =====
-- The rounds of the processes that left `sync_start` of src/lib.rs, each with its own clocks.
use native.Mathlib.Nat.{lt-div-mul-add, div-mul-le_self}
use rep_cxl.Prelude.{ℕ, ◌+◌, ◌-◌, ◌*◌, ◌/◌, ◌^◌, ◌≤◌, ◌<◌, ◌≡◌, dec_lt, List, arith}
use rep_cxl.Timer.{round_of}
use rep_cxl.Timer.Rounds.{round_of_exact}
use rep_cxl.Timer.Convert.{Sample, duration_max, span, system_time_to_instant}
use rep_cxl.Timer.Convert.Midpoint.{InStep, system_time_to_instant-near}
use rep_cxl.RepCxl.{RepCxl}
use rep_cxl.RepCxl.Sync.{Progress, World, Reachable}
use rep_cxl.RepCxl.Sync.Agreement.{SameView, sync_start_agrees}

-- The clocks of a process as `system_time_to_instant` reads them for a start time: the wall clock is
-- ahead of the monotonic clock by `ahead`, the start has not come, and no round of the loop takes
-- longer than `limit`.
pub record GoodClocks (sample : ℕ → Sample) (ahead start_time limit : ℕ) : Type 0 where
  pub in_step : (k : ℕ) → k < 8 → InStep ahead (sample k)
  pub early : (k : ℕ) → k < 8 → (sample k).wall_now ≤ start_time
  pub quick : (k : ℕ) → k < 8 → span (sample k) ≤ limit
  pub bounded : limit < duration_max

-- The error of the conversion, by the limit.
instant_near :
    (sample : ℕ → Sample) (first_mono first_wall ahead start_time limit : ℕ)
    → GoodClocks sample ahead start_time limit
    → (system_time_to_instant sample first_mono first_wall start_time + ahead
        ≤ start_time + limit / 2)
      × (start_time
          ≤ system_time_to_instant sample first_mono first_wall start_time
            + ahead
            + (limit + 1) / 2)
instant_near sample first_mono first_wall ahead start_time limit g =
    let first = g.quick 0 (omega arith) in
    let (j, low, before, behind, short) =
      system_time_to_instant-near sample first_mono first_wall start_time ahead
        (λ k lt. (g.in_step k lt, g.early k lt)) (omega (arith, g.bounded)) in
    let le = g.quick j low in (omega (arith, before, le), omega (arith, behind, le))

div_near : (x y r : ℕ) → 0 < r → x ≤ y + r → x / r ≤ y / r + 1
div_near x y r pos le =
    let low = div-mul-le_self x r in
    let high : y < y / r * r + r = lt-div-mul-add pos in
    elim (dec_lt (y / r + 1) (x / r)) [
      | yes more ↦ absurd (grind (arith, low, high))
      | no fine ↦ omega arith
    ]

-- The numbers of the rounds, by how far the elapsed times are apart.
round_of_near :
    (start now start' now' r : ℕ)
    → 0 < r
    → now < 2 ^ 64
    → now' < 2 ^ 64
    → now - start ≤ now' - start' + r
    → round_of start r now ≤ round_of start' r now' + 1
unfolding round_of
round_of_near start now start' now' r pos fits fits' le =
    let near = div_near (now - start) (now' - start') r pos le in
    rw (round_of_exact start r now pos fits, round_of_exact start' r now' pos fits') near

-- If all instances have the same processes and each its own identifier: take two processes that
-- have left the loop of `sync_start`, in any order of the steps of all, with good clocks: in each of
-- the eight rounds of the conversion the wall clock is read between the two readings of the
-- monotonic clock, of which it is ahead by a fixed amount, and has not passed the start time, and no
-- round takes longer than `round_time`, which is below the maximum of a duration. Then at every
-- moment at which both monotonic clocks are below 2 ^ 64, with a positive `round_time`, the rounds
-- that the two find themselves in differ by one at most.
pub sync_start-same_round {ℓ} :
    {F : Type 0} {T : Type ℓ} (inst : ℕ → RepCxl F T) (procs : List ℕ) (w : World)
    (p q t u round_time wall now_p now_q ahead_p ahead_q mono_p mono_q wall_p wall_q : ℕ)
    (sample_p sample_q : ℕ → Sample)
    → SameView inst procs
    → Reachable inst w
    → w.progress p ≡ Progress.started t
    → w.progress q ≡ Progress.started u
    → GoodClocks sample_p ahead_p t round_time
    → GoodClocks sample_q ahead_q u round_time
    → now_p + ahead_p ≡ wall
    → now_q + ahead_q ≡ wall
    → now_p < 2 ^ 64
    → now_q < 2 ^ 64
    → 0 < round_time
    → (round_of (system_time_to_instant sample_p mono_p wall_p t) round_time now_p
        ≤ round_of (system_time_to_instant sample_q mono_q wall_q u) round_time now_q + 1)
      × (round_of (system_time_to_instant sample_q mono_q wall_q u) round_time now_q
          ≤ round_of (system_time_to_instant sample_p mono_p wall_p t) round_time now_p + 1)
sync_start-same_round inst procs w p q t u round_time wall now_p now_q ahead_p ahead_q mono_p mono_q
      wall_p wall_q sample_p sample_q view reach left_p left_q good_p good_q at_p at_q fits_p fits_q
      pos =
    let same : t ≡ u = (sync_start_agrees inst procs view w reach p q t u left_p left_q).0 in
    let near_p = instant_near sample_p mono_p wall_p ahead_p t round_time good_p in
    let near_q = instant_near sample_q mono_q wall_q ahead_q u round_time good_q in
    (
      round_of_near _ now_p _ now_q round_time pos fits_p fits_q (omega (arith, near_p, near_q)),
      round_of_near _ now_q _ now_p round_time pos fits_q fits_p (omega (arith, near_p, near_q)),
    )
