-- ===== src/Timer/Convert.antt =====
-- `system_time_to_instant` of src/timer.rs: a time of the wall clock as an instant of the monotonic
-- clock. All times are nanoseconds. The k-th round of the loop reads the two clocks as `sample k` has
-- it; what it reads before the loop is `first_mono` and `first_wall`.
pub mod Midpoint
use Prim.Native.Nat.{ℕ, zero, suc, ◌+◌, ◌-◌, ◌*◌, ◌/◌, ◌^◌}
use rep_cxl.Prelude.{ltb, leb, if◌then◌else◌}

pub record Sample : Type 0 where
  pub mono_before : ℕ
  pub wall_now : ℕ
  pub mono_after : ℕ

-- The variables of the loop.
pub record Best : Type 0 where
  pub best_span : ℕ
  pub best_mono_before : ℕ
  pub best_mono_after : ℕ
  pub best_wall_now : ℕ

-- `Duration::MAX`
abbrev pub duration_max : ℕ
duration_max = (2 ^ 64 - 1) * 1000000000 + 999999999

-- `mono_after.duration_since(mono_before)`, which stops at zero
abbrev pub span : Sample → ℕ
span s = s.mono_after - s.mono_before

pub better : Sample → Best → Best
better s b =
    if ltb (span s) b.best_span
    then record {
      best_span = span s;
      best_mono_before = s.mono_before;
      best_mono_after = s.mono_after;
      best_wall_now = s.wall_now;
    }
    else b

-- The rounds that are left, from the k-th on; a span of at most ten microseconds ends the loop.
pub sampled : (ℕ → Sample) → ℕ → ℕ → Best → Best
unfolding better
sampled sample k zero b = b
sampled sample k (suc left) b =
    let rest = sampled sample (suc k) left (better (sample k) b) in
    if leb (span (sample k)) 10000 then better (sample k) b else rest

abbrev pub instant_of : ℕ → Best → ℕ
instant_of start_time b =
    b.best_mono_before
    + (b.best_mono_after - b.best_mono_before) / 2
    + (start_time - b.best_wall_now)

pub system_time_to_instant : (ℕ → Sample) → ℕ → ℕ → ℕ → ℕ
unfolding sampled
system_time_to_instant sample first_mono first_wall start_time = instant_of start_time (
    sampled sample 0 8 (record {
      best_span = duration_max;
      best_mono_before = first_mono;
      best_mono_after = first_mono;
      best_wall_now = first_wall;
    }))
