-- ===== src/RoundTest.antt =====
-- jupyter/round-accuracy/usr-bl/src/lib.rs: the waits whose accuracy the experiment measures, and its
-- statistics. Times are nanoseconds; `clock k` is the k-th reading of the clock, which a sleep lets
-- run on between two readings. `f64` and its operations are parameters.
pub mod Waits
pub mod Mean
use Prim.Native.Nat.{ℕ, zero, suc, ◌+◌, ◌-◌, ◌/◌, ◌%◌, ◌^◌}
use rep_cxl.Prelude.{
  if◌then◌else◌, ltb, leb, ◌==◌, not, Bool, Option, none, some, List, [], ◌∷◌, length,
}
use rep_cxl.Prelude.Run.{Run, ok, assert, ◌>>=◌, ◌>>◌}
use rep_cxl.Prelude.Words.{sub64}
use rep_cxl.Timer.{Clock, as_u64}
use rep_cxl.Timer.Convert.{duration_max}
use rep_cxl.Utils

-- The sum of durations panics if it is too large for a duration.
pub total : ℕ → List ℕ → Run ℕ
total sum [] = ok sum
total sum (d ∷ ds) = do assert (leb (sum + d) duration_max); total (sum + d) ds

-- In nanoseconds, where the code goes on to seconds. A division by 0 panics.
pub mean : List ℕ → Run ℕ
unfolding total
mean durations = do
  sum ← total 0 durations
  assert (not (length durations % 2 ^ 32 == 0))
  ok (sum / (length durations % 2 ^ 32))

pub percentile : (ℕ → ℕ) → List ℕ → Run ℕ
percentile ceil latencies = Utils.percentile ceil latencies

-- The readings count from the epoch.
abbrev pub get_time_ns : Clock → ℕ → ℕ
get_time_ns clock k = as_u64 (clock k)

-- The loop, for at most `fuel` readings from the k-th on: the number of the reading that ended it.
pub poll : ℕ → Clock → ℕ → ℕ → ℕ → Option ℕ
poll zero clock new_start ns k = none
poll (suc fuel) clock new_start ns k =
    let again = poll fuel clock new_start ns (suc k) in
    if ltb (sub64 (get_time_ns clock k) new_start) ns then again else some k

abbrev pub ended : Option ℕ → Option (Option ℕ)
ended none = none
ended (some k) = some (some k)

-- The number of the last reading before the return; a call for no time at all makes none.
pub busy_poll_sleep : ℕ → Clock → ℕ → ℕ → Option (Option ℕ)
unfolding poll sub64
busy_poll_sleep fuel clock ns threshold =
    let diff = as_u64 (clock 1 - clock 0) in
    if ns == 0
    then some none
    else if not (ltb threshold ns)
    then ended (poll fuel clock (get_time_ns clock 1) ns 2)
    else if ltb ns diff
    then some (some 1)
    else ended (poll fuel clock (get_time_ns clock 2) (sub64 ns diff) 3)

module _ {Num : Type 0} (of_nat : ℕ → Num) (to_nat : Num → ℕ) (less : Num → Num → Bool)
    (sub div : Num → Num → Num) (cpu_freq : Num) (rdtsc : ℕ → ℕ) where
  -- The k-th reading of the counter of cycles.
  abbrev pub rdtsc_ns : ℕ → Num
  rdtsc_ns k = div (of_nat (rdtsc k)) cpu_freq

  -- The loop behind the reading `start`, which subtracts from `diff` what has passed since.
  pub poll_rdtsc : ℕ → ℕ → ℕ → Num → ℕ → Option Num
  poll_rdtsc zero start ns diff k = none
  poll_rdtsc (suc fuel) start ns diff k =
      let again = poll_rdtsc fuel start ns (sub diff (sub (rdtsc_ns k) (rdtsc_ns start))) (suc k) in
      if less diff (of_nat ns) then again else some diff

  pub busy_poll_sleep_rdtsc : ℕ → ℕ → ℕ → Option Num
  unfolding poll_rdtsc sub64
  busy_poll_sleep_rdtsc fuel ns threshold =
      let diff = sub (rdtsc_ns 1) (rdtsc_ns 0) in
      if ns == 0
      then some (of_nat 0)
      else if not (ltb threshold ns)
      then poll_rdtsc fuel 1 ns (of_nat 0) 2
      else if less (of_nat ns) diff
      then some diff
      else poll_rdtsc fuel 2 (sub64 ns (to_nat diff)) (of_nat 0) 3
