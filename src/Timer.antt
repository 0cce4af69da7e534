-- ===== src/Timer.antt =====
-- src/timer.rs: round arithmetic. Instants and durations are nanoseconds; `clock k` is what the
-- k-th reading of the monotonic clock shows, and a sleep lets time pass between two readings. The
-- f64 ratios and their products with a duration are parameters.
pub mod Rounds
pub mod Convert
use rep_cxl.Prelude.{
  ℕ, zero, suc, ◌+◌, ◌-◌, ◌*◌, ◌/◌, ◌%◌, ltb, leb, ◌==◌, not, ◌&&◌, if◌then◌else◌, Bool, true,
  false, Option, none, some,
}
use rep_cxl.Prelude.Run.{Run, ok, panic, assert, ◌>>=◌, ◌>>◌}
use rep_cxl.Prelude.Words.{word}

abbrev pub Clock : Type 0
Clock = ℕ → ℕ

-- `while Instant::now() < target { spin_loop() }`, for at most `fuel` readings from the k-th on: the
-- number of the reading that ended it.
unfoldable pub spin_until : ℕ → Clock → ℕ → ℕ → Option ℕ
spin_until zero clock target k = none
spin_until (suc fuel) clock target k =
    let again = spin_until fuel clock target (suc k) in
    if ltb (clock k) target then again else some k

-- `as u64`
abbrev pub as_u64 : ℕ → ℕ
as_u64 n = n % word

-- `duration_since` stops at zero, as `-` does.
unfoldable pub round_of : ℕ → ℕ → ℕ → ℕ
round_of start round_time now = as_u64 ((now - start) / round_time)

unfoldable pub round_start_of : ℕ → ℕ → ℕ → ℕ
round_start_of start round_time n = start + as_u64 (round_time * n)

module _ {Ratio : Type 0} (in_unit : Ratio → Bool) (less : Ratio → Ratio → Bool)
    (mul_f64 : ℕ → Ratio → ℕ) where
  -- The number of the next round, its start, and the next reading of the clock. `none` in place of
  -- the reading: the fuel ran out before the round began.
  unfoldable pub wait_next_round : ℕ → Clock → ℕ → ℕ → ℕ → Ratio → Run (ℕ × ℕ × Option ℕ)
  unfolding round_start_of
  wait_next_round fuel clock k start round_time sleep_ratio = do
    assert (in_unit sleep_ratio)
    assert (not (round_time == 0))
    let round_num = round_of start round_time (clock k)
    let next_round = round_start_of start round_time (round_num + 1)
    ok (as_u64 (round_num + 1), next_round, spin_until fuel clock next_round (suc k))

  -- The reading that ended the wait for a point within the current round.
  unfoldable pub wait_round_progress : ℕ → Clock → ℕ → Ratio → ℕ → ℕ → Ratio → Run (Option ℕ)
  unfolding round_start_of spin_until
  wait_round_progress fuel clock k progress start round_time sleep_ratio = do
    assert (in_unit sleep_ratio)
    assert (in_unit progress)
    assert (not (less progress sleep_ratio))
    assert (not (round_time == 0))
    let round_num = (clock k - start) / round_time
    let target = round_start_of start round_time round_num + mul_f64 round_time progress
    ok (spin_until fuel clock target (suc k))

  unfoldable pub wait_start_time : ℕ → Clock → ℕ → ℕ → Ratio → Run (Option ℕ)
  unfolding spin_until
  wait_start_time fuel clock k start sleep_ratio = do
    assert (in_unit sleep_ratio)
    let wait = start - clock k
    if ltb (mul_f64 wait sleep_ratio) wait
        then ok (
            if leb start (clock (suc k))
            then some (suc k)
            else spin_until fuel clock start (suc (suc k)))
        else ok (spin_until fuel clock start (suc k))
