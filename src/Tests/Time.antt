-- ===== src/Tests/Time.antt =====
-- Waits on a clock that shows one more nanosecond at each reading.
use rep_cxl.Prelude.{ℕ, ◌+◌, ◌*◌, ◌/◌, ◌≤◌, ◌<◌, ltb, ◌≡◌, refl, Option, some, arith}
use rep_cxl.Prelude.Run.{Run, ok}
use rep_cxl.Timer.{Clock, spin_until, round_of, wait_next_round}
use rep_cxl.Timer.Rounds.{wait_next_round_lem, rounds_increase}

abbrev ticking : Clock
ticking k = 1000 + k

-- Ratios in percent.
abbrev wait : ℕ → Run (ℕ × ℕ × Option ℕ)
wait k =
    wait_next_round (λ r. ltb r 101) (λ a b. ltb a b) (λ n r. n * r / 100) 20 ticking k 1000 10 50

wait_next_round_lem_example :
    (n : ℕ) × (j : Option ℕ) × (wait 3 ≡ ok (n, 1000 + 10 * n, j))
    × (1003 < 1000 + 10 * n)
    × (1000 + 10 * n ≤ 1003 + 10)
    × ((i : ℕ) → j ≡ some i → 1000 + 10 * n ≤ 1000 + i)
wait_next_round_lem_example =
    wait_next_round_lem (λ r. ltb r 101) (λ a b. ltb a b) (λ n r. n * r / 100) 20 ticking 3 1000 10
      50 refl (omega arith) (omega arith) (omega arith)

first_wait : wait 3 ≡ ok (1, 1010, some 10)
unfolding wait_next_round round_of spin_until
first_wait = refl

second_wait : wait 11 ≡ ok (2, 1020, some 20)
unfolding wait_next_round round_of spin_until
second_wait = refl

rounds_increase_example : (1 < 2) × (1011 < 1010 + 10 → 2 ≡ 1 + 1)
rounds_increase_example =
    rounds_increase (λ r. ltb r 101) (λ a b. ltb a b) (λ n r. n * r / 100) 20 ticking 1000 10 50
      refl (omega arith) 3 11 1 2 1010 1020 10 (some 20) (λ a b le. omega arith) (omega arith)
      (omega arith) (omega arith) first_wait (omega arith) second_wait
