-- ===== src/RoundTest/Waits.antt =====
-- How long the waits of jupyter/round-accuracy/usr-bl/src/lib.rs take.
use native.Mathlib.Nat.{add-zero, mod-eq_of_lt}
use Prim.Native.Nat.{ℕ, zero, suc, ◌+◌, ◌-◌, ◌≤◌, ◌<◌, ◌%◌, ◌^◌}
use rep_cxl.Prelude.{
  if◌then◌else◌, ltb, ◌==◌, ◌≡◌, refl, sym, ap, ◌∙◌, Bool, true, false, Bool-cases, ◌⊎◌, inl, inr,
  none, some, arith,
}
use rep_cxl.Prelude.Words.{word, sub64, sub64_exact}
use rep_cxl.Timer.{Clock}
use rep_cxl.RoundTest.{poll, ended, busy_poll_sleep, poll_rdtsc, busy_poll_sleep_rdtsc}

-- A clock that never goes back and stays below 2 ^ 64.
pub record Steady (clock : Clock) : Type 0 where
  pub onward : (i j : ℕ) → i ≤ j → clock i ≤ clock j
  pub bounded : (k : ℕ) → clock k < 2 ^ 64

time_since : (now start : ℕ) → start ≤ now → now < word → sub64 (now % word) start ≡ now - start
unfolding sub64
time_since now start h k = omega arith

poll_once :
    (fuel : ℕ) (clock : Clock) (start ns k : ℕ)
    → start ≤ clock k
    → clock k < word
    → poll (suc fuel) clock start ns k
      ≡ (if ltb (clock k - start) ns then poll fuel clock start ns (suc k) else some k)
unfolding poll
poll_once fuel clock start ns k h low = rw (time_since (clock k) start h low) refl

slept : (before after : ℕ) → after < word → (after - before) % word ≡ after - before
slept before after h = omega arith

le_cases : (k i : ℕ) → k ≤ i → (k ≡ i) ⊎ (suc k ≤ i)
le_cases k i h = elim (Bool-cases (ltb k i)) [
  | inl less ↦ inr (ground (arith, less))
  | inr same ↦ inl (ground (arith, same))
]

-- The loop from the k-th reading on ends at the first one at which `ns` have passed since `start`.
poll_ends :
    (fuel : ℕ) (clock : Clock) (start ns k n : ℕ)
    → Steady clock
    → start ≤ clock k
    → n < fuel
    → start + ns ≤ clock (k + n)
    → (j : ℕ) × (poll fuel clock start ns k ≡ some j)
      × (k ≤ j)
      × (start + ns ≤ clock j)
      × ((i : ℕ) → k ≤ i → i < j → clock i < start + ns)
unfolding poll
poll_ends zero clock start ns k n st after few reach = absurd (omega arith)
poll_ends (suc fuel) clock start ns k n st after few reach =
    let here = st.bounded k in
    let first = poll_once fuel clock start ns k after here in
    elim (Bool-cases (ltb (clock k - start) ns)) [
      | inl early ↦
          let before : clock k < start + ns = ground (arith, early) in
          let (m, more, next) = step n few reach before in
          let onto = st.onward k (suc k) (omega arith) in
          let (j, e, low, late, all) =
            poll_ends fuel clock start ns (suc k) m st (omega arith) more next in
          (
            j,
            first ∙ ap (λ b. if b then poll fuel clock start ns (suc k) else some k) early ∙ e,
            omega arith,
            late,
            λ i ge lt. elim (le_cases k i ge) [
              | inl same ↦ rw (sym same) before
              | inr above ↦ all i above lt
            ],
          )
      | inr now ↦ (
        k,
        first ∙ ap (λ b. if b then poll fuel clock start ns (suc k) else some k) now,
        omega arith,
        ground (arith, now),
        λ i ge lt. absurd (omega arith),
      )
    ]
  where
    step :
        (n : ℕ)
        → n < suc fuel
        → start + ns ≤ clock (k + n)
        → clock k < start + ns
        → (m : ℕ) × (m < fuel) × (start + ns ≤ clock (suc k + m))
    step zero few reach before =
        let there : start + ns ≤ clock k = rw add-zero at reach in absurd (omega arith)
    step (suc m) few reach before =
        let same : k + suc m ≡ suc k + m = omega arith in (m, omega arith, rw same at reach)

loop_at_once :
    (fuel : ℕ) (clock : Clock) (ns threshold : ℕ)
    → (ns == 0) ≡ false
    → ltb threshold ns ≡ false
    → Steady clock
    → busy_poll_sleep fuel clock ns threshold ≡ ended (poll fuel clock (clock 1) ns 2)
unfolding busy_poll_sleep
loop_at_once fuel clock ns threshold some_time short st =
    rw (some_time, short, mod-eq_of_lt (st.bounded 1)) refl

loop_after_sleep :
    (fuel : ℕ) (clock : Clock) (ns threshold : ℕ)
    → (ns == 0) ≡ false
    → ltb threshold ns ≡ true
    → (clock 1 - clock 0) % word ≡ clock 1 - clock 0
    → ltb ns (clock 1 - clock 0) ≡ false
    → sub64 ns (clock 1 - clock 0) ≡ ns - (clock 1 - clock 0)
    → Steady clock
    → busy_poll_sleep fuel clock ns threshold
      ≡ ended (poll fuel clock (clock 2) (ns - (clock 1 - clock 0)) 3)
unfolding busy_poll_sleep
loop_after_sleep fuel clock ns threshold some_time long sleep rest left st =
    rw (some_time, long, sleep, rest, mod-eq_of_lt (st.bounded 2), left) refl

-- A call for some time, on a clock that never goes back, with fuel for a reading at which the time
-- has passed since the third reading: it returns, not before the time has passed since its first
-- reading, and with the first reading after the sleep or of the loop at which it may: at every
-- earlier reading of the loop less than the time had passed since the third reading.
pub busy_poll_sleep_lem :
    (fuel : ℕ) (clock : Clock) (ns threshold n : ℕ)
    → Steady clock
    → 0 < ns
    → n + 1 < fuel
    → clock 2 + ns ≤ clock (3 + n)
    → (j : ℕ) × (busy_poll_sleep fuel clock ns threshold ≡ some (some j))
      × (clock 0 + ns ≤ clock j)
      × ((i : ℕ) → 2 ≤ i → i < j → clock i < clock 2 + ns)
unfolding busy_poll_sleep
busy_poll_sleep_lem fuel clock ns threshold n st pos few reach =
    let some_time : (ns == 0) ≡ false = ground arith in
    let first = st.onward 0 1 (omega arith) in
    let second = st.onward 1 2 (omega arith) in
    let low = st.bounded (3 + n) in
    elim (Bool-cases (ltb threshold ns)) [
      | inr short ↦
          let same : 3 + n ≡ 2 + suc n = omega arith in
          let late : clock 2 + ns ≤ clock (2 + suc n) = rw same at reach in
          let there : clock 1 + ns ≤ clock (2 + suc n) = omega arith in
          let (j, e, far, late, all) =
            poll_ends fuel clock (clock 1) ns 2 (suc n) st second (omega arith) there in
          (
            j,
            loop_at_once fuel clock ns threshold some_time short st ∙ ap ended e,
            omega arith,
            λ i ge lt. let le = all i ge lt in omega arith,
          )
      | inl long ↦
          let sleep = slept (clock 0) (clock 1) (st.bounded 1) in
          elim (Bool-cases (ltb ns (clock 1 - clock 0))) [
            | inl over ↦ (
              1,
              rw (some_time, long, sleep, over) refl,
              ground (arith, over),
              λ i ge lt. absurd (omega arith),
            )
            | inr rest ↦
                let within : clock 1 - clock 0 ≤ ns = ground (arith, rest) in
                let left = sub64_exact ns (clock 1 - clock 0) within (omega arith) in
                let loop =
                  loop_after_sleep fuel clock ns threshold some_time long sleep rest left st in
                let (j, e, far, late, all) =
                  poll_ends fuel clock (clock 2) (ns - (clock 1 - clock 0)) 3 n st
                    (st.onward 2 3 (omega arith)) (omega arith) (omega arith) in
                (
                  j,
                  loop ∙ ap ended e,
                  omega arith,
                  λ i ge lt. elim (le_cases 2 i ge) [
                    | inl same ↦ rw (sym same) (omega arith)
                    | inr above ↦ let le = all i above lt in omega arith
                  ],
                )
          ]
    ]

module _ {Num : Type 0} (of_nat : ℕ → Num) (to_nat : Num → ℕ) (less : Num → Num → Bool)
    (sub div : Num → Num → Num) (cpu_freq : Num) (rdtsc : ℕ → ℕ)
    -- Subtracting the time since an earlier reading does not make a number larger.
    (falls : (x limit : Num) (i k : ℕ)
      → i ≤ k
      → less x limit ≡ true
      → less (sub x (sub (div (of_nat (rdtsc k)) cpu_freq) (div (of_nat (rdtsc i)) cpu_freq))) limit
        ≡ true) where
  poll_rdtsc-none :
      (fuel start ns : ℕ) (diff : Num) (k : ℕ)
      → start ≤ k
      → less diff (of_nat ns) ≡ true
      → poll_rdtsc of_nat to_nat less sub div cpu_freq rdtsc fuel start ns diff k ≡ none
  unfolding poll_rdtsc
  poll_rdtsc-none zero start ns diff k le below = refl
  poll_rdtsc-none (suc fuel) start ns diff k le below = rw below (
      poll_rdtsc-none fuel start ns _ (suc k) (omega arith)
        (falls diff (of_nat ns) start k le below))

  -- If 0 is below the time that was asked for and subtracting the time since an earlier reading does not make
  -- a number larger: a call of `busy_poll_sleep_rdtsc` for a time that is not above the threshold, and
  -- not 0, does not return with any fuel.
  pub busy_poll_sleep_rdtsc-none :
      (fuel ns threshold : ℕ)
      → 0 < ns
      → ns ≤ threshold
      → less (of_nat 0) (of_nat ns) ≡ true
      → busy_poll_sleep_rdtsc of_nat to_nat less sub div cpu_freq rdtsc fuel ns threshold ≡ none
  unfolding busy_poll_sleep_rdtsc
  busy_poll_sleep_rdtsc-none fuel ns threshold pos short below =
      let some_time : (ns == 0) ≡ false = ground arith in
      let poll_all : ltb threshold ns ≡ false = ground arith in
      rw (some_time, poll_all) (poll_rdtsc-none fuel 1 ns (of_nat 0) 2 (omega arith) below)
