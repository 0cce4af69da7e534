-- ===== src/Timer/Rounds.antt =====
-- Which round `wait_next_round` waits for.
use native.Mathlib.Nat.{add-zero, div-add-mod, mod-lt, mod-eq_of_lt, div-le_self}
use rep_cxl.Prelude.{
  ℕ, zero, suc, ◌+◌, ◌-◌, ◌*◌, ◌/◌, ◌%◌, ◌≤◌, ◌<◌, ltb, ◌==◌, le→ltb, ◌≡◌, refl, ap, ◌∙◌, Bool,
  true, false, Bool-cases, inl, inr, Option, some, arith,
}
use rep_cxl.Prelude.Run.{Run, ok}
use rep_cxl.Prelude.Words.{word}
use rep_cxl.Timer.{Clock, spin_until, round_of, wait_next_round}

-- The loop ends at the first reading that is not before the target.
pub spin_until-some :
    (fuel : ℕ) (clock : Clock) (target k : ℕ) {j : ℕ}
    → spin_until fuel clock target k ≡ some j
    → (k ≤ j) × (target ≤ clock j)
unfolding spin_until
spin_until-some zero clock target k h = absurd (cc)
spin_until-some (suc fuel) clock target k {j} h = elim (Bool-cases (ltb (clock k) target)) [
  | inl early ↦
      let deep = spin_until-some fuel clock target (suc k) (rw early at h) in
      (omega (arith, deep), deep.1)
  | inr now ↦ ground (arith, now, h)
]

-- If the clock is not before the target at the reading `n` after the first, then fuel for more than
-- `n` readings is enough: the loop ends.
pub spin_until_ends :
    (fuel : ℕ) (clock : Clock) (target k n : ℕ)
    → n < fuel
    → target ≤ clock (k + n)
    → (j : ℕ) × (spin_until fuel clock target k ≡ some j)
unfolding spin_until
spin_until_ends zero clock target k n h reach = absurd (omega arith)
spin_until_ends (suc fuel) clock target k zero h reach =
    (k, rw (le→ltb (clock k) target (rw add-zero at reach)))
spin_until_ends (suc fuel) clock target k (suc n) h reach =
    elim (Bool-cases (ltb (clock k) target)) [
      | inl early ↦
          let next : k + suc n ≡ suc k + n = omega arith in
          rw early (spin_until_ends fuel clock target (suc k) n (omega arith) (rw next at reach))
      | inr now ↦ (k, rw now)
    ]

pub round_of_exact :
    (start round_time now : ℕ)
    → 0 < round_time
    → now < word
    → round_of start round_time now ≡ (now - start) / round_time
unfolding round_of
round_of_exact start round_time now pos small =
    mod-eq_of_lt (omega (arith, div-le_self (now - start) round_time))

-- The round of an instant: it has begun and has not ended.
pub round_of_bounds :
    (start round_time now : ℕ)
    → start ≤ now
    → 0 < round_time
    → now < word
    → (start + round_time * round_of start round_time now ≤ now)
      × (now < start + round_time * (round_of start round_time now + 1))
round_of_bounds start round_time now h pos small =
    let q = (now - start) / round_time in
    let e = round_of_exact start round_time now pos small in
    let whole : round_time * q + (now - start) % round_time ≡ now - start =
      div-add-mod (now - start) round_time in
    let part : (now - start) % round_time < round_time = mod-lt (now - start) pos in
    rw e (omega arith, omega arith)

lt_of_mul : (r a b : ℕ) → r * a < r * b → a < b
lt_of_mul r a b h = grind arith

module _ {Ratio : Type 0} (in_unit : Ratio → Bool) (less : Ratio → Ratio → Bool)
    (mul_f64 : ℕ → Ratio → ℕ) where
  runs :
      (fuel : ℕ) (clock : Clock) (k start round_time : ℕ) (ratio : Ratio)
      → in_unit ratio ≡ true
      → 0 < round_time
      → round_time * (round_of start round_time (clock k) + 1) < word
      → round_of start round_time (clock k) + 1 < word
      → wait_next_round in_unit less mul_f64 fuel clock k start round_time ratio
        ≡ ok (
          round_of start round_time (clock k) + 1,
          start + round_time * (round_of start round_time (clock k) + 1),
          spin_until fuel clock
              (start + round_time * (round_of start round_time (clock k) + 1))
              (suc k),
        )
  runs fuel clock k start round_time ratio valid pos ahead count =
      let positive : (round_time == 0) ≡ false = ground arith in
      unfold wait_next_round in rw (valid, positive, mod-eq_of_lt ahead, mod-eq_of_lt count)

  -- With a valid ratio and a positive round time, and while the instants fit in 64 bits,
  -- `wait_next_round` does not panic; it returns the next round and its start, which lies after the
  -- instant of the call by at most one round time; the reading that ends the wait, if the fuel
  -- lasts, is not before it.
  pub wait_next_round_lem :
      (fuel : ℕ) (clock : Clock) (k start round_time : ℕ) (ratio : Ratio)
      → in_unit ratio ≡ true
      → 0 < round_time
      → start ≤ clock k
      → clock k + round_time < word
      → (n : ℕ) × (j : Option ℕ) × (wait_next_round in_unit less mul_f64 fuel clock k start
            round_time ratio
          ≡ ok (n, start + round_time * n, j))
        × (clock k < start + round_time * n)
        × (start + round_time * n ≤ clock k + round_time)
        × ((i : ℕ) → j ≡ some i → start + round_time * n ≤ clock i)
  wait_next_round_lem fuel clock k start round_time ratio valid pos begun small =
      let now = clock k in
      let q = round_of start round_time now in
      let within = round_of_bounds start round_time now begun pos (omega arith) in
      let ahead : round_time * (q + 1) < word = omega (arith, within) in
      let count : q + 1 < word = omega (
        arith,
        round_of_exact start round_time now pos (omega arith),
        div-le_self (now - start) round_time,
      ) in
      (
        q + 1,
        spin_until fuel clock (start + round_time * (q + 1)) (suc k),
        runs fuel clock k start round_time ratio valid pos ahead count,
        within.1,
        omega (arith, within),
        λ i e. (spin_until-some fuel clock (start + round_time * (q + 1)) (suc k) e).1,
      )

  module _ (fuel : ℕ) (clock : Clock) (start round_time : ℕ) (ratio : Ratio)
      (valid : in_unit ratio ≡ true) (pos : 0 < round_time) where
    abbrev wait : ℕ → Run (ℕ × ℕ × Option ℕ)
    wait k = wait_next_round in_unit less mul_f64 fuel clock k start round_time ratio

    -- What a call that ended says of its round.
    record Waited (k n t : ℕ) (j : Option ℕ) : Type 0 where
      starts : t ≡ start + round_time * n
      later : clock k < t
      soon : t ≤ clock k + round_time
      ended : (i : ℕ) → j ≡ some i → t ≤ clock i

    waited :
        (k : ℕ) {n t : ℕ} {j : Option ℕ}
        → start ≤ clock k
        → clock k + round_time < word
        → wait k ≡ ok (n, t, j)
        → Waited k n t j
    waited k {n} {t} {j} begun small h =
        let (n', j', e, after, near, ends) =
          wait_next_round_lem fuel clock k start round_time ratio valid pos begun small in
        let same : (n' ≡ n) × (start + round_time * n' ≡ t) = ground (arith, e, h) in
        let last : j' ≡ j = ground (arith, e, h) in
        record {
          starts = omega (arith, same.1, ap (λ (x : ℕ). round_time * x) same.0);
          later = omega (arith, same.1);
          soon = omega (arith, same.1);
          ended = λ i q. rw (← same.1) (ends i (last ∙ q));
        }

    -- Of two calls of which the second reads the clock at or after the reading that ended the first,
    -- on a clock that never goes back, the second returns a later round; and it returns the very
    -- next one if the clock has then not passed the end of the first call's round.
    pub rounds_increase :
        (k₁ k₂ n₁ n₂ t₁ t₂ j₁ : ℕ) (j₂ : Option ℕ)
        → ((a b : ℕ) → a ≤ b → clock a ≤ clock b)
        → start ≤ clock k₁
        → clock k₂ + round_time < word
        → k₁ ≤ k₂
        → wait k₁ ≡ ok (n₁, t₁, some j₁)
        → j₁ ≤ k₂
        → wait k₂ ≡ ok (n₂, t₂, j₂)
        → (n₁ < n₂) × (clock k₂ < t₁ + round_time → n₂ ≡ n₁ + 1)
    rounds_increase k₁ k₂ n₁ n₂ t₁ t₂ j₁ j₂ mono begun small before w₁ after w₂ =
        let a = waited k₁ begun (omega (arith, mono k₁ k₂ before)) w₁ in
        let b = waited k₂ (omega (arith, mono k₁ k₂ before)) small w₂ in
        let reached = a.ended j₁ refl in
        let passed = mono j₁ k₂ after in
        (
          lt_of_mul round_time n₁ n₂ (omega (arith, a.starts, b.starts, b.later)),
          λ inside.
              let near =
                lt_of_mul round_time n₂ (n₁ + 2) (omega (arith, a.starts, b.starts, b.soon)) in
              let far = lt_of_mul round_time n₁ n₂ (omega (arith, a.starts, b.starts, b.later)) in
              omega arith,
        )
