-- ===== src/RoundTest/Mean.antt =====
-- Where `mean` of jupyter/round-accuracy/usr-bl/src/lib.rs lies.
use native.Mathlib.Nat.{le-div_iff_mul-le, div-le_of_le-mul, mul_comm}
use Prim.Native.Nat.{ℕ, suc, ◌+◌, ◌*◌, ◌/◌, ◌%◌, ◌^◌, ◌≤◌, ◌<◌}
use rep_cxl.Prelude.{leb, ◌==◌, ◌≡◌, sym, Bool-cases, inl, inr, List, [], ◌∷◌, length, All, arith}
use rep_cxl.Prelude.Run.{ok, >>=-eq-ok}
use rep_cxl.Timer.Convert.{duration_max}
use rep_cxl.RoundTest.{total, mean}

above : (low d n sum : ℕ) {all : ℕ} → low ≤ d → sum + d + low * n ≤ all → sum + low * suc n ≤ all
above low d n sum le h = grind arith

below :
    (high d n sum : ℕ) {all : ℕ} → d ≤ high → all ≤ sum + d + high * n → all ≤ sum + high * suc n
below high d n sum le h = grind arith

ok-injective : {a b : ℕ} → ok a ≡ ok b → a ≡ b
ok-injective h = cc

quotient_between :
    (low high all n : ℕ)
    → 0 < n
    → low * n ≤ all
    → all ≤ high * n
    → (low ≤ all / n) × (all / n ≤ high)
quotient_between low high all n pos more less =
    ((le-div_iff_mul-le pos).1 more, div-le_of_le-mul n (rw (mul_comm n high) less))

module _ (low high : ℕ) where
  abbrev pub Between : List ℕ → Type 0
  Between = All (λ d. (low ≤ d) × (d ≤ high))

  total_lem :
      (ds : List ℕ) (sum : ℕ) {all : ℕ}
      → Between ds
      → total sum ds ≡ ok all
      → (sum + low * length ds ≤ all) × (all ≤ sum + high * length ds)
  unfolding total
  total_lem [] sum {all} b h = let same : sum ≡ all = ok-injective h in (omega arith, omega arith)
  total_lem (d ∷ ds) sum {all} (here, b) h = elim (Bool-cases (leb (sum + d) duration_max)) [
    | inl fits ↦
        let (more, less) = total_lem ds (sum + d) b (rw fits at h) in
        (above low d (length ds) sum here.0 more, below high d (length ds) sum here.1 less)
    | inr over ↦ absurd (let stuck = rw over at h in cc)
  ]

  -- If the durations lie between two bounds, there are fewer than 2 ^ 32 of them, and `mean` returns:
  -- so does the mean.
  pub mean-Between :
      (ds : List ℕ) {m : ℕ}
      → Between ds
      → length ds < 2 ^ 32
      → mean ds ≡ ok m
      → (low ≤ m) × (m ≤ high)
  unfolding mean
  mean-Between ds {m} b few h =
      let (all, e, h1) = >>=-eq-ok (total 0 ds) _ h in
      let (more, less) = total_lem ds 0 b e in
      let whole : length ds % 2 ^ 32 ≡ length ds = omega (arith, few) in
      let h2 = rw whole at h1 in
      elim (Bool-cases (length ds == 0)) [
        | inl zero_long ↦ absurd (let stuck = rw zero_long at h2 in cc)
        | inr long ↦
            let pos : 0 < length ds = ground (arith, long) in
            let same : all / length ds ≡ m = ok-injective (rw long at h2) in
            rw (sym same) (
              quotient_between low high all (length ds) pos (omega (arith, more))
                (omega (arith, less)))
      ]
