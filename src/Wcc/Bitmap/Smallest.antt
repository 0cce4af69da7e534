-- ===== src/Wcc/Bitmap/Smallest.antt =====
-- `is_smallest` of `ProcessBitmapUncached` in src/shmem/wcc.rs, beside `smallest`.
use mathlib.Core.Bool.{false≢true}
use rep_cxl.Prelude.{
  ℕ, zero, suc, ◌+◌, ◌-◌, ◌*◌, ◌/◌, ◌%◌, ◌^◌, ◌<◌, ◌==◌, ==_iff, ◌≡◌, ◌≢◌, refl, sym, ◌↔◌, ◌∙◌, inl,
  inr, true, false, Bool-cases, List, [], ◌∷◌, All, arith, dec_lt,
}
use rep_cxl.Prelude.Bits.{bit_at, bit_at-zero, trailing_zeros, trailing_zeros-lt, masked_iff}
use rep_cxl.Wcc.{max_processes}
use rep_cxl.Wcc.Bitmap.{Bitmap, word_at, all_zero, is_smallest}
use rep_cxl.Wcc.Bitmap.Members.{bits, member, IsValid, bits-skip, bits-high, Least-word}

ClearBelow : List ℕ → ℕ → Type 0
ClearBelow ws n = (q : ℕ) → q < n → bits ws q ≡ false

all_zero_iff :
    (n : ℕ) (ws : List ℕ)
    → All (λ w. w < 2 ^ 64) ws
    → (all_zero n ws ≡ true) ↔ ClearBelow ws (64 * n)
unfolding ClearBelow
all_zero_iff zero ws h = (λ e q lt. absurd (omega arith), λ c. refl)
all_zero_iff (suc n) [] h = (λ e q lt. bit_at-zero (q % 64), λ c. refl)
all_zero_iff (suc n) (w ∷ ws) h = elim (Bool-cases (w == 0)) [
  | inl nil ↦
      let zero_word : w ≡ 0 = (==_iff w 0).0 nil in
      let rest = all_zero_iff n ws h.1 in
      rw zero_word (
        λ e q lt. bits-skip ws (64 * n) (rest.0 e) q (omega arith),
        λ c. rest.1 (λ q lt. sym (bits-high 0 ws q) ∙ c (64 + q) (omega arith)),
      )
  | inr some_bit ↦
      let ne : w ≢ 0 = λ z. false≢true (sym some_bit ∙ (==_iff w 0).1 z) in
      let least = Least-word w ws h.0 ne in
      let low = trailing_zeros-lt 64 w h.0 ne in
      rw some_bit (
        λ e. absurd (false≢true e),
        λ c.
            absurd
              (false≢true (sym (c (trailing_zeros 64 w) (omega (arith, low))) ∙ least.set_here)),
      )
]

bits-word : (ws : List ℕ) (i j : ℕ) → j < 64 → bits ws (64 * i + j) ≡ bit_at (word_at ws i) j
bits-word ws i j h =
    let place : (64 * i + j) / 64 ≡ i = omega arith in
    let rest : (64 * i + j) % 64 ≡ j = omega arith in rw (place, rest) refl

-- In a valid bitmap `is_smallest` of a process below the maximal number accepts it exactly if no
-- smaller process is a member.
pub is_smallest_iff :
    (b : Bitmap) (pid : ℕ)
    → IsValid b
    → pid < max_processes
    → (is_smallest b pid ≡ true) ↔ ((q : ℕ) → q < pid → member b q ≡ false)
unfolding is_smallest ClearBelow
is_smallest_iff b pid v small =
    let word = word_at b.words (pid / 64) in
    let words = all_zero_iff (pid / 64) b.words v.bounded in
    let mask = masked_iff (pid % 64) word in
    elim (Bool-cases (all_zero (pid / 64) b.words)) [
      | inr occupied ↦ rw occupied (
        λ e. absurd (false≢true e),
        λ c. absurd (false≢true (sym occupied ∙ words.1 (λ q lt. c q (omega arith)))),
      )
      | inl all ↦ rw all (
        λ e q lt. elim (dec_lt q (64 * (pid / 64))) [
          | yes low ↦ words.0 all q low
          | no high ↦
              let split : 64 * (pid / 64) + (q - 64 * (pid / 64)) ≡ q = omega arith in
              let j = q - 64 * (pid / 64) in
              let clear = mask.0 ((==_iff _ 0).0 e) j (omega arith) in
              rw (← split) (bits-word b.words (pid / 64) j (omega arith) ∙ clear)
        ],
        λ c. (==_iff _ 0).1 (
            mask.1 (λ j h.
              sym (bits-word b.words (pid / 64) j (omega arith))
              ∙ c (64 * (pid / 64) + j) (omega arith))),
      )
    ]
