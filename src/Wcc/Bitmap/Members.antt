-- ===== src/Wcc/Bitmap/Members.antt =====
-- A bitmap as the set of the processes whose bits are set.
use mathlib.Core.Bool.{false≢true}
use Prim.Native.Nat.{bit_and, bit_or}
use rep_cxl.Prelude.{
  ℕ, zero, suc, ◌+◌, ◌-◌, ◌*◌, ◌/◌, ◌%◌, ◌^◌, ◌<◌, ◌==◌, ==_iff, if◌then◌else◌, ◌≡◌, ◌≢◌, refl, sym,
  ◌∙◌, ◌⊎◌, inl, inr, Bool, true, false, Bool-cases, none, some, List, [], ◌∷◌, length, set,
  length-set, All, arith, dec_lt,
}
use rep_cxl.Prelude.Bits.{
  bit_at, bit_at-bit_or, bit_at-bit_and, bit_or-lt, bit_and-le, pow-lt, trailing_zeros,
  trailing_zeros-lt, trailing_zeros_set, trailing_zeros_least, bit_at-zero,
}
use rep_cxl.Wcc.{max_processes}
use rep_cxl.Wcc.Bitmap.{Bitmap, new, word_at, word_count, set_bit, smallest, smallest_from}

-- Bit `q` of the words in a row.
abbrev pub bits : List ℕ → ℕ → Bool
bits ws q = bit_at (word_at ws (q / 64)) (q % 64)

-- Whether a process is a candidate writer.
abbrev pub member : Bitmap → ℕ → Bool
member b q = bits b.words q

pub record IsValid (b : Bitmap) : Type 0 where
  pub sized : length b.words ≡ word_count
  pub bounded : All (λ w. w < 2 ^ 64) b.words

pub new-IsValid : IsValid new
new-IsValid = record { sized = refl; bounded = omega arith }

word_at-set :
    (ws : List ℕ) (i v j : ℕ)
    → i < length ws
    → word_at (set ws i v) j ≡ (if i == j then v else word_at ws j)
word_at-set [] i v j h = absurd (omega arith)
word_at-set (w ∷ ws) zero v zero h = refl
word_at-set (w ∷ ws) zero v (suc j) h = ground arith
word_at-set (w ∷ ws) (suc i) v zero h = ground arith
word_at-set (w ∷ ws) (suc i) v (suc j) h = ground (arith, word_at-set ws i v j)

All-word_at : (ws : List ℕ) (i : ℕ) → All (λ w. w < 2 ^ 64) ws → word_at ws i < 2 ^ 64
All-word_at [] i h = omega arith
All-word_at (w ∷ ws) zero h = h.0
All-word_at (w ∷ ws) (suc i) h = All-word_at ws i h.1

All-set :
    (ws : List ℕ) (i v : ℕ)
    → v < 2 ^ 64
    → All (λ w. w < 2 ^ 64) ws
    → All (λ w. w < 2 ^ 64) (set ws i v)
All-set [] i v p h = tt
All-set (w ∷ ws) zero v p h = (p, h.1)
All-set (w ∷ ws) (suc i) v p h = (h.0, All-set ws i v p h.1)

-- The word that `set_bit` stores.
abbrev changed : ℕ → ℕ → Bool → ℕ
changed old b val = if val then bit_or old (2 ^ b) else bit_and old (2 ^ 64 - 1 - 2 ^ b)

changed-bit :
    (old b : ℕ) (val : Bool) (j : ℕ)
    → b < 64
    → j < 64
    → bit_at (changed old b val) j ≡ (if b == j then val else bit_at old j)
changed-bit old b true j p q = rw (bit_at-bit_or old b j) (ground arith)
changed-bit old b false j p q = rw (bit_at-bit_and 64 old b j p q) (ground arith)

changed-lt : (old b : ℕ) (val : Bool) → b < 64 → old < 2 ^ 64 → changed old b val < 2 ^ 64
changed-lt old b true p h = bit_or-lt 64 old (2 ^ b) h (pow-lt 64 b p)
changed-lt old b false p h = omega (arith, bit_and-le 64 old (2 ^ 64 - 1 - 2 ^ b) h)

pub set_bit-IsValid : (b : Bitmap) (pid : ℕ) (val : Bool) → IsValid b → IsValid (set_bit b pid val)
unfolding set_bit
set_bit-IsValid b pid val v = record {
  sized = length-set b.words (pid / 64) _ ∙ v.sized;
  bounded =
      All-set b.words (pid / 64) _
        (changed-lt (word_at b.words (pid / 64)) (pid % 64) val (omega arith)
          (All-word_at b.words (pid / 64) v.bounded))
        v.bounded;
}

-- `set` makes one process a member or not, as it is told, and leaves every other process alone.
pub member-set_bit :
    (b : Bitmap) (pid : ℕ) (val : Bool) (q : ℕ)
    → IsValid b
    → pid < max_processes
    → member (set_bit b pid val) q ≡ (if pid == q then val else member b q)
unfolding set_bit
member-set_bit b pid val q v small =
    let old = word_at b.words (pid / 64) in
    let word = changed old (pid % 64) val in
    rw (word_at-set b.words (pid / 64) word (q / 64) (omega (arith, v.sized)))
      (elim (Bool-cases (pid / 64 == q / 64)) [
        | inl same ↦
            let place : pid / 64 ≡ q / 64 = (==_iff (pid / 64) (q / 64)).0 same in
            rw (same, changed-bit old (pid % 64) val (q % 64) (omega arith) (omega arith), place)
              (elim (Bool-cases (pid % 64 == q % 64)) [
                | inl bit ↦ rw bit (ground (arith, bit))
                | inr bit ↦ rw bit (ground (arith, bit))
              ])
        | inr other ↦ rw other (ground (arith, other))
      ])

pub bits-low : (w : ℕ) (ws : List ℕ) (q : ℕ) → q < 64 → bits (w ∷ ws) q ≡ bit_at w q
bits-low w ws q h =
    let low : q / 64 ≡ 0 = omega arith in let rest : q % 64 ≡ q = omega arith in rw (low, rest)

pub bits-high : (w : ℕ) (ws : List ℕ) (q : ℕ) → bits (w ∷ ws) (64 + q) ≡ bits ws q
bits-high w ws q =
    let up : (64 + q) / 64 ≡ suc (q / 64) = omega arith in
    let rest : (64 + q) % 64 ≡ q % 64 = omega arith in rw (up, rest)

-- The first bit of a row that is set.
pub record Least (ws : List ℕ) (n : ℕ) : Type 0 where
  pub small : n < 64 * length ws
  pub set_here : bits ws n ≡ true
  pub none_below : (q : ℕ) → q < n → bits ws q ≡ false

Clear : List ℕ → Type 0
Clear ws = (q : ℕ) → bits ws q ≡ false

pub Least-word : (w : ℕ) (ws : List ℕ) → w < 2 ^ 64 → w ≢ 0 → Least (w ∷ ws) (trailing_zeros 64 w)
Least-word w ws h ne =
    let low = trailing_zeros-lt 64 w h ne in
    record {
      small = omega (arith, low);
      set_here = rw (bits-low w ws (trailing_zeros 64 w) low) (trailing_zeros_set 64 w h ne);
      none_below = λ q k. rw (bits-low w ws q (omega (arith, low))) (trailing_zeros_least 64 w q k);
    }

pub bits-skip :
    (ws : List ℕ) (n : ℕ)
    → ((q : ℕ) → q < n → bits ws q ≡ false)
    → (q : ℕ) → q < 64 + n
    → bits (0 ∷ ws) q ≡ false
bits-skip ws n h q k = elim (dec_lt q 64) [
  | yes low ↦ rw (bits-low 0 ws q low) (bit_at-zero q)
  | no high ↦
      let e : q ≡ 64 + (q - 64) = omega arith in
      rw (e, bits-high 0 ws (q - 64)) (h (q - 64) (omega arith))
]

Least-skip : (ws : List ℕ) (n : ℕ) → Least ws n → Least (0 ∷ ws) (64 + n)
Least-skip ws n l = record {
  small = omega (arith, l.small);
  set_here = rw (bits-high 0 ws n) l.set_here;
  none_below = bits-skip ws n l.none_below;
}

smallest_from_cases :
    (index : ℕ) (ws : List ℕ)
    → All (λ w. w < 2 ^ 64) ws
    → ((smallest_from index ws ≡ none) × Clear ws)
      ⊎ ((n : ℕ) × (smallest_from index ws ≡ some (index * 64 + n)) × Least ws n)
unfolding smallest_from Clear
smallest_from_cases index [] h = inl (refl, λ q. bit_at-zero (q % 64))
smallest_from_cases index (w ∷ ws) h = elim (Bool-cases (w == 0)) [
  | inl nil ↦
      let zero_word : w ≡ 0 = (==_iff w 0).0 nil in
      rw zero_word (elim (smallest_from_cases (suc index) ws h.1) [
        | inl (e, clear) ↦ inl (e, λ q. bits-skip ws (suc q) (λ r _. clear r) q (omega arith))
        | inr (n, e, l) ↦
            let shift : suc index * 64 + n ≡ index * 64 + (64 + n) = omega arith in
            inr (64 + n, rw shift at e, Least-skip ws n l)
      ])
  | inr some_bit ↦ inr (
    trailing_zeros 64 w,
    rw some_bit,
    Least-word w ws h.0 (λ z. false≢true (sym some_bit ∙ (==_iff w 0).1 z)),
  )
]

-- On a valid bitmap `smallest` answers none if no process is a member, and otherwise the least
-- process that is a member, which is below the maximal number of processes.
pub smallest_lem :
    (b : Bitmap)
    → IsValid b
    → ((smallest b ≡ none) × ((q : ℕ) → member b q ≡ false))
      ⊎ ((p : ℕ) × (smallest b ≡ some p)
          × (p < max_processes)
          × (member b p ≡ true)
          × ((q : ℕ) → q < p → member b q ≡ false))
unfolding smallest Clear
smallest_lem b v = elim (smallest_from_cases 0 b.words v.bounded) [
  | inl (e, clear) ↦ inl (e, clear)
  | inr (n, e, l) ↦
      let start : 0 * 64 + n ≡ n = omega arith in
      inr (n, rw start at e, omega (arith, l.small, v.sized), l.set_here, l.none_below)
]
