-- ===== src/Prelude/Bits.antt =====
-- Bits of a word: what `|= 1 << b` and `&= !(1 << b)` do to each bit, and `trailing_zeros`.
use Prim.Native.Nat.{
  ℕ, zero, suc, ◌+◌, ◌-◌, ◌*◌, ◌/◌, ◌%◌, ◌^◌, ◌≤◌, ◌<◌, min, max, bit_and, bit_or, digits,
  bit_and-bitwise, bit_or-bitwise, suc-le-suc,
}
use native.Mathlib.Nat.{pow-suc, pow-le-pow_right}
use mathlib.Core.Path.{◌≡◌, refl, sym, ap, ◌∙◌}
use mathlib.Core.Logic.{◌≢◌, ◌↔◌, inl, inr}
use mathlib.Core.Bool.{false≢true, Bool, true, false, not, ◌&&◌, ◌||◌}
use native.Mathlib.Omega.{arith}
use rep_cxl.Prelude.Tests.{◌==◌, ==_iff, Bool-cases, if◌then◌else◌}

-- Bit `i` of `w`.
abbrev pub bit_at : ℕ → ℕ → Bool
bit_at w zero = w % 2 == 1
bit_at w (suc i) = bit_at (w / 2) i

module _ (z : ℕ → ℕ) (f : ℕ → ℕ → ℕ) (ends : (b : ℕ) → z b ≡ z (b / 2) * 2 + f 0 (b % 2)) where
  -- Any fuel from the number itself on gives the same digits.
  digits_enough : (a b k l : ℕ) → a ≤ k → a ≤ l → digits z f k a b ≡ digits z f l a b
  digits_enough zero b (suc k) (suc l) h i = refl
  digits_enough zero b (suc k) zero h i = refl
  digits_enough zero b zero (suc l) h i = refl
  digits_enough zero b zero zero h i = refl
  digits_enough (suc a) b (suc k) (suc l) h i =
      ap (λ (t : ℕ). t * 2 + f (suc a % 2) (b % 2))
        (digits_enough (suc a / 2) (b / 2) k l (omega arith) (omega arith))
  digits_enough (suc a) b (suc k) zero h i = absurd (omega arith)
  digits_enough (suc a) b zero l h i = absurd (omega arith)

  digits_halve :
      (a b : ℕ) → digits z f a a b ≡ digits z f (a / 2) (a / 2) (b / 2) * 2 + f (a % 2) (b % 2)
  digits_halve zero b = ends b
  digits_halve (suc a) b =
      ap (λ (t : ℕ). t * 2 + f (suc a % 2) (b % 2))
        (digits_enough (suc a / 2) (b / 2) a (suc a / 2) (omega arith) (omega arith))

bit_or_halve : (a b : ℕ) → bit_or a b ≡ bit_or (a / 2) (b / 2) * 2 + max (a % 2) (b % 2)
bit_or_halve a b = omega (
  arith,
  bit_or-bitwise a b,
  bit_or-bitwise (a / 2) (b / 2),
  digits_halve (λ b. b) max (λ b. omega arith) a b,
)

bit_and_halve : (a b : ℕ) → bit_and a b ≡ bit_and (a / 2) (b / 2) * 2 + min (a % 2) (b % 2)
bit_and_halve a b = omega (
  arith,
  bit_and-bitwise a b,
  bit_and-bitwise (a / 2) (b / 2),
  digits_halve (λ b. 0) min (λ b. omega arith) a b,
)

bit_or-zero : (k w : ℕ) → w ≤ k → bit_or w 0 ≡ w
bit_or-zero zero zero h = refl
bit_or-zero zero (suc w) h = absurd (omega arith)
bit_or-zero (suc k) w h = omega (arith, bit_or_halve w 0, bit_or-zero k (w / 2) (omega arith))

bit_or_half : (w v v' : ℕ) → v / 2 ≡ v' → bit_or w v / 2 ≡ bit_or (w / 2) v'
bit_or_half w v v' h = rw (← h) (omega (arith, bit_or_halve w v))

bit_and_half : (w v v' : ℕ) → v / 2 ≡ v' → bit_and w v / 2 ≡ bit_and (w / 2) v'
bit_and_half w v v' h = rw (← h) (omega (arith, bit_and_halve w v))

pub pow-pos : (k : ℕ) → 0 < 2 ^ k
pow-pos zero = omega arith
pow-pos (suc k) = omega (arith, pow-suc 2 k, pow-pos k)

pub pow-lt : (k b : ℕ) → b < k → 2 ^ b < 2 ^ k
pow-lt k b h = omega (arith, pow-le-pow_right {n = 2} (omega arith) h, pow-suc 2 b, pow-pos b)

-- `w |= 1 << b` sets bit `b` and no other.
pub bit_at-bit_or : (w b j : ℕ) → bit_at (bit_or w (2 ^ b)) j ≡ (b == j || bit_at w j)
bit_at-bit_or w zero zero = ground (arith, bit_or_halve w 1)
bit_at-bit_or w zero (suc j) =
    let up : bit_or w 1 / 2 ≡ w / 2 =
      omega (arith, bit_or_halve w 1, bit_or-zero (w / 2) (w / 2) (omega arith)) in
    rw up (ground arith)
bit_at-bit_or w (suc b) zero = ground (arith, bit_or_halve w (2 ^ suc b), pow-suc 2 b)
bit_at-bit_or w (suc b) (suc j) =
    let up : bit_or w (2 ^ suc b) / 2 ≡ bit_or (w / 2) (2 ^ b) =
      bit_or_half w (2 ^ suc b) (2 ^ b) (omega (arith, pow-suc 2 b)) in
    rw (up, bit_at-bit_or (w / 2) b j) (ground arith)

bit_at-ones : (k w j : ℕ) → j < k → bit_at (bit_and w (2 ^ k - 1)) j ≡ bit_at w j
bit_at-ones zero w j h = absurd (omega arith)
bit_at-ones (suc k) w zero h =
    ground (arith, bit_and_halve w (2 ^ suc k - 1), pow-suc 2 k, pow-pos k)
bit_at-ones (suc k) w (suc j) h =
    let half : (2 ^ suc k - 1) / 2 ≡ 2 ^ k - 1 = omega (arith, pow-suc 2 k, pow-pos k) in
    let up : bit_and w (2 ^ suc k - 1) / 2 ≡ bit_and (w / 2) (2 ^ k - 1) =
      bit_and_half w (2 ^ suc k - 1) (2 ^ k - 1) half in
    rw (up, bit_at-ones k (w / 2) j (omega arith))

-- In a word of `k` bits, `w &= !(1 << b)` clears bit `b` and no other.
pub bit_at-bit_and :
    (k w b j : ℕ)
    → b < k
    → j < k
    → bit_at (bit_and w (2 ^ k - 1 - 2 ^ b)) j ≡ (not (b == j) && bit_at w j)
bit_at-bit_and zero w b j p q = absurd (omega arith)
bit_at-bit_and (suc k) w zero zero p q =
    ground (arith, bit_and_halve w (2 ^ suc k - 1 - 1), pow-suc 2 k, pow-pos k)
bit_at-bit_and (suc k) w zero (suc j) p q =
    let half : (2 ^ suc k - 1 - 1) / 2 ≡ 2 ^ k - 1 = omega (arith, pow-suc 2 k, pow-pos k) in
    let up : bit_and w (2 ^ suc k - 1 - 1) / 2 ≡ bit_and (w / 2) (2 ^ k - 1) =
      bit_and_half w (2 ^ suc k - 1 - 1) (2 ^ k - 1) half in
    rw (up, bit_at-ones k (w / 2) j (omega arith)) (ground arith)
bit_at-bit_and (suc k) w (suc b) zero p q = ground (
  arith,
  bit_and_halve w (2 ^ suc k - 1 - 2 ^ suc b),
  pow-suc 2 k,
  pow-suc 2 b,
  pow-lt k b (omega arith),
)
bit_at-bit_and (suc k) w (suc b) (suc j) p q =
    let half : (2 ^ suc k - 1 - 2 ^ suc b) / 2 ≡ 2 ^ k - 1 - 2 ^ b =
      omega (arith, pow-suc 2 k, pow-suc 2 b, pow-lt k b (omega arith)) in
    let up : bit_and w (2 ^ suc k - 1 - 2 ^ suc b) / 2 ≡ bit_and (w / 2) (2 ^ k - 1 - 2 ^ b) =
      bit_and_half w (2 ^ suc k - 1 - 2 ^ suc b) (2 ^ k - 1 - 2 ^ b) half in
    rw (up, bit_at-bit_and k (w / 2) b j (omega arith) (omega arith)) (ground arith)

pub bit_or-lt : (k w v : ℕ) → w < 2 ^ k → v < 2 ^ k → bit_or w v < 2 ^ k
bit_or-lt zero w v p q = let e : w ≡ 0 = omega arith in rw e (omega (arith, bit_or-bitwise 0 v))
bit_or-lt (suc k) w v p q = omega (
  arith,
  pow-suc 2 k,
  bit_or_halve w v,
  bit_or-lt k (w / 2) (v / 2) (omega (arith, pow-suc 2 k)) (omega (arith, pow-suc 2 k)),
)

pub bit_and-le : (k w v : ℕ) → w < 2 ^ k → bit_and w v ≤ w
bit_and-le zero w v p = let e : w ≡ 0 = omega arith in rw e (omega (arith, bit_and-bitwise 0 v))
bit_and-le (suc k) w v p =
    omega (arith, bit_and_halve w v, bit_and-le k (w / 2) (v / 2) (omega (arith, pow-suc 2 k)))

-- `trailing_zeros` of a word of `k` bits: the position of the lowest bit that is set, or `k`.
unfoldable pub trailing_zeros : ℕ → ℕ → ℕ
trailing_zeros zero w = 0
trailing_zeros (suc k) w =
    let above = trailing_zeros k (w / 2) in if w % 2 == 1 then 0 else suc above

pub trailing_zeros-lt : (k w : ℕ) → w < 2 ^ k → w ≢ 0 → trailing_zeros k w < k
unfolding trailing_zeros
trailing_zeros-lt zero w h ne = absurd (ne (omega arith))
trailing_zeros-lt (suc k) w h ne = elim (Bool-cases (w % 2 == 1)) [
  | inl odd ↦ rw odd (omega arith)
  | inr even ↦ rw even (
      suc-le-suc
        (trailing_zeros-lt k (w / 2) (omega (arith, pow-suc 2 k)) (λ z. ne (ground (arith, even)))))
]

pub trailing_zeros_set : (k w : ℕ) → w < 2 ^ k → w ≢ 0 → bit_at w (trailing_zeros k w) ≡ true
unfolding trailing_zeros
trailing_zeros_set zero w h ne = absurd (ne (omega arith))
trailing_zeros_set (suc k) w h ne = elim (Bool-cases (w % 2 == 1)) [
  | inl odd ↦ rw odd odd
  | inr even ↦
      rw even
        (trailing_zeros_set k (w / 2) (omega (arith, pow-suc 2 k)) (λ z. ne (ground (arith, even))))
]

pub trailing_zeros_least : (k w j : ℕ) → j < trailing_zeros k w → bit_at w j ≡ false
unfolding trailing_zeros
trailing_zeros_least zero w j h = absurd (omega arith)
trailing_zeros_least (suc k) w zero h = ground arith
trailing_zeros_least (suc k) w (suc j) h = ground (arith, trailing_zeros_least k (w / 2) j)

pub bit_at-zero : (j : ℕ) → bit_at 0 j ≡ false
bit_at-zero zero = refl
bit_at-zero (suc j) = bit_at-zero j

bit_and-zero : (k w : ℕ) → w ≤ k → bit_and w 0 ≡ 0
bit_and-zero zero zero h = refl
bit_and-zero zero (suc w) h = absurd (omega arith)
bit_and-zero (suc k) w h = omega (arith, bit_and_halve w 0, bit_and-zero k (w / 2) (omega arith))

masked-lt : (k w : ℕ) → bit_and w (2 ^ k - 1) < 2 ^ k
masked-lt zero w =
    let nothing : bit_and w (2 ^ 0 - 1) ≡ 0 = bit_and-zero w w (omega arith) in omega arith
masked-lt (suc k) w =
    let half : (2 ^ suc k - 1) / 2 ≡ 2 ^ k - 1 = omega (arith, pow-suc 2 k, pow-pos k) in
    let up : bit_and w (2 ^ suc k - 1) / 2 ≡ bit_and (w / 2) (2 ^ k - 1) =
      bit_and_half w (2 ^ suc k - 1) (2 ^ k - 1) half in
    let low = masked-lt k (w / 2) in omega (arith, up, low, pow-suc 2 k)

-- The bits below `k` are all clear exactly if the mask of them leaves nothing.
pub masked_iff : (k w : ℕ) → (bit_and w (2 ^ k - 1) ≡ 0) ↔ ((j : ℕ) → j < k → bit_at w j ≡ false)
masked_iff k w = (
  λ nothing j h. sym (bit_at-ones k w j h) ∙ ap (λ m. bit_at m j) nothing ∙ bit_at-zero j,
  λ clear. elim (Bool-cases (bit_and w (2 ^ k - 1) == 0)) [
    | inl nothing ↦ (==_iff (bit_and w (2 ^ k - 1)) 0).0 nothing
    | inr some_bit ↦
        let masked = bit_and w (2 ^ k - 1) in
        let ne : masked ≢ 0 = λ z. false≢true (sym some_bit ∙ (==_iff masked 0).1 z) in
        let low = trailing_zeros-lt k masked (masked-lt k w) ne in
        let set_there = trailing_zeros_set k masked (masked-lt k w) ne in
        absurd (
          false≢true (
            sym (clear (trailing_zeros k masked) low)
            ∙ sym (bit_at-ones k w (trailing_zeros k masked) low)
            ∙ set_there))
  ],
)
