-- ===== src/Prelude/Text/Decimal.antt =====
-- A number that was printed is read back.
use Prim.Native.Nat.{ℕ, zero, suc, ◌+◌, ◌-◌, ◌*◌, ◌/◌, ◌%◌, ◌≤◌, ◌<◌}
use mathlib.Core.Path.{◌≡◌, refl}
use mathlib.Core.Logic.{inl, inr}
use mathlib.Core.Bool.{true, false}
use mathlib.Core.List.{[], ◌∷◌}
use mathlib.Core.Option.{some}
use native.Mathlib.Omega.{arith}
use rep_cxl.Prelude.Tests.{ltb, ◌==◌, Bool-cases, lt→ltb, le→ltb, ltb→lt, ltb→le}
use rep_cxl.Prelude.Text.{Text, print_from, print, is_digit, scan, parse}

is_digit_code : (d : ℕ) → d < 10 → is_digit (48 + d) ≡ true
unfolding is_digit
is_digit_code d h = ground arith

-- A digit in front extends the number that was read.
scan-digit :
    (limit read d : ℕ) (cs : Text)
    → d < 10
    → read * 10 + d < limit
    → scan limit read ((48 + d) ∷ cs) ≡ scan limit (read * 10 + d) cs
unfolding scan
scan-digit limit read d cs h k =
    let same : 48 + d - 48 ≡ d = omega arith in
    rw (is_digit_code d h, same, lt→ltb (read * 10 + d) limit k) refl

pub print_from_one : (fuel n : ℕ) (cs : Text) → n < 10 → print_from (suc fuel) n cs ≡ (48 + n) ∷ cs
unfolding print_from
print_from_one fuel n cs h = rw (print_from, lt→ltb n 10 h) refl

pub print_from_more :
    (fuel n : ℕ) (cs : Text)
    → 10 ≤ n
    → print_from (suc fuel) n cs ≡ print_from fuel (n / 10) ((48 + n % 10) ∷ cs)
unfolding print_from
print_from_more fuel n cs h = rw (print_from, le→ltb n 10 h) refl

scan-print_from :
    (limit fuel n : ℕ) (cs : Text)
    → n < fuel
    → n < limit
    → scan limit 0 (print_from fuel n cs) ≡ scan limit n cs
scan-print_from limit zero n cs h k = absurd (omega arith)
scan-print_from limit (suc fuel) n cs h k = elim (Bool-cases (ltb n 10)) [
  | inl one ↦
      let value : 0 * 10 + n ≡ n = omega arith in
      let step = scan-digit limit 0 n cs (ltb→lt n 10 one) (omega arith) in
      rw (print_from_one fuel n cs (ltb→lt n 10 one)) (rw value at step)
  | inr more ↦
      let large = ltb→le n 10 more in
      let value : n / 10 * 10 + n % 10 ≡ n = omega arith in
      let deep =
        scan-print_from limit fuel (n / 10) ((48 + n % 10) ∷ cs) (omega arith) (omega arith) in
      let step = scan-digit limit (n / 10) (n % 10) cs (omega arith) (omega arith) in
      rw (print_from_more fuel n cs large, deep) (rw value at step)
]

-- The first character of a printed number.
pub record StartsWithDigit (cs : Text) : Type 0 where
  pub first : ℕ
  pub rest : Text
  pub parts : cs ≡ first ∷ rest
  pub low : 48 ≤ first
  pub high : first ≤ 57

print_from-StartsWithDigit :
    (fuel n : ℕ) (cs : Text) → n < fuel → StartsWithDigit (print_from fuel n cs)
print_from-StartsWithDigit zero n cs h = absurd (omega arith)
print_from-StartsWithDigit (suc fuel) n cs h = elim (Bool-cases (ltb n 10)) [
  | inl one ↦ rw (print_from_one fuel n cs (ltb→lt n 10 one)) (record {
    first = 48 + n;
    rest = cs;
    parts = refl;
    low = omega arith;
    high = omega (arith, ltb→lt n 10 one);
  })
  | inr more ↦ rw (print_from_more fuel n cs (ltb→le n 10 more)) (
      print_from-StartsWithDigit fuel (n / 10) ((48 + n % 10) ∷ cs)
        (omega (arith, ltb→le n 10 more)))
]

pub print-StartsWithDigit : (n : ℕ) → StartsWithDigit (print n)
unfolding print
print-StartsWithDigit n = print_from-StartsWithDigit (suc n) n [] (omega arith)

-- A number below the limit is read back from what `print` writes.
pub parse-print : (limit n : ℕ) → n < limit → parse limit (print n) ≡ some n
unfolding parse print
parse-print limit n h =
    let starts = print_from-StartsWithDigit (suc n) n [] (omega arith) in
    let plain : (starts.first == 43) ≡ false = ground (arith, starts.low) in
    let whole = scan-print_from limit (suc n) n [] (omega arith) h in
    rw (starts.parts, plain) (rw starts.parts at whole)
