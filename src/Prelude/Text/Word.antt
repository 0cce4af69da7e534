-- ===== src/Prelude/Text/Word.antt =====
-- Words of digits and letters, among them the printed numbers.
use Prim.Native.Nat.{ℕ, zero, suc, ◌+◌, ◌/◌, ◌%◌, ◌≤◌, ◌<◌}
use mathlib.Core.Logic.{inl, inr}
use mathlib.Core.List.{[], ◌∷◌}
use native.Mathlib.Omega.{arith}
use rep_cxl.Prelude.Tests.{ltb, Bool-cases, ltb→lt, ltb→le}
use rep_cxl.Prelude.Lists.{All}
use rep_cxl.Prelude.Text.{Text, print_from, print}
use rep_cxl.Prelude.Text.Decimal.{print_from_one, print_from_more}
use rep_cxl.Prelude.Text.Trim.{Visible}
use rep_cxl.Prelude.Text.Fields.{Lacks}

-- Digits and letters: visible, and none of the separators.
abbrev pub Word : Text → Type 0
Word = All (λ c. (48 ≤ c) × (c ≤ 122))

pub Word-Visible : (cs : Text) → Word cs → Visible cs
Word-Visible [] h = tt
Word-Visible (c ∷ cs) h = ((omega (arith, h.0), omega (arith, h.0)), Word-Visible cs h.1)

pub Word-Lacks : (sep : ℕ) (cs : Text) → sep < 48 → Word cs → Lacks sep cs
Word-Lacks sep [] low h = tt
Word-Lacks sep (c ∷ cs) low h = (ground (arith, h.0), Word-Lacks sep cs low h.1)

print_from-Word : (fuel n : ℕ) (cs : Text) → Word cs → Word (print_from fuel n cs)
unfolding print_from
print_from-Word zero n cs h = h
print_from-Word (suc fuel) n cs h = elim (Bool-cases (ltb n 10)) [
  | inl one ↦
      let low = ltb→lt n 10 one in rw (print_from_one fuel n cs low) ((omega arith, omega arith), h)
  | inr more ↦
      rw (print_from_more fuel n cs (ltb→le n 10 more))
        (print_from-Word fuel (n / 10) ((48 + n % 10) ∷ cs) ((omega arith, omega arith), h))
]

pub print-Word : (n : ℕ) → Word (print n)
unfolding print
print-Word n = print_from-Word (suc n) n [] tt
