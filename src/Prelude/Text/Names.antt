-- ===== src/Prelude/Text/Names.antt =====
-- Names of ASCII letters and digits.
use Prim.Native.Nat.{ℕ, ◌≤◌}
use mathlib.Core.Path.{◌≡◌, sym, ap, ◌∙◌}
use mathlib.Core.Logic.{inl, inr}
use mathlib.Core.Bool.{Bool, true, false, ◌&&◌, ◌||◌}
use mathlib.Core.List.{[], ◌∷◌}
use native.Mathlib.Omega.{arith}
use rep_cxl.Prelude.Tests.{leb, ◌==◌, ==_iff, Bool-cases}
use rep_cxl.Prelude.Lists.{All}
use rep_cxl.Prelude.Text.{Text}
use rep_cxl.Prelude.Text.Trim.{Visible}
use rep_cxl.Prelude.Text.Fields.{Lacks}

unfoldable pub is_letter_or_digit : ℕ → Bool
is_letter_or_digit c = leb 48 c && leb c 57 || (leb 65 c && leb c 90 || leb 97 c && leb c 122)

-- Letters and digits, and not empty.
abbrev pub IsName : Text → Type 0
IsName [] = ⊥
IsName (c ∷ cs) = All (λ d. is_letter_or_digit d ≡ true) (c ∷ cs)

named-visible : (d : ℕ) → is_letter_or_digit d ≡ true → (33 ≤ d) × (d ≤ 126)
unfolding is_letter_or_digit
named-visible d h = ground arith

named_Visible : (ds : Text) → All (λ d. is_letter_or_digit d ≡ true) ds → Visible ds
named_Visible [] h = tt
named_Visible (d ∷ ds) h = (named-visible d h.0, named_Visible ds h.1)

pub IsName-Visible : (cs : Text) → IsName cs → Visible cs
IsName-Visible [] h = absurd h
IsName-Visible (c ∷ cs) h = named_Visible (c ∷ cs) h

named_Lacks :
    (sep : ℕ) (ds : Text)
    → is_letter_or_digit sep ≡ false
    → All (λ d. is_letter_or_digit d ≡ true) ds
    → Lacks sep ds
named_Lacks sep [] out h = tt
named_Lacks sep (d ∷ ds) out h = (
  elim (Bool-cases (d == sep)) [
    | inr other ↦ other
    | inl same ↦
        let here : d ≡ sep = (==_iff d sep).0 same in
        let clash : false ≡ true = sym out ∙ ap is_letter_or_digit (sym here) ∙ h.0 in absurd (cc)
  ],
  named_Lacks sep ds out h.1,
)

-- A character that is no letter or digit is not in a name.
pub IsName-Lacks : (sep : ℕ) (cs : Text) → is_letter_or_digit sep ≡ false → IsName cs → Lacks sep cs
IsName-Lacks sep [] out h = absurd h
IsName-Lacks sep (c ∷ cs) out h = named_Lacks sep (c ∷ cs) out h
