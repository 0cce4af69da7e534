-- ===== src/Prelude/Text/Trim.antt =====
-- Texts of visible characters: `trim` leaves them as they are.
use Prim.Native.Nat.{ℕ, ◌≤◌}
use mathlib.Core.Path.{◌≡◌, refl, sym, ap, ◌∙◌}
use mathlib.Core.Bool.{false}
use mathlib.Core.List.{[], ◌∷◌, ◌++◌, reverse, reverse_aux, reverse-append, reverse-reverse}
use native.Mathlib.Omega.{arith}
use rep_cxl.Prelude.Lists.{All}
use rep_cxl.Prelude.Text.{Text, is_whitespace, trim_start, trim}

-- ASCII and no space or control character
abbrev pub Visible : Text → Type 0
Visible = All (λ c. (33 ≤ c) × (c ≤ 126))

-- ASCII and no control character
abbrev pub Printable : Text → Type 0
Printable = All (λ c. (32 ≤ c) × (c ≤ 126))

pub Visible-Printable : (xs : Text) → Visible xs → Printable xs
Visible-Printable [] h = tt
Visible-Printable (x ∷ xs) h = ((omega arith, h.0.1), Visible-Printable xs h.1)

pub Visible-append : (xs ys : Text) → Visible xs → Visible ys → Visible (xs ++ ys)
Visible-append [] ys h k = k
Visible-append (x ∷ xs) ys h k = (h.0, Visible-append xs ys h.1 k)

Visible-reverse_aux : (xs ys : Text) → Visible xs → Visible ys → Visible (reverse_aux xs ys)
Visible-reverse_aux [] ys h k = k
Visible-reverse_aux (x ∷ xs) ys h k = Visible-reverse_aux xs (x ∷ ys) h.1 (h.0, k)

pub visible : (c : ℕ) → (33 ≤ c) × (c ≤ 126) → is_whitespace c ≡ false
unfolding is_whitespace
visible c k = ground arith

pub trim_start-Visible : (xs : Text) → Visible xs → trim_start xs ≡ xs
unfolding trim_start
trim_start-Visible [] h = refl
trim_start-Visible (x ∷ xs) h = let mark : is_whitespace x ≡ false = visible x h.0 in rw mark refl

pub trim-Visible : (xs : Text) → Visible xs → trim xs ≡ xs
unfolding trim
trim-Visible xs h =
    rw (trim_start-Visible xs h, trim_start-Visible (reverse xs) (Visible-reverse_aux xs [] h tt))
      (reverse-reverse xs)

pub Visible-reverse : (xs : Text) → Visible xs → Visible (reverse xs)
Visible-reverse xs h = Visible-reverse_aux xs [] h tt

-- What stands inside the text does not matter, if its first and its last character are visible.
pub trim_between :
    (x y : ℕ) (rest front : Text)
    → x ∷ rest ≡ front ++ y ∷ []
    → is_whitespace x ≡ false
    → is_whitespace y ≡ false
    → trim (x ∷ rest) ≡ x ∷ rest
unfolding trim trim_start
trim_between x y rest front ends first last =
    let backwards : reverse (x ∷ rest) ≡ y ∷ reverse front =
      ap reverse ends ∙ reverse-append front (y ∷ []) in
    rw (first, backwards, last) (ap reverse (sym backwards) ∙ reverse-reverse (x ∷ rest))
