-- ===== src/Prelude/Text/Lines.antt =====
-- The lines of a text that was written line by line.
use mathlib.Core.Path.{◌≡◌, refl, ap, ◌∙◌}
use mathlib.Core.Bool.{false}
use mathlib.Core.List.{[], ◌∷◌, ◌++◌, reverse, reverse_aux, reverse-reverse}
use native.Mathlib.Omega.{arith}
use rep_cxl.Prelude.Tests.{◌==◌}
use rep_cxl.Prelude.Text.{Text, chop, lines_from, lines}
use rep_cxl.Prelude.Text.Trim.{Printable}

abbrev Starts : Text → Type 0
Starts [] = Unit
Starts (c ∷ cs) = (c == 13) ≡ false

chop-Starts : (read : Text) → Starts read → chop read ≡ read
chop-Starts [] h = refl
chop-Starts (c ∷ cs) h = rw h refl

lines_from-line :
    (read line rest : Text)
    → Starts read
    → Printable line
    → lines_from read (line ++ 10 ∷ rest) ≡ reverse (reverse_aux line read) ∷ lines_from [] rest
unfolding lines_from
lines_from-line read [] rest s h = rw (chop-Starts read s) refl
lines_from-line read (c ∷ line) rest s h =
    let inside : (c == 10) ≡ false = ground (arith, h.0) in
    let plain : (c == 13) ≡ false = ground (arith, h.0) in
    rw (lines_from, inside) (lines_from-line (c ∷ read) line rest plain h.1)

-- A printable line is the first line of the text that it begins.
pub lines-line : (line rest : Text) → Printable line → lines (line ++ 10 ∷ rest) ≡ line ∷ lines rest
unfolding lines
lines-line line rest h =
    lines_from-line [] line rest tt h ∙ ap (λ l. l ∷ lines_from [] rest) (reverse-reverse line)
