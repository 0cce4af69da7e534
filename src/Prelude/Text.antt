-- ===== src/Prelude/Text.antt =====
-- Text as the list of its code points, and what the sources use of Rust's `str`: `trim`, `splitn`,
-- `BufRead::lines`, and unsigned numbers in decimal as `{}` prints them and `parse` reads them.
pub mod Decimal
pub mod Trim
pub mod Lines
pub mod Fields
pub mod Word
pub mod Search
pub mod Words
pub mod Names
use Prim.Native.Nat.{ℕ, zero, suc, ◌+◌, ◌-◌, ◌*◌, ◌/◌, ◌%◌}
use Prim.Native.Char.{code}
use Prim.Native.String.{String}
use mathlib.Core.Bool.{Bool, true, false, ◌&&◌, ◌||◌}
use mathlib.Core.List.{List, [], ◌∷◌, ◌++◌, reverse}
use mathlib.Core.Option.{Option, none, some}
use rep_cxl.Prelude.Tests.{ltb, leb, ◌==◌, if◌then◌else◌}

abbrev pub Text : Type 0
Text = List ℕ

abbrev pub codes : String → Text
codes String.[] = []
codes (String.◌∷◌ c s) = code c ∷ codes s

-- `char::is_whitespace`
unfoldable pub is_whitespace : ℕ → Bool
is_whitespace c =
    leb 9 c && leb c 13
    || (c == 32
        || (c == 133
            || (c == 160
                || (c == 5760
                    || (leb 8192 c && leb c 8202
                        || (c == 8232
                            || (c == 8233 || (c == 8239 || (c == 8287 || c == 12288)))))))))

unfoldable pub trim_start : Text → Text
unfolding is_whitespace
trim_start [] = []
trim_start (c ∷ cs) = if is_whitespace c then trim_start cs else c ∷ cs

unfoldable pub trim : Text → Text
unfolding trim_start
trim cs = reverse (trim_start (reverse (trim_start cs)))

-- The text before the first separator, and the text behind it if there is a separator.
unfoldable pub split_once : ℕ → Text → Text × Option Text
split_once sep [] = ([], none)
split_once sep (c ∷ cs) =
    let (before, after) = split_once sep cs in
    if c == sep then ([], some cs) else (c ∷ before, after)

abbrev pub behind : Option Text → (Text → List Text) → List Text
behind none rest = []
behind (some cs) rest = rest cs

unfoldable pub splitn : ℕ → ℕ → Text → List Text
unfolding split_once
splitn zero sep cs = []
splitn (suc zero) sep cs = cs ∷ []
splitn (suc (suc n)) sep cs =
    let (before, after) = split_once sep cs in before ∷ behind after (splitn (suc n) sep)

-- A carriage return before the end of the line goes with it; the line is held in reverse.
abbrev pub chop : Text → Text
chop [] = []
chop (c ∷ cs) = if c == 13 then cs else c ∷ cs

-- What is left at the end of the text is a line unless it is empty.
abbrev pub last_line : Text → List Text
last_line [] = []
last_line (c ∷ cs) = reverse (c ∷ cs) ∷ []

-- The lines, with the reverse of what was read of the first.
unfoldable pub lines_from : Text → Text → List Text
lines_from read [] = last_line read
lines_from read (c ∷ cs) = elim (c == 10) [
  | true ↦ reverse (chop read) ∷ lines_from [] cs
  | false ↦ lines_from (c ∷ read) cs
]

unfoldable pub lines : Text → List Text
unfolding lines_from
lines cs = lines_from [] cs

-- The digits of a number before those of `behind`, on fuel.
unfoldable pub print_from : ℕ → ℕ → Text → Text
print_from zero n behind = behind
print_from (suc fuel) n behind = elim (ltb n 10) [
  | true ↦ (48 + n) ∷ behind
  | false ↦ print_from fuel (n / 10) ((48 + n % 10) ∷ behind)
]

-- A number has fewer digits than one more than its value.
unfoldable pub print : ℕ → Text
unfolding print_from
print n = print_from (suc n) n []

unfoldable pub is_digit : ℕ → Bool
is_digit c = leb 48 c && leb c 57

-- The digits of a number below the limit, behind those that give `read`.
unfoldable pub scan : ℕ → ℕ → Text → Option ℕ
unfolding is_digit
scan limit read [] = some read
scan limit read (c ∷ cs) =
    if is_digit c
    then if ltb (read * 10 + (c - 48)) limit then scan limit (read * 10 + (c - 48)) cs else none
    else none

unfoldable pub digits_of : ℕ → Text → Option ℕ
unfolding scan
digits_of limit [] = none
digits_of limit (c ∷ cs) = scan limit 0 (c ∷ cs)

-- `parse` into an unsigned type with the values below the limit: digits, with `+` before them or not.
unfoldable pub parse : ℕ → Text → Option ℕ
unfolding scan digits_of
parse limit [] = none
parse limit (c ∷ cs) = if c == 43 then digits_of limit cs else scan limit 0 (c ∷ cs)

-- `==` on texts
unfoldable pub same : Text → Text → Bool
same [] [] = true
same [] (d ∷ ds) = false
same (c ∷ cs) [] = false
same (c ∷ cs) (d ∷ ds) = c == d && same cs ds
