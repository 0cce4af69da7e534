-- ===== src/Prelude/Text/Search.antt =====
-- More of Rust's `str`: prefixes, substrings, words, and the UTF-8 encoding.
use Prim.Native.Nat.{ℕ, ◌+◌, ◌/◌, ◌%◌}
use mathlib.Core.Bool.{Bool, true, false}
use mathlib.Core.List.{List, [], ◌∷◌, ◌++◌, reverse}
use mathlib.Core.Option.{Option, none, some}
use rep_cxl.Prelude.Tests.{ltb, ◌==◌, if◌then◌else◌}
use rep_cxl.Prelude.Text.{Text, is_whitespace, trim_start, last_line}

-- What stands behind the prefix, if the text begins with it.
unfoldable pub strip_prefix : Text → Text → Option Text
strip_prefix [] cs = some cs
strip_prefix (p ∷ ps) [] = none
strip_prefix (p ∷ ps) (c ∷ cs) = let deeper = strip_prefix ps cs in if c == p then deeper else none

abbrev pub or_else {ℓ} : {A : Type ℓ} → Option A → Option A → Option A
or_else none other = other
or_else (some a) other = some a

-- The text behind the first place where the pattern stands, which `find` gives.
unfoldable pub behind_first : Text → Text → Option Text
unfolding strip_prefix
behind_first pattern [] = strip_prefix pattern []
behind_first pattern (c ∷ cs) =
    let later = behind_first pattern cs in or_else (strip_prefix pattern (c ∷ cs)) later

abbrev pub is_there {ℓ} : {A : Type ℓ} → Option A → Bool
is_there none = false
is_there (some a) = true

-- `contains`
unfoldable pub has : Text → Text → Bool
unfolding behind_first
has pattern cs = is_there (behind_first pattern cs)

unfoldable pub trim_end : Text → Text
unfolding trim_start
trim_end cs = reverse (trim_start (reverse cs))

abbrev pub without_head : ℕ → Text → Text
without_head c [] = []
without_head c (d ∷ ds) = if d == c then ds else d ∷ ds

-- `strip_suffix` of one character, or the text as it is
unfoldable pub without_last : ℕ → Text → Text
without_last c cs = reverse (without_head c (reverse cs))

unfoldable pub drop_char : ℕ → Text → Text
drop_char c [] = []
drop_char c (d ∷ ds) = let more = drop_char c ds in if d == c then more else d ∷ ds

-- `trim_matches` of one character
unfoldable pub trim_char : ℕ → Text → Text
unfolding drop_char
trim_char c cs = reverse (drop_char c (reverse (drop_char c cs)))

-- The words, with the reverse of what was read of the first.
unfoldable pub words_from : Text → Text → List Text
unfolding is_whitespace
words_from read [] = last_line read
words_from read (c ∷ cs) = elim (is_whitespace c) [
  | true ↦ last_line read ++ words_from [] cs
  | false ↦ words_from (c ∷ read) cs
]

-- `split_whitespace`
unfoldable pub words : Text → List Text
unfolding words_from
words cs = words_from [] cs

-- The bytes of one code point.
abbrev pub utf8_of : ℕ → Text
utf8_of c =
    if ltb c 128
    then c ∷ []
    else if ltb c 2048
    then (192 + c / 64) ∷ (128 + c % 64) ∷ []
    else if ltb c 65536
    then (224 + c / 4096) ∷ (128 + c / 64 % 64) ∷ (128 + c % 64) ∷ []
    else (240 + c / 262144) ∷ (128 + c / 4096 % 64) ∷ (128 + c / 64 % 64) ∷ (128 + c % 64) ∷ []

-- `as_bytes`
unfoldable pub utf8 : Text → List ℕ
utf8 [] = []
utf8 (c ∷ cs) = utf8_of c ++ utf8 cs

abbrev pub or_later : ℕ → Option Text → Option (Text × Text) → Option (Text × Text)
or_later c (some rest) later = some ([], rest)
or_later c none none = none
or_later c none (some (before, rest)) = some (c ∷ before, rest)

-- The text before the first place of the pattern, which `find` gives, and the text behind it.
unfoldable pub split_text : Text → Text → Option (Text × Text)
unfolding strip_prefix
split_text pattern [] = none
split_text pattern (c ∷ cs) =
    let later = split_text pattern cs in or_later c (strip_prefix pattern (c ∷ cs)) later
