-- ===== src/Config/Processes.antt =====
-- `parse_processes` of src/config.rs: the processes as a number, an array, or the text of a range.
use Prim.Native.Nat.{ℕ, zero, suc, ◌+◌, ◌-◌, ◌^◌, ◌<◌}
use rep_cxl.Prelude.{
  ltb, ◌==◌, if◌then◌else◌, ◌≡◌, refl, ap, Option, none, some, List, [], ◌∷◌, ◌++◌, arith,
}
use rep_cxl.Prelude.Text.{Text, codes, trim, split_once, print, digits_of, parse}
use rep_cxl.Prelude.Text.Decimal.{parse-print, print-StartsWithDigit, StartsWithDigit}
use rep_cxl.Prelude.Text.Trim.{trim-Visible}
use rep_cxl.Prelude.Text.Fields.{Lacks, split_once-field}
use rep_cxl.Prelude.Text.Word.{Word-Visible, Word-Lacks, print-Word}
use rep_cxl.Prelude.Text.Search.{strip_prefix, split_text}
use rep_cxl.Config.{ℤ, pos, negsuc}

pub data ProcessSpec : Type 0 where
  number : ℕ → ProcessSpec
  array : List ℕ → ProcessSpec
  range : Text → ProcessSpec

-- The `n` numbers from `a` on.
abbrev pub count_from : ℕ → ℕ → List ℕ
count_from a zero = []
count_from a (suc n) = a ∷ count_from (suc a) n

-- `a..=b`
abbrev pub up_to : ℕ → ℕ → List ℕ
up_to a b = count_from a (suc b - a)

abbrev pub minus : Option ℕ → Option ℤ
minus none = none
minus (some zero) = some (pos 0)
minus (some (suc n)) = some (negsuc n)

abbrev pub plus : Option ℕ → Option ℤ
plus none = none
plus (some n) = some (pos n)

-- `parse::<i32>()`
unfoldable pub parse_i32 : Text → Option ℤ
unfolding parse digits_of
parse_i32 [] = none
parse_i32 (c ∷ cs) =
    if c == b'-' then minus (digits_of (2 ^ 31 + 1) cs) else plus (parse (2 ^ 31) (c ∷ cs))

-- A range, if both ends are numbers.
abbrev pub range_of : Option ℕ → Option ℕ → Option (List ℕ)
range_of none end = none
range_of (some a) none = none
range_of (some a) (some b) = some (up_to a b)

abbrev pub below : Option ℕ → Option (List ℕ)
below none = none
below (some n) = some (count_from 0 n)

abbrev pub positive : Option ℤ → Option ℕ
positive none = none
positive (some (negsuc n)) = none
positive (some (pos n)) = if ltb 0 n then some n else none

abbrev pub parse_u32 : Text → Option ℕ
unfolding parse trim
parse_u32 cs = parse (2 ^ 32) (trim cs)

-- The texts before and behind the dash. A text that begins with it is read as an `i32`.
abbrev pub dashed : Text → Text × Option Text → Option (List ℕ)
unfolding parse trim parse_i32
dashed s (before, none) = below (parse_u32 s)
dashed s ([], some behind) = below (positive (parse_i32 s))
dashed s (c ∷ cs, some behind) = range_of (parse_u32 (c ∷ cs)) (parse_u32 behind)

abbrev pub dotted : Text → Option (Text × Text) → Option (List ℕ)
unfolding parse trim split_once dashed
dotted s (some (before, behind)) = range_of (parse_u32 before) (parse_u32 behind)
dotted s none = dashed s (split_once b'-' s)

-- The processes, or none on an error.
unfoldable pub parse_processes : ProcessSpec → Option (List ℕ)
unfolding split_text dotted
parse_processes (number n) = some (count_from 0 n)
parse_processes (array ps) = some ps
parse_processes (range s) = dotted s (split_text (codes "..") s)

split_text-lacking : (cs : Text) → Lacks b'.' cs → split_text (codes "..") cs ≡ none
unfolding split_text strip_prefix
split_text-lacking [] h = refl
split_text-lacking (c ∷ cs) h = rw (h.0, split_text-lacking cs h.1) refl

split_text-field :
    (field rest : Text)
    → Lacks b'.' field
    → split_text (codes "..") (field ++ b'.' ∷ b'.' ∷ rest) ≡ some (field, rest)
unfolding split_text strip_prefix
split_text-field [] rest h = refl
split_text-field (c ∷ field) rest h = rw (h.0, split_text-field field rest h.1) refl

split_once-lacking : (sep : ℕ) (cs : Text) → Lacks sep cs → split_once sep cs ≡ (cs, none)
unfolding split_once
split_once-lacking sep [] h = refl
split_once-lacking sep (c ∷ cs) h = rw (h.0, split_once-lacking sep cs h.1) refl

Lacks-append : (sep : ℕ) (xs ys : Text) → Lacks sep xs → Lacks sep ys → Lacks sep (xs ++ ys)
Lacks-append sep [] ys h k = k
Lacks-append sep (x ∷ xs) ys h k = (h.0, Lacks-append sep xs ys h.1 k)

print-Lacks : (sep n : ℕ) → sep < 48 → Lacks sep (print n)
print-Lacks sep n low = Word-Lacks sep (print n) low (print-Word n)

parse_u32-print : (n : ℕ) → n < 2 ^ 32 → parse_u32 (print n) ≡ some n
unfolding parse_u32
parse_u32-print n small =
    rw (trim-Visible (print n) (Word-Visible _ (print-Word n))) (parse-print (2 ^ 32) n small)

print-dashed :
    (s : Text) (a : ℕ) (behind : Text)
    → dashed s (print a, some behind) ≡ range_of (parse_u32 (print a)) (parse_u32 behind)
unfolding dashed
print-dashed s a behind =
    let starts : StartsWithDigit (print a) = print-StartsWithDigit a in rw starts.parts refl

-- For numbers below 2 ^ 32: the text of a number gives the processes below it, and two numbers with
-- two dots or with a dash between them give all processes from the first to the second.
pub parse_processes-print :
    (a b : ℕ)
    → a < 2 ^ 32
    → b < 2 ^ 32
    → (parse_processes (range (print a)) ≡ some (count_from 0 a))
      × (parse_processes (range (print a ++ b'.' ∷ b'.' ∷ print b)) ≡ some (up_to a b))
      × (parse_processes (range (print a ++ b'-' ∷ print b)) ≡ some (up_to a b))
unfolding parse_processes dotted dashed
parse_processes-print a b small_a small_b =
    let no_dot = print-Lacks b'.' a (omega arith) in
    let no_dash = print-Lacks b'-' a (omega arith) in
    let plain =
      Lacks-append b'.' (print a) (b'-' ∷ print b) no_dot
        (refl, print-Lacks b'.' b (omega arith)) in
    let read_a = parse_u32-print a small_a in
    let read_b = parse_u32-print b small_b in
    (
      rw (split_text-lacking (print a) no_dot, split_once-lacking b'-' (print a) no_dash)
          (ap below read_a),
      rw (split_text-field (print a) (print b) no_dot, read_a, read_b) refl,
      rw
          (
            split_text-lacking (print a ++ b'-' ∷ print b) plain,
            split_once-field b'-' (print a) (print b) no_dash,
            print-dashed (print a ++ b'-' ∷ print b) a (print b),
            read_a,
            read_b,
          )
          refl,
    )
