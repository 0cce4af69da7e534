-- ===== src/Ycsb/Trace.antt =====
-- A whole trace file of src/utils/ycsb.rs is read back: its header and its operations.
use Prim.Native.Nat.{ℕ, zero, suc, ◌+◌}
use rep_cxl.Prelude.{
  leb, le→leb, ◌≡◌, refl, ap, ◌∙◌, true, false, Option, List, [], ◌∷◌, ◌++◌, map, length, All,
  arith,
}
use rep_cxl.Prelude.Run.{ok}
use rep_cxl.Prelude.Text.{Text, codes, lines}
use rep_cxl.Prelude.Text.Trim.{Visible, Printable, Visible-Printable}
use rep_cxl.Prelude.Text.Lines.{lines-line}
use rep_cxl.Prelude.Text.Names.{IsName, IsName-Visible}
use rep_cxl.Ycsb.{
  is_delimiter, drop, before_delimiter, read_properties, properties_of, parse_properties,
  parse_operations, parse_ycsb_trace,
}
use rep_cxl.Ycsb.RoundTrip.{
  TraceLine, read_line, insert_line, update_line, WellFormed, line_of, op_in, with_words,
  field_text, operations-line_of,
}

-- A text of lines.
abbrev pub file_of : List Text → Text
file_of [] = []
file_of (l ∷ ls) = l ++ 10 ∷ file_of ls

lines-file_of : (ls : List Text) → All Printable ls → lines (file_of ls) ≡ ls
unfolding lines
lines-file_of [] h = refl
lines-file_of (l ∷ ls) h = lines-line l (file_of ls) h.0 ∙ ap (λ r. l ∷ r) (lines-file_of ls h.1)

Printable-append : (xs ys : Text) → Printable xs → Printable ys → Printable (xs ++ ys)
Printable-append [] ys h k = k
Printable-append (x ∷ xs) ys h k = (h.0, Printable-append xs ys h.1 k)

IsName-Printable : (cs : Text) → IsName cs → Printable cs
IsName-Printable cs h = Visible-Printable cs (IsName-Visible cs h)

with_words-Printable :
    (op table key fields : Text)
    → Printable op
    → IsName table
    → IsName key
    → Printable fields
    → Printable (with_words op table key fields)
with_words-Printable op table key fields h k l f =
    let after_key =
      Printable-append key (32 ∷ b'[' ∷ 32 ∷ fields) (IsName-Printable key l)
        (omega arith, (omega arith, (omega arith, f))) in
    let after_table =
      Printable-append table _ (IsName-Printable table k) (omega arith, after_key) in
    Printable-append op _ h (omega arith, after_table)

field_text-Printable :
    (name value : Text) → IsName name → Visible value → Printable (field_text name value)
field_text-Printable name value n v = Printable-append name _ (IsName-Printable name n) (
  omega arith,
  Printable-append value (32 ∷ b']' ∷ []) (Visible-Printable value v)
      (omega arith, (omega arith, tt)),
)

line_of-Printable : (l : TraceLine) → WellFormed l → Printable (line_of l)
unfolding line_of
line_of-Printable (read_line table key) (k, l) =
    with_words-Printable (codes "READ") table key (codes "<all fields>]") (omega arith) k l
      (omega arith)
line_of-Printable (insert_line table key name value) (k, l, n, v) =
    with_words-Printable (codes "INSERT") table key _ (omega arith) k l
      (field_text-Printable name value n v)
line_of-Printable (update_line table key name value) (k, l, n, v) =
    with_words-Printable (codes "UPDATE") table key _ (omega arith) k l
      (field_text-Printable name value n v)

All-Printable : (ls : List TraceLine) → All WellFormed ls → All Printable (map line_of ls)
All-Printable [] h = tt
All-Printable (l ∷ ls) h = (line_of-Printable l h.0, All-Printable ls h.1)

Printable-file :
    (before : List Text) (opening : Text) (header : List Text) (closing : Text)
    (ls : List TraceLine)
    → All Printable (before ++ opening ∷ (header ++ closing ∷ []))
    → All WellFormed ls
    → All Printable (before ++ opening ∷ (header ++ closing ∷ map line_of ls))
Printable-file [] opening header closing ls h w = (h.0, tail header h.1)
  where
    tail :
        (hs : List Text)
        → All Printable (hs ++ closing ∷ [])
        → All Printable (hs ++ closing ∷ map line_of ls)
    tail [] k = (k.0, All-Printable ls w)
    tail (x ∷ hs) k = (k.0, tail hs k.1)
Printable-file (x ∷ before) opening header closing ls h w =
    (h.0, Printable-file before opening header closing ls h.1 w)

-- No line contains the delimiter.
abbrev pub Plain : List Text → Type 0
Plain = All (λ l. is_delimiter l ≡ false)

before_delimiter-append :
    (xs : List Text) (d : Text) (rest : List Text)
    → Plain xs
    → is_delimiter d ≡ true
    → before_delimiter (xs ++ d ∷ rest) ≡ xs
unfolding before_delimiter
before_delimiter-append [] d rest h marks = rw marks refl
before_delimiter-append (x ∷ xs) d rest h marks =
    rw (h.0, before_delimiter-append xs d rest h.1 marks) refl

drop-append :
    (xs : List Text) (d : Text) (rest : List Text) (n : ℕ)
    → n ≡ length xs + 1
    → drop n (xs ++ d ∷ rest) ≡ rest
drop-append [] d rest zero e = absurd (omega arith)
drop-append [] d rest (suc n) e = let none_left : n ≡ 0 = omega arith in rw none_left refl
drop-append (x ∷ xs) d rest zero e = absurd (omega arith)
drop-append (x ∷ xs) d rest (suc n) e = drop-append xs d rest n (omega arith)

drop-nil : (n : ℕ) → drop n [] ≡ []
drop-nil zero = refl
drop-nil (suc n) = refl

drop-drop : (ls : List Text) (m n : ℕ) → drop (m + n) ls ≡ drop n (drop m ls)
drop-drop ls zero n = let none_more : 0 + n ≡ n = omega arith in rw none_more refl
drop-drop [] (suc m) n = rw (drop-nil (suc m + n), drop-nil n) refl
drop-drop (l ∷ ls) (suc m) n =
    let next : suc m + n ≡ suc (m + n) = omega arith in rw next (drop-drop ls m n)

length-between :
    (xs : List Text) (d : Text) (rest : List Text)
    → length (xs ++ d ∷ rest) ≡ length xs + 1 + length rest
length-between [] d rest = omega arith
length-between (x ∷ xs) d rest = omega (arith, length-between xs d rest)

-- A trace file of printable lines: some lines, a delimiter, the header, a delimiter, and the lines of
-- well-formed operations, where only the two delimiters contain five asterisks. Reading it gives the
-- properties of the header and the operations of the lines, in order, each with its table, its key
-- and, if it writes, its field.
pub parse_ycsb_trace-file_of :
    {F : Type 0} (zero_float : F) (read_float : Text → Option F) (before header : List Text)
    (opening closing : Text) (ls : List TraceLine)
    → Plain before
    → Plain header
    → is_delimiter opening ≡ true
    → is_delimiter closing ≡ true
    → All Printable (before ++ opening ∷ (header ++ closing ∷ []))
    → All WellFormed ls
    → parse_ycsb_trace zero_float read_float
        (file_of (before ++ opening ∷ (header ++ closing ∷ map line_of ls)))
      ≡ ok (properties_of zero_float read_float (read_properties header []), map op_in ls)
unfolding parse_ycsb_trace parse_properties parse_operations
parse_ycsb_trace-file_of zero_float read_float before header opening closing ls p q marks ends h w =
    let rest = header ++ closing ∷ map line_of ls in
    let printable = Printable-file before opening header closing ls h w in
    let all_lines = lines-file_of (before ++ opening ∷ rest) printable in
    let first = before_delimiter-append before opening rest p marks in
    let block = drop-append before opening rest (length before + 1) refl in
    let second = before_delimiter-append header closing (map line_of ls) q ends in
    let size =
      length-between before opening rest
      ∙ ap (λ n. length before + 1 + n) (length-between header closing (map line_of ls)) in
    let within : leb (length before + 1 + length header + 1) (length (before ++ opening ∷ rest))
        ≡ true =
      le→leb _ _ (omega (arith, size)) in
    let place : length before + 1 + length header + 1 ≡ length before + 1 + (length header + 1) =
      omega arith in
    let behind : drop (length before + 1 + length header + 1) (before ++ opening ∷ rest)
        ≡ map line_of ls =
      rw place (
        drop-drop (before ++ opening ∷ rest) (length before + 1) (length header + 1)
        ∙ ap (drop (length header + 1)) block
        ∙ drop-append header closing (map line_of ls) (length header + 1) refl) in
    rw (all_lines, first, block, second, within, behind, operations-line_of ls w) refl
