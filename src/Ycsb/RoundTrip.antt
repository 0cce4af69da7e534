-- ===== src/Ycsb/RoundTrip.antt =====
-- A trace in the format that the head of src/utils/ycsb.rs describes is read back.
use Prim.Native.Nat.{ℕ}
use rep_cxl.Prelude.{
  lt→ltb, ◌==◌, ==_iff, ◌≡◌, refl, ap, ◌∙◌, true, some, List, [], ◌∷◌, ◌++◌, map, All, arith,
}
use mathlib.Core.List.{reverse, reverse-append, reverse-reverse, append_assoc}
use rep_cxl.Prelude.Text.{Text, codes, is_whitespace, trim_start, trim}
use rep_cxl.Prelude.Text.Trim.{
  Visible, Visible-append, trim-Visible, trim_start-Visible, Visible-reverse, visible, trim_between,
}
use rep_cxl.Prelude.Text.Fields.{Lacks, split_once-field}
use rep_cxl.Prelude.Text.Names.{is_letter_or_digit, IsName, IsName-Visible, IsName-Lacks}
use rep_cxl.Prelude.Text.Search.{strip_prefix, behind_first, trim_end, without_last, words, utf8}
use rep_cxl.Prelude.Text.Words.{words-word}
use rep_cxl.Ycsb.{
  OpType, insert, read, update, YcsbOp, field_of, fields_within, parse_field_value, op_type_of,
  fields_for, op_of, unless_skipped, parse_operation, operations,
}

-- A line of the trace: an operation on a key of a table, and the field of an operation that writes.
pub data TraceLine : Type 0 where
  read_line : (table key : Text) → TraceLine
  insert_line update_line : (table key name value : Text) → TraceLine

abbrev pub WellFormed : TraceLine → Type 0
WellFormed (read_line table key) = IsName table × IsName key
WellFormed (insert_line table key name value) =
    IsName table × IsName key × IsName name × Visible value
WellFormed (update_line table key name value) =
    IsName table × IsName key × IsName name × Visible value

-- The field of a line, and the end of the line.
abbrev pub field_text : Text → Text → Text
field_text name value = name ++ b'=' ∷ (value ++ 32 ∷ b']' ∷ [])

abbrev pub with_words : Text → Text → Text → Text → Text
with_words op table key fields = op ++ 32 ∷ (table ++ 32 ∷ (key ++ 32 ∷ b'[' ∷ 32 ∷ fields))

unfoldable pub line_of : TraceLine → Text
line_of (read_line table key) = with_words (codes "READ") table key (codes "<all fields>]")
line_of (insert_line table key name value) =
    with_words (codes "INSERT") table key (field_text name value)
line_of (update_line table key name value) =
    with_words (codes "UPDATE") table key (field_text name value)

abbrev pub op_in : TraceLine → YcsbOp
op_in (read_line table key) = record { op_type = read; table = table; key = key; fields = [] }
op_in (insert_line table key name value) = record {
  op_type = insert;
  table = table;
  key = key;
  fields = (name, value) ∷ [];
}
op_in (update_line table key name value) = record {
  op_type = update;
  table = table;
  key = key;
  fields = (name, value) ∷ [];
}

-- What is looked for does not begin in a text without its first character.
behind_first-append :
    (w rest : Text)
    → Lacks b'[' w
    → behind_first (codes "[ ") (w ++ rest) ≡ behind_first (codes "[ ") rest
unfolding behind_first
behind_first-append [] rest h = refl
behind_first-append (c ∷ w) rest h = rw (strip_prefix, h.0, behind_first-append w rest h.1) refl

behind_first-with_words :
    (op table key fields : Text)
    → Lacks b'[' op
    → Lacks b'[' table
    → Lacks b'[' key
    → behind_first (codes "[ ") (with_words op table key fields) ≡ some fields
unfolding behind_first
behind_first-with_words op table key fields h k l =
    behind_first-append op _ h ∙ behind_first-append table _ k ∙ behind_first-append key _ l ∙ refl

without_last-append : (c : ℕ) (xs : Text) → without_last c (xs ++ c ∷ []) ≡ xs
unfolding without_last
without_last-append c xs =
    let same_char : (c == c) ≡ true = (==_iff c c).1 refl in
    rw (reverse-append xs (c ∷ []), same_char) (reverse-reverse xs)

trim_end-append : (xs : Text) → Visible xs → trim_end (xs ++ 32 ∷ []) ≡ xs
unfolding trim_end trim_start is_whitespace
trim_end-append xs h =
    rw (reverse-append xs (32 ∷ []), trim_start-Visible (reverse xs) (Visible-reverse xs h))
      (reverse-reverse xs)

utf8-Visible : (cs : Text) → Visible cs → utf8 cs ≡ cs
unfolding utf8
utf8-Visible [] h = refl
utf8-Visible (c ∷ cs) h = rw (lt→ltb c 128 (omega (arith, h.0)), utf8-Visible cs h.1) refl

fields_within-field_text :
    (name value : Text)
    → IsName name
    → Visible value
    → fields_within (some (field_text name value)) ≡ (name, value) ∷ []
unfolding fields_within field_of is_letter_or_digit
fields_within-field_text name value h k =
    let lacks = IsName-Lacks b'=' name refl h in
    let seen = Visible-append name (b'=' ∷ value) (IsName-Visible name h) (omega arith, k) in
    let parts : field_text name value ≡ ((name ++ b'=' ∷ value) ++ 32 ∷ []) ++ b']' ∷ [] =
      simp append_assoc in
    rw
      (
        parts,
        without_last-append b']' ((name ++ b'=' ∷ value) ++ 32 ∷ []),
        trim_end-append (name ++ b'=' ∷ value) seen,
        split_once-field b'=' name value lacks,
        trim-Visible name (IsName-Visible name h),
        utf8-Visible value k,
      )
      refl

words-with_words :
    (op table key fields : Text)
    → IsName op
    → IsName table
    → IsName key
    → words (with_words op table key fields) ≡ op ∷ table ∷ key ∷ words (b'[' ∷ 32 ∷ fields)
words-with_words op table key fields h k l =
    first op _ h ∙ ap (λ ws. op ∷ ws) (first table _ k) ∙ ap (λ ws. op ∷ table ∷ ws) (first key _ l)
  where
    first : (w rest : Text) → IsName w → words (w ++ 32 ∷ rest) ≡ w ∷ words rest
    first [] rest n = absurd n
    first (c ∷ w) rest n = words-word c w rest (IsName-Visible (c ∷ w) n)

module _ (t : OpType) (c : ℕ) (cs table key front : Text) (op : op_type_of (c ∷ cs) ≡ some t)
    (h : IsName (c ∷ cs)) (k : IsName table) (l : IsName key) where
  abbrev whole : Text
  whole = with_words (c ∷ cs) table key (front ++ b']' ∷ [])

  whole_trimmed : trim whole ≡ whole
  unfolding is_whitespace
  whole_trimmed =
      trim_between c b']' _ (with_words (c ∷ cs) table key front) (simp append_assoc)
        (visible c (IsName-Visible (c ∷ cs) h).0) refl

  whole_operation :
      parse_operation whole
      ≡ some (record { op_type = t; table = table; key = key; fields = fields_for t whole })
  unfolding parse_operation unless_skipped op_of is_letter_or_digit
  whole_operation =
      let no_comment = (IsName-Lacks b'#' (c ∷ cs) refl h).0 in
      let no_bracket = (IsName-Lacks b'[' (c ∷ cs) refl h).0 in
      rw
        (
          whole_trimmed,
          no_comment,
          no_bracket,
          words-with_words (c ∷ cs) table key (front ++ b']' ∷ []) h k l,
          op_of,
          op,
        )
        refl

fields_of_line :
    (op table key name value : Text)
    → IsName op
    → IsName table
    → IsName key
    → IsName name
    → Visible value
    → parse_field_value (with_words op table key (field_text name value)) ≡ (name, value) ∷ []
unfolding parse_field_value is_letter_or_digit
fields_of_line op table key name value h k l n v =
    let found =
      behind_first-with_words op table key (field_text name value) (IsName-Lacks b'[' op refl h)
        (IsName-Lacks b'[' table refl k) (IsName-Lacks b'[' key refl l) in
    rw found (fields_within-field_text name value n v)

written_operation :
    (t : OpType) (c : ℕ) (cs table key name value : Text)
    → op_type_of (c ∷ cs) ≡ some t
    → ((line : Text) → fields_for t line ≡ parse_field_value line)
    → IsName (c ∷ cs)
    → IsName table
    → IsName key
    → IsName name
    → Visible value
    → parse_operation (with_words (c ∷ cs) table key (field_text name value))
      ≡ some (record { op_type = t; table = table; key = key; fields = (name, value) ∷ [] })
written_operation t c cs table key name value op writes h k l n v =
    let front = name ++ b'=' ∷ (value ++ 32 ∷ []) in
    let parts : front ++ b']' ∷ [] ≡ field_text name value = simp append_assoc in
    let parsed = whole_operation t c cs table key front op h k l in
    let fields = fields_of_line (c ∷ cs) table key name value h k l n v in
    (rw parts at parsed)
    ∙ ap (λ fs. some (record { op_type = t; table = table; key = key; fields = fs }))
        (writes _ ∙ fields)

parse_operation-line_of :
    (l : TraceLine) → WellFormed l → parse_operation (line_of l) ≡ some (op_in l)
unfolding line_of op_type_of is_letter_or_digit fields_for
parse_operation-line_of (read_line table key) (k, l) =
    whole_operation read b'R' (codes "EAD") table key (codes "<all fields>") refl
      (refl, (refl, (refl, (refl, tt)))) k l
parse_operation-line_of (insert_line table key name value) (k, l, n, v) =
    written_operation insert b'I' (codes "NSERT") table key name value refl (λ line. refl)
      (refl, (refl, (refl, (refl, (refl, (refl, tt)))))) k l n v
parse_operation-line_of (update_line table key name value) (k, l, n, v) =
    written_operation update b'U' (codes "PDATE") table key name value refl (λ line. refl)
      (refl, (refl, (refl, (refl, (refl, (refl, tt)))))) k l n v

-- The lines of a trace of well-formed operations are read back: `operations` gives the operations of
-- the lines, in order, each with its table, its key and, if it writes, its field.
pub operations-line_of :
    (ls : List TraceLine) → All WellFormed ls → operations (map line_of ls) ≡ map op_in ls
unfolding operations
operations-line_of [] h = refl
operations-line_of (l ∷ ls) h = rw (parse_operation-line_of l h.0, operations-line_of ls h.1) refl
