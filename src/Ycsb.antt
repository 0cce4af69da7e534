-- ===== src/Ycsb.antt =====
-- src/utils/ycsb.rs: the trace files of the YCSB benchmark. `F` is the type of `f64`, which `parse`
-- reads by `read_float`. The hash map of the properties is a list with the newest entry first.
pub mod Malformed
pub mod RoundTrip
pub mod Trace
pub mod Client
use Prim.Native.Nat.{ℕ, zero, suc, ◌+◌, ◌^◌}
use rep_cxl.Prelude.{
  leb, ◌==◌, if◌then◌else◌, Bool, true, false, ◌||◌, Option, none, some, List, [], ◌∷◌, length,
}
use rep_cxl.Prelude.Run.{Run, ok, assert, ◌>>=◌, ◌>>◌}
use rep_cxl.Prelude.Text.{Text, codes, trim, split_once, lines, parse, same}
use rep_cxl.Prelude.Text.Search.{
  behind_first, has, trim_end, without_last, trim_char, words, utf8, or_else,
}

pub data OpType : Type 0 where
  insert read update : OpType

abbrev pub Properties : Type 0
Properties = List (Text × Text)

pub record WorkloadProperties (F : Type 0) : Type 0 where
  pub record_count : ℕ
  pub operation_count : ℕ
  pub field_count : ℕ
  pub field_length : ℕ
  pub read_proportion : F
  pub update_proportion : F
  pub insert_proportion : F
  pub scan_proportion : F
  pub request_distribution : Text
  pub raw : Properties

pub record YcsbOp : Type 0 where
  pub op_type : OpType
  pub table : Text
  pub key : Text
  pub fields : List (Text × List ℕ)

pub record YcsbWorkload (F : Type 0) : Type 0 where
  pub properties : WorkloadProperties F
  pub load_ops : List YcsbOp
  pub run_ops : List YcsbOp

-- `contains("*****")`
abbrev pub is_delimiter : Text → Bool
unfolding has
is_delimiter line = has (codes "*****") line

-- `lines[n..]`
abbrev pub drop : ℕ → List Text → List Text
drop zero ls = ls
drop (suc n) [] = []
drop (suc n) (l ∷ ls) = drop n ls

-- The lines before the first delimiter: what a `while` of `parse_properties` passes.
unfoldable pub before_delimiter : List Text → List Text
unfolding has
before_delimiter [] = []
before_delimiter (l ∷ ls) =
    let more = before_delimiter ls in if is_delimiter l then [] else l ∷ more

abbrev pub property_of : Text × Option Text → Properties → Properties
unfolding trim trim_char
property_of (k, none) raw = raw
property_of (k, some v) raw = (trim_char b'"' (trim k), trim_char b'"' (trim v)) ∷ raw

unfoldable pub read_properties : List Text → Properties → Properties
unfolding property_of split_once trim
read_properties [] raw = raw
read_properties (l ∷ ls) raw = read_properties ls (property_of (split_once b'=' (trim l)) raw)

unfoldable pub get : Properties → Text → Option Text
unfolding same
get [] key = none
get ((k, v) ∷ raw) key = let older = get raw key in if same k key then some v else older

abbrev pub with_default {ℓ κ} : {A : Type ℓ} {B : Type κ} → B → (A → Option B) → Option A → B
with_default d f none = d
with_default d f (some a) = elim (f a) [ none ↦ d | some b ↦ b ]

module _ {F : Type 0} (zero_float : F) (read_float : Text → Option F) where
  abbrev pub get_f64 : Properties → Text → F
  unfolding get
  get_f64 raw key = with_default zero_float read_float (get raw key)

  abbrev pub get_usize : Properties → Text → ℕ
  unfolding get parse
  get_usize raw key = with_default 0 (parse (2 ^ 64)) (get raw key)

  abbrev pub properties_of : Properties → WorkloadProperties F
  unfolding get_f64 get_usize get
  properties_of raw = record {
    record_count = get_usize raw (codes "recordcount");
    operation_count = get_usize raw (codes "operationcount");
    field_count = get_usize raw (codes "fieldcount");
    field_length = get_usize raw (codes "fieldlength");
    read_proportion = get_f64 raw (codes "readproportion");
    update_proportion = get_f64 raw (codes "updateproportion");
    insert_proportion = get_f64 raw (codes "insertproportion");
    scan_proportion = get_f64 raw (codes "scanproportion");
    request_distribution = with_default [] some (get raw (codes "requestdistribution"));
    raw = raw;
  }

  -- The properties, and the number of the line behind their closing delimiter.
  unfoldable pub parse_properties : List Text → WorkloadProperties F × ℕ
  unfolding before_delimiter read_properties properties_of
  parse_properties ls =
      let opening = length (before_delimiter ls) + 1 in
      let block = before_delimiter (drop opening ls) in
      (properties_of (read_properties block []), opening + length block + 1)

abbrev pub field_of : Text × Option Text → List (Text × List ℕ)
unfolding trim utf8
field_of (name, none) = []
field_of (name, some value) = (trim name, utf8 value) ∷ []

abbrev pub fields_within : Option Text → List (Text × List ℕ)
unfolding without_last trim_end split_once field_of
fields_within none = []
fields_within (some inside) = field_of (split_once b'=' (trim_end (without_last b']' inside)))

unfoldable pub parse_field_value : Text → List (Text × List ℕ)
unfolding behind_first fields_within
parse_field_value line = fields_within (behind_first (codes "[ ") line)

abbrev pub op_type_of : Text → Option OpType
unfolding same
op_type_of word =
    if same word (codes "INSERT")
    then some insert
    else if same word (codes "READ")
    then some read
    else if same word (codes "UPDATE")
    then some update
    else none

abbrev pub fields_for : OpType → Text → List (Text × List ℕ)
unfolding parse_field_value
fields_for insert line = parse_field_value line
fields_for read line = []
fields_for update line = parse_field_value line

abbrev pub op_of : Text → List Text → Option YcsbOp
unfolding op_type_of fields_for
op_of line [] = none
op_of line (a ∷ []) = none
op_of line (a ∷ b ∷ []) = none
op_of line (word ∷ table ∷ key ∷ rest) = elim (op_type_of word) [
  | none ↦ none
  | some t ↦ some (record { op_type = t; table = table; key = key; fields = fields_for t line })
]

abbrev pub unless_skipped : Text → Option YcsbOp
unfolding op_of words
unless_skipped [] = none
unless_skipped (c ∷ cs) = if c == b'#' || c == b'[' then none else op_of (c ∷ cs) (words (c ∷ cs))

-- The body of the loop: a line that is skipped gives no operation.
unfoldable pub parse_operation : Text → Option YcsbOp
unfolding trim unless_skipped
parse_operation line = unless_skipped (trim line)

abbrev pub keep : Option YcsbOp → List YcsbOp → List YcsbOp
keep none ops = ops
keep (some op) ops = op ∷ ops

unfoldable pub operations : List Text → List YcsbOp
unfolding parse_operation
operations [] = []
operations (l ∷ ls) = keep (parse_operation l) (operations ls)

-- The slice `lines[start..]` panics behind the end of the lines.
unfoldable pub parse_operations : List Text → ℕ → Run (List YcsbOp)
unfolding operations
parse_operations ls start = assert (leb start (length ls)) >> ok (operations (drop start ls))

module _ {F : Type 0} (zero_float : F) (read_float : Text → Option F) where
  -- The content of the file is given; `read_to_string` panics if there is none.
  unfoldable pub parse_ycsb_trace : Text → Run (WorkloadProperties F × List YcsbOp)
  unfolding parse_properties parse_operations lines
  parse_ycsb_trace content =
      let ls = lines content in
      let (properties, start) = parse_properties zero_float read_float ls in
      do ops ← parse_operations ls start; ok (properties, ops)

  unfoldable pub load_ycsb_workload : Text → Text → Run (YcsbWorkload F)
  unfolding parse_ycsb_trace
  load_ycsb_workload load_content run_content = do
    (properties, load_ops) ← parse_ycsb_trace load_content
    (run_properties, run_ops) ← parse_ycsb_trace run_content
    ok (record { properties = properties; load_ops = load_ops; run_ops = run_ops })
