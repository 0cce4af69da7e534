-- ===== src/Ycsb/Client.antt =====
-- src/bin/ycsb_client.rs: a YCSB workload that is replayed on a RepCXL instance. The hash map from
-- keys to objects is a list with the newest entry first; the latencies are counted, not measured.
pub mod Loaded
pub mod Counted
use Prim.Native.Nat.{ℕ, zero, suc, min, ◌+◌, ◌%◌, ◌^◌}
use rep_cxl.Prelude.{
  if◌then◌else◌, Bool, true, false, Option, none, some, List, [], ◌∷◌, ◌++◌, length, replicate,
}
use rep_cxl.Prelude.Run.{Run, ok, panic, ◌>>=◌}
use rep_cxl.Prelude.Words.{add64}
use rep_cxl.Prelude.Text.{Text, same}
use rep_cxl.Request.{ReadReturn, read_safe, read_dirty}
use rep_cxl.Monster.{WriteResult}
use rep_cxl.RepCxl.{RepCxl, RepCxlObject, new_object_with_val, get_object}
use rep_cxl.Ycsb.{OpType, insert, read, update, YcsbOp}

-- `vec_to_array`: the first `n` bytes, filled up with zeros
unfoldable pub vec_to_array : ℕ → List ℕ → List ℕ
vec_to_array zero bytes = []
vec_to_array (suc n) [] = 0 ∷ vec_to_array n []
vec_to_array (suc n) (b ∷ bytes) = b ∷ vec_to_array n bytes

-- `&op.fields[0].1`
abbrev pub first_value : YcsbOp → Run (List ℕ)
first_value op = elim op.fields [ [] ↦ panic | f ∷ fs ↦ ok f.1 ]

abbrev pub Objects : Type 0
Objects = List (Text × RepCxlObject)

unfoldable pub object_of_key : Objects → Text → Option RepCxlObject
unfolding same
object_of_key [] key = none
object_of_key ((k, obj) ∷ index) key =
    let older = object_of_key index key in if same k key then some obj else older

module _ {F : Type 0} where
  -- The load phase of the coordinator, which creates an object for each operation.
  unfoldable pub coordinator_load :
      (ℕ → Bool)
      → ℕ
      → ℕ
      → List YcsbOp
      → Objects
      → RepCxl F (List ℕ)
      → Run (Objects × RepCxl F (List ℕ))
  unfolding new_object_with_val vec_to_array add64
  coordinator_load fails size oid [] index r = ok (index, r)
  coordinator_load fails size oid (op ∷ ops) index r = elim op.op_type [
    | insert ↦ (do
      value ← first_value op
      (made, r') ← new_object_with_val fails size oid (vec_to_array 64 value) r
      elim made [
        | none ↦ panic
        | some obj ↦ coordinator_load fails size (add64 oid 1) ops ((op.key, obj) ∷ index) r'
      ])
    | read ↦ panic
    | update ↦ panic
  ]

  -- The load phase of a replica. Its n-th call of `get_object` finds the instance as `seen n` is. If
  -- the object is not there, the replica waits, and then takes the next operation.
  unfoldable pub replica_load :
      (ℕ → RepCxl F (List ℕ)) → ℕ → ℕ → List YcsbOp → Objects → Run Objects
  unfolding get_object add64
  replica_load seen n oid [] index = ok index
  replica_load seen n oid (op ∷ ops) index = elim op.op_type [
    | insert ↦ (do
      found ← get_object oid (seen n)
      elim found [
        | none ↦ replica_load seen (suc n) oid ops index
        | some obj ↦ replica_load seen (suc n) (add64 oid 1) ops ((op.key, obj) ∷ index)
      ])
    | read ↦ panic
    | update ↦ panic
  ]

-- `+= 1` on a counter: an `i32`, kept as its 32 bits, which wraps in the release build. It is not
-- negative below 2^31.
unfoldable pub count_one : ℕ → ℕ
count_one n = (n + 1) % 2 ^ 32

-- The counters, which are `i32`, and the lengths of the two vectors of latencies.
pub record Metrics : Type 0 where
  pub read_errors : ℕ
  pub write_errors : ℕ
  pub dirty_reads : ℕ
  pub safe_reads : ℕ
  pub read_latencies : ℕ
  pub write_latencies : ℕ

abbrev pub no_metrics : Metrics
no_metrics = record {
  read_errors = 0;
  write_errors = 0;
  dirty_reads = 0;
  safe_reads = 0;
  read_latencies = 0;
  write_latencies = 0;
}

-- The first operations again behind the others: `extend_from_within(0..warmup_len)`.
abbrev pub take {ℓ} : {A : Type ℓ} → ℕ → List A → List A
take zero xs = []
take (suc n) [] = []
take (suc n) (x ∷ xs) = x ∷ take n xs

unfoldable pub with_warmup : List YcsbOp → List YcsbOp
with_warmup ops = ops ++ take (min (length ops) 10000) ops

-- The result of `read_object`: a read's value, or `none` for an error, which is only logged.
unfoldable pub count_read : Option (ReadReturn (List ℕ)) → Metrics → Metrics
unfolding count_one
count_read (some (read_dirty v)) m = record m {
  dirty_reads = count_one m.dirty_reads;
  read_latencies = suc m.read_latencies;
}
count_read (some (read_safe v)) m = record m {
  safe_reads = count_one m.safe_reads;
  read_latencies = suc m.read_latencies;
}
count_read none m = record m { read_errors = count_one m.read_errors }

unfoldable pub count_write : WriteResult → Metrics → Metrics
unfolding count_one
count_write WriteResult.written m = record m { write_latencies = suc m.write_latencies }
count_write e m = record m { write_errors = count_one m.write_errors }

-- `expect` and `panic!` on a key that has no object.
abbrev pub known : Option RepCxlObject → Run RepCxlObject
known none = panic
known (some obj) = ok obj

-- The run phase. The calls of the n-th operation are `read_object n` and `write_object n`: those of
-- the instance at that time.
module _ (read_object : ℕ → RepCxlObject → Run (Option (ReadReturn (List ℕ))))
    (write_object : ℕ → RepCxlObject → List ℕ → Run WriteResult) where
  unfoldable pub run_op : Objects → ℕ → YcsbOp → Metrics → Run Metrics
  unfolding object_of_key vec_to_array count_read count_write
  run_op index n op m = elim op.op_type [
    | read ↦ (do
      obj ← known (object_of_key index op.key)
      r ← read_object n obj
      ok (count_read r m))
    | update ↦ (do
      value ← first_value op
      obj ← known (object_of_key index op.key)
      r ← write_object n obj (vec_to_array 64 value)
      ok (count_write r m))
    | insert ↦ panic
  ]

  unfoldable pub run_ops : Objects → ℕ → List YcsbOp → Metrics → Run Metrics
  unfolding run_op
  run_ops index n [] m = ok m
  run_ops index n (op ∷ ops) m = do m' ← run_op index n op m; run_ops index (suc n) ops m'

  unfoldable pub run_phase : Objects → List YcsbOp → Run Metrics
  unfolding run_ops with_warmup
  run_phase index ops = run_ops index 0 (with_warmup ops) no_metrics
