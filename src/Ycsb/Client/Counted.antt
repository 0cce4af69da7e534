-- ===== src/Ycsb/Client/Counted.antt =====
-- The counters of the run phase of src/bin/ycsb_client.rs.
use Prim.Native.Nat.{ℕ, suc, ◌+◌, ◌^◌, ◌<◌}
use rep_cxl.Prelude.{
  ◌≡◌, refl, Bool, true, false, if◌then◌else◌, Option, none, some, List, [], ◌∷◌, length, arith,
}
use mathlib.Core.Path.{subst}
use rep_cxl.Prelude.Run.{Run, ok, >>=-eq-ok}
use rep_cxl.Request.{ReadReturn, read_safe, read_dirty}
use rep_cxl.Monster.{WriteResult}
use rep_cxl.RepCxl.{RepCxlObject}
use rep_cxl.Ycsb.{OpType, insert, read, update, YcsbOp}
use rep_cxl.Ycsb.Client.{
  Objects, Metrics, no_metrics, count_one, with_warmup, count_read, count_write, run_op, run_ops,
  run_phase, vec_to_array, first_value, known, object_of_key,
}

-- What an operation of the run phase was answered.
pub data Answer : Type 0 where
  read_answer : Option (ReadReturn (List ℕ)) → Answer
  write_answer : WriteResult → Answer

abbrev pub is_safe : Answer → Bool
is_safe (read_answer (some (read_safe v))) = true
is_safe a = false

abbrev pub is_dirty : Answer → Bool
is_dirty (read_answer (some (read_dirty v))) = true
is_dirty a = false

abbrev pub is_read_error : Answer → Bool
is_read_error (read_answer none) = true
is_read_error a = false

abbrev pub is_read_value : Answer → Bool
is_read_value (read_answer (some v)) = true
is_read_value a = false

abbrev pub is_written : Answer → Bool
is_written (write_answer WriteResult.written) = true
is_written a = false

abbrev pub is_write_error : Answer → Bool
is_write_error (write_answer WriteResult.written) = false
is_write_error (write_answer e) = true
is_write_error a = false

abbrev pub how_many : (Answer → Bool) → List Answer → ℕ
how_many test [] = 0
how_many test (a ∷ answers) = (if test a then 1 else 0) + how_many test answers

-- The counters have grown from `m` to `m'` by the answers of their kinds.
pub record Counts (m m' : Metrics) (answers : List Answer) : Type 0 where
  pub all_safe : m'.safe_reads ≡ m.safe_reads + how_many is_safe answers
  pub all_dirty : m'.dirty_reads ≡ m.dirty_reads + how_many is_dirty answers
  pub all_read_errors : m'.read_errors ≡ m.read_errors + how_many is_read_error answers
  pub all_timed_reads : m'.read_latencies ≡ m.read_latencies + how_many is_read_value answers
  pub all_timed_writes : m'.write_latencies ≡ m.write_latencies + how_many is_written answers
  pub all_write_errors : m'.write_errors ≡ m.write_errors + how_many is_write_error answers

-- Each counter leaves room for `n` more.
pub record Room (n : ℕ) (m : Metrics) : Type 0 where
  pub safe_room : m.safe_reads + n < 2 ^ 31
  pub dirty_room : m.dirty_reads + n < 2 ^ 31
  pub read_error_room : m.read_errors + n < 2 ^ 31
  pub write_error_room : m.write_errors + n < 2 ^ 31

abbrev pub count_answer : Answer → Metrics → Metrics
count_answer (read_answer r) m = count_read r m
count_answer (write_answer r) m = count_write r m

count_answer-Counts :
    (a : Answer) (n : ℕ) (m : Metrics)
    → Room (suc n) m
    → Counts m (count_answer a m) (a ∷ []) × Room n (count_answer a m)
unfolding count_read count_write count_one
count_answer-Counts (read_answer (some (read_safe v))) n m room = omega (arith, room)
count_answer-Counts (read_answer (some (read_dirty v))) n m room = omega (arith, room)
count_answer-Counts (read_answer none) n m room = omega (arith, room)
count_answer-Counts (write_answer WriteResult.written) n m room = omega (arith, room)
count_answer-Counts (write_answer (WriteResult.replication_failed k)) n m room = omega (arith, room)
count_answer-Counts (write_answer (WriteResult.post_conflict_failed k)) n m room =
    omega (arith, room)
count_answer-Counts (write_answer WriteResult.not_supported) n m room = omega (arith, room)
count_answer-Counts (write_answer WriteResult.send_failed) n m room = omega (arith, room)
count_answer-Counts (write_answer WriteResult.failed_write) n m room = omega (arith, room)
count_answer-Counts (write_answer WriteResult.ack_lost) n m room = omega (arith, room)

Counts-trans :
    (m x m' : Metrics) (a : Answer) (answers : List Answer)
    → Counts m x (a ∷ [])
    → Counts x m' answers
    → Counts m m' (a ∷ answers)
Counts-trans m x m' a answers h k = omega (arith, h, k)

module _ (read_object : ℕ → RepCxlObject → Run (Option (ReadReturn (List ℕ))))
    (write_object : ℕ → RepCxlObject → List ℕ → Run WriteResult) (index : Objects) where
  -- The `n`-th operation `op` calls the instance with the object of its key, a write with the value
  -- of its first field as 64 bytes, and is answered `a`.
  pub data Answered (n : ℕ) (op : YcsbOp) : Answer → Type 0 where
    read_answered :
        {obj : RepCxlObject} {r : Option (ReadReturn (List ℕ))}
        → op.op_type ≡ read
        → object_of_key index op.key ≡ some obj
        → read_object n obj ≡ ok r
        → Answered n op (read_answer r)
    write_answered :
        {obj : RepCxlObject} {value : List ℕ} {r : WriteResult}
        → op.op_type ≡ update
        → first_value op ≡ ok value
        → object_of_key index op.key ≡ some obj
        → write_object n obj (vec_to_array 64 value) ≡ ok r
        → Answered n op (write_answer r)

  -- The operations from the `n`-th on are answered so, in order.
  pub data AllAnswered : ℕ → List YcsbOp → List Answer → Type 0 where
    no_ops : {n : ℕ} → AllAnswered n [] []
    an_op :
        {n : ℕ} {op : YcsbOp} {ops : List YcsbOp} {a : Answer} {answers : List Answer}
        → Answered n op a
        → AllAnswered (suc n) ops answers
        → AllAnswered n (op ∷ ops) (a ∷ answers)

  known_lem : (o : Option RepCxlObject) {obj : RepCxlObject} → known o ≡ ok obj → o ≡ some obj
  known_lem none h = absurd (cc)
  known_lem (some x) h = let same : ◌≡◌ {A = Run RepCxlObject} (ok x) (ok _) = h in cc

  run_op_lem :
      (t : OpType) (n : ℕ) (op : YcsbOp) (m m' : Metrics)
      → op.op_type ≡ t
      → run_op read_object write_object index n op m ≡ ok m'
      → (a : Answer) × Answered n op a × (count_answer a m ≡ m')
  unfolding run_op
  run_op_lem insert n op m m' kind h = absurd (let stopped = rw kind at h in cc)
  run_op_lem read n op m m' kind h =
      let (obj, found, h1) = >>=-eq-ok (known (object_of_key index op.key)) _ (rw kind at h) in
      let (r, answered, h2) = >>=-eq-ok (read_object n obj) _ h1 in
      (read_answer r, read_answered kind (known_lem _ found) answered, let e = h2 in cc)
  run_op_lem update n op m m' kind h =
      let (value, first, h1) = >>=-eq-ok (first_value op) _ (rw kind at h) in
      let (obj, found, h2) = >>=-eq-ok (known (object_of_key index op.key)) _ h1 in
      let (r, answered, h3) = >>=-eq-ok (write_object n obj (vec_to_array 64 value)) _ h2 in
      (write_answer r, write_answered kind first (known_lem _ found) answered, let e = h3 in cc)

  run_ops-Counts :
      (n : ℕ) (ops : List YcsbOp) (m : Metrics) {m' : Metrics}
      → Room (length ops) m
      → run_ops read_object write_object index n ops m ≡ ok m'
      → (answers : List Answer) × AllAnswered n ops answers × Counts m m' answers
  unfolding run_ops
  run_ops-Counts n [] m {m'} room h =
      let same : m ≡ m' = cc in ([], no_ops, subst (λ y. Counts m y []) same (omega arith))
  run_ops-Counts n (op ∷ ops) m {m'} room h =
      let (x, first, rest) = >>=-eq-ok (run_op read_object write_object index n op m) _ h in
      let (a, answered, counted) = run_op_lem op.op_type n op m x refl first in
      let (grown, left) = count_answer-Counts a (length ops) m room in
      let (answers, others, more) =
        run_ops-Counts (suc n) ops x (subst (Room (length ops)) counted left) rest in
      (
        a ∷ answers,
        an_op answered others,
        Counts-trans m x m' a answers (subst (λ y. Counts m y (a ∷ [])) counted grown) more,
      )

  -- When the run phase ends without a panic, and the workload with its first min(length, 10000)
  -- operations again behind it has fewer than 2^31 operations, then each of these operations, in
  -- order, called the instance with the object of its key, an update with the 64 bytes of its first
  -- value, and was answered; and the counters are the numbers of safe reads, dirty reads, failed
  -- reads and failed writes among the answers, and the latencies as many as the reads that returned
  -- a value and the writes that succeeded.
  pub run_phase-Counts :
      (ops : List YcsbOp) {m : Metrics}
      → length (with_warmup ops) < 2 ^ 31
      → run_phase read_object write_object index ops ≡ ok m
      → (answers : List Answer) × AllAnswered 0 (with_warmup ops) answers
        × Counts no_metrics m answers
  unfolding run_phase
  run_phase-Counts ops {m} few h =
      run_ops-Counts 0 (with_warmup ops) no_metrics (omega (arith, few)) h
