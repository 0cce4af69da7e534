-- ===== src/Bench/Client.antt =====
-- The client threads of src/bin/rep_bench.rs and the collection of what they send. The random number
-- of the k-th object, what the channels answer and the times are parameters, and so is what
-- `attempts as f64 / total_elapsed_s` gives for a client.
pub mod Requests
use Prim.Native.Nat.{ℕ, zero, suc}
use rep_cxl.Prelude.{if◌then◌else◌, ltb, Bool, Option, none, some, List, [], ◌∷◌, ◌++◌, get_elem?}
use rep_cxl.Prelude.Run.{Run, ok, panic, assert, ◌>>=◌, ◌>>◌}
use rep_cxl.Request.{WriteRequest}
use rep_cxl.RepCxl.{RepCxlObject}
use rep_cxl.RepCxl.Handle
use rep_cxl.Bench.{expect}

-- What the k-th write of a client meets: whether the queue takes the request, the answer to it, the
-- sender of that answer, the time, and how long the write took.
pub record Answer : Type 0 where
  pub sent : Bool
  pub ack : Option Bool
  pub ack_tx : ℕ
  pub now : ℕ
  pub elapsed : ℕ

-- The random number stands below the number of objects, which panics on 0.
abbrev pub chosen : ℕ → ℕ → List RepCxlObject → Run RepCxlObject
chosen id num_of_objects objects = do assert (ltb 0 num_of_objects); expect (get_elem? objects id)

module _ {ℓ} {T : Type ℓ} where
  -- The attempts that are left, from the k-th on; an error of a write is only logged. The latencies,
  -- the trace counter and the queue.
  pub client :
      (ℕ → ℕ)
      → (ℕ → Answer)
      → ℕ
      → List RepCxlObject
      → T
      → ℕ
      → ℕ
      → ℕ
      → List (WriteRequest T)
      → Run (List ℕ × ℕ × List (WriteRequest T))
  unfolding Handle.write
  client pick answer num_of_objects objects obj_val k zero trace queue = ok ([], trace, queue)
  client pick answer num_of_objects objects obj_val k (suc left) trace queue = do
    obj ← chosen (pick k) num_of_objects objects
    let a = answer k
    let (res, trace1, queue1) = Handle.write a.sent a.ack a.ack_tx a.now trace obj obj_val queue
    (lats, trace2, queue2) ←
        client pick answer num_of_objects objects obj_val (suc k) left trace1 queue1
    ok (a.elapsed ∷ lats, trace2, queue2)

-- The loop takes one message of each channel until one of them is closed and empty.
pub collect {ℓ} : {Num : Type ℓ} → List (List ℕ) → List Num → List ℕ × List Num
collect [] tputs = ([], [])
collect (lvec ∷ lvecs) [] = ([], [])
collect (lvec ∷ lvecs) (t ∷ tputs) =
    let (lats_ns, total_tputs) = collect lvecs tputs in (lvec ++ lats_ns, t ∷ total_tputs)
