-- ===== src/Bench/Client/Requests.antt =====
-- What the clients of src/bin/rep_bench.rs put into the queue, and how many latencies are collected.
use mathlib.Core.List.{append_assoc, append-nil}
use Prim.Native.Nat.{ℕ, zero, suc, ◌+◌, ◌*◌, ◌<◌}
use rep_cxl.Prelude.{
  if◌then◌else◌, ltb, ◌≡◌, refl, sym, ap, ◌∙◌, true, false, Bool-cases, inl, inr, Option, none,
  some, List, [], ◌∷◌, ◌++◌, map, length, get_elem?, get_elem?_there, All, arith,
}
use rep_cxl.Prelude.Run.{ok}
use rep_cxl.ObjectIndex.{ObjectInfo}
use rep_cxl.Request.{WriteRequest, new_write_request}
use rep_cxl.RepCxl.{RepCxlObject}
use rep_cxl.RepCxl.Handle
use rep_cxl.RepCxl.Access.{write_ack}
use rep_cxl.Monster.{WriteResult}
use rep_cxl.Prelude.Words.{add64}
use rep_cxl.Bench.Client.{Answer, chosen, client, collect}

-- The objects that the attempts from the k-th on choose, less those that the queue does not take.
pub requested : (ℕ → ℕ) → (ℕ → Answer) → List RepCxlObject → ℕ → ℕ → List (Option ObjectInfo)
requested pick answer objects k zero = []
requested pick answer objects k (suc left) =
    let rest = requested pick answer objects (suc k) left in
    if (answer k).sent then info_of (get_elem? objects (pick k)) ∷ rest else rest
  where
    info_of : Option RepCxlObject → Option ObjectInfo
    info_of none = none
    info_of (some obj) = some obj.info

module _ {ℓ} {T : Type ℓ} (pick : ℕ → ℕ) (answer : ℕ → Answer) (objects : List RepCxlObject)
    (obj_val : T) (inside : (k : ℕ) → pick k < length objects) where
  -- What a client returns that has put `reqs` into the queue.
  pub record Ran (k left trace : ℕ) (queue : List (WriteRequest T)) : Type ℓ where
    pub lats : List ℕ
    pub trace' : ℕ
    pub reqs : List (WriteRequest T)
    pub runs :
        client pick answer (length objects) objects obj_val k left trace queue
        ≡ ok (lats, trace', queue ++ reqs)
    pub times : length lats ≡ left
    pub infos :
        map (λ (r : WriteRequest T). some r.obj_info) reqs ≡ requested pick answer objects k left
    pub values : All (λ (r : WriteRequest T). r.value ≡ obj_val) reqs

  here : (k : ℕ) → (obj : RepCxlObject) × (get_elem? objects (pick k) ≡ some obj)
  here k = get_elem?_there (pick k) objects (inside k)

  chosen_lem : (k : ℕ) → chosen (pick k) (length objects) objects ≡ ok (here k).0
  chosen_lem k =
      let below = inside k in
      let some_object : ltb 0 (length objects) ≡ true = ground (arith, below) in
      rw (some_object, (here k).1) refl

  one_more :
      (k left trace : ℕ) (queue : List (WriteRequest T)) {res : WriteResult} {trace1 trace2 : ℕ}
      {queue1 queue2 : List (WriteRequest T)} {lats : List ℕ}
      → let a = answer k in
        Handle.write a.sent a.ack a.ack_tx a.now trace (here k).0 obj_val queue
          ≡ (res, trace1, queue1)
        → client pick answer (length objects) objects obj_val (suc k) left trace1 queue1
          ≡ ok (lats, trace2, queue2)
        → client pick answer (length objects) objects obj_val k (suc left) trace queue
          ≡ ok ((answer k).elapsed ∷ lats, trace2, queue2)
  unfolding client
  one_more k left trace queue wrote rest = rw (chosen_lem k, wrote, rest) refl

  taken_request : (k trace : ℕ) → WriteRequest T
  taken_request k trace =
      (new_write_request (here k).0.info obj_val (answer k).ack_tx (answer k).now trace).0

  write-taken :
      (k trace : ℕ) (queue : List (WriteRequest T))
      → (answer k).sent ≡ true
      → let a = answer k in
        Handle.write a.sent a.ack a.ack_tx a.now trace (here k).0 obj_val queue
        ≡ (write_ack a.ack, add64 trace 1, queue ++ taken_request k trace ∷ [])
  unfolding Handle.write new_write_request taken_request
  write-taken k trace queue taken = rw taken refl

  write-refused :
      (k trace : ℕ) (queue : List (WriteRequest T))
      → (answer k).sent ≡ false
      → let a = answer k in
        Handle.write a.sent a.ack a.ack_tx a.now trace (here k).0 obj_val queue
        ≡ (WriteResult.send_failed, add64 trace 1, queue)
  unfolding Handle.write new_write_request
  write-refused k trace queue refused = rw refused refl

  requested-taken :
      (k left : ℕ)
      → (answer k).sent ≡ true
      → requested pick answer objects k (suc left)
        ≡ some (here k).0.info ∷ requested pick answer objects (suc k) left
  unfolding requested
  requested-taken k left taken = rw (taken, (here k).1) refl

  requested-refused :
      (k left : ℕ)
      → (answer k).sent ≡ false
      → requested pick answer objects k (suc left) ≡ requested pick answer objects (suc k) left
  unfolding requested
  requested-refused k left refused = rw refused refl

  -- If every random number is below the number of objects, a client returns, with one latency for
  -- each attempt; what it has put into the queue are, in order, requests for the objects that it
  -- chose, each with its value, less those that the queue did not take.
  pub client-Ran : (k left trace : ℕ) (queue : List (WriteRequest T)) → Ran k left trace queue
  unfolding client requested taken_request new_write_request
  client-Ran k zero trace queue = record {
    lats = [];
    trace' = trace;
    reqs = [];
    runs = ap (λ q. ok ([], trace, q)) (sym (append-nil queue));
    times = refl;
    infos = refl;
    values = tt;
  }
  client-Ran k (suc left) trace queue = elim (Bool-cases ((answer k).sent)) [
    | inl taken ↦
        let req = taken_request k trace in
        let rest = client-Ran (suc k) left (add64 trace 1) (queue ++ req ∷ []) in
        record {
          lats = (answer k).elapsed ∷ rest.lats;
          trace' = rest.trace';
          reqs = req ∷ rest.reqs;
          runs =
              one_more k left trace queue (write-taken k trace queue taken) rest.runs
              ∙ ap (λ q. ok ((answer k).elapsed ∷ rest.lats, rest.trace', q))
                  (append_assoc queue (req ∷ []) rest.reqs);
          times = ap suc rest.times;
          infos =
              ap (λ is. some (here k).0.info ∷ is) rest.infos ∙ sym (requested-taken k left taken);
          values = (refl, rest.values);
        }
    | inr refused ↦
        let rest = client-Ran (suc k) left (add64 trace 1) queue in
        record {
          lats = (answer k).elapsed ∷ rest.lats;
          trace' = rest.trace';
          reqs = rest.reqs;
          runs = one_more k left trace queue (write-refused k trace queue refused) rest.runs;
          times = ap suc rest.times;
          infos = rest.infos ∙ sym (requested-refused k left refused);
          values = rest.values;
        }
  ]

length_append : (xs ys : List ℕ) → length (xs ++ ys) ≡ length xs + length ys
length_append [] ys = omega arith
length_append (x ∷ xs) ys = let rest = length_append xs ys in omega arith

-- If each of the clients sent as many latencies as it made attempts, and a throughput: all latencies
-- and throughputs are collected.
pub length-collect {ℓ} :
    {Num : Type ℓ} (attempts : ℕ) (lvecs : List (List ℕ)) (tputs : List Num)
    → All (λ lats. length lats ≡ attempts) lvecs
    → length lvecs ≡ length tputs
    → (length (collect lvecs tputs).0 ≡ length lvecs * attempts) × ((collect lvecs tputs).1 ≡ tputs)
unfolding collect
length-collect attempts [] [] all same = (omega arith, refl)
length-collect attempts [] (t ∷ ts) all same = absurd (omega arith)
length-collect attempts (l ∷ ls) [] all same = absurd (omega arith)
length-collect attempts (l ∷ ls) (t ∷ ts) (first, all) same =
    let (long, every) = length-collect attempts ls ts all (omega arith) in
    let both = length_append l (collect ls ts).0 in
    (grind (arith, both, first, long), ap (λ xs. t ∷ xs) every)
