-- ===== src/RepCxl/Handle.antt =====
-- `RepCXLObject` of src/lib.rs: reads and writes by the handle of an object, which has its own
-- senders of the two queues. What the channels answer is a parameter, as in RepCxl/Access.
use Prim.Native.Nat.{ℕ}
use rep_cxl.Prelude.{if◌then◌else◌, ◌≡◌, refl, Bool, true, false, Option, some, List, [], ◌∷◌, ◌++◌}
use rep_cxl.Prelude.Run.{Run, ok, panic}
use rep_cxl.Request.{ReadReturn, ReadRequest, WriteRequest, new_write_request}
use rep_cxl.Monster.{Tick, WriteResult}
use rep_cxl.Monster.Read.{ReadResult}
use rep_cxl.RepCxl.{RepCxl, RepCxlObject}
use rep_cxl.RepCxl.Access.{write_ack, read_ack, write_threaded, write_object}

module _ {ℓ} {T : Type ℓ} where
  -- The answer, the trace counter and the queue after the call.
  unfoldable pub write :
      Bool
      → Option Bool
      → ℕ
      → ℕ
      → ℕ
      → RepCxlObject
      → T
      → List (WriteRequest T)
      → WriteResult × ℕ × List (WriteRequest T)
  unfolding new_write_request
  write sent ack ack_tx now trace obj value queue =
      let (req, trace') = new_write_request obj.info value ack_tx now trace in
      if sent
      then (write_ack ack, trace', queue ++ req ∷ [])
      else (WriteResult.send_failed, trace', queue)

  -- A request that the queue does not take panics.
  pub read :
      Bool
      → Option (ReadReturn T)
      → ℕ
      → RepCxlObject
      → List ReadRequest
      → Run (ReadResult T × List ReadRequest)
  read sent ack ack_tx obj queue =
      if sent
      then ok (read_ack ack, queue ++ (record { obj_info = obj.info; ack_tx = ack_tx }) ∷ [])
      else panic

module _ {ℓ} {F : Type 0} {T : Type ℓ} where
  -- With a pipeline, `write_object` of the instance is the `write` of the object on its queue.
  write_object-write :
      (sent : Bool) (ack : Option Bool) (ack_tx now trace : ℕ) (fails : ℕ → Bool)
      (ticks : List Tick) (obj : RepCxlObject) (value : T) (r : RepCxl F T)
      → r.config.pipeline ≡ true
      → let (res, trace', queue) = write sent ack ack_tx now trace obj value r.wreq_queue in
        write_object (sent, ack, ack_tx, now, trace) (fails, ticks) obj value r
        ≡ ok (some res, record r { wreq_queue = queue })
  unfolding write_object write write_threaded
  write_object-write true ack ack_tx now trace fails ticks obj value r pipeline = rw pipeline refl
  write_object-write false ack ack_tx now trace fails ticks obj value r pipeline = rw pipeline refl
