-- ===== src/RepCxl/Access.antt =====
-- Reads, writes and the threads of `RepCXL` of src/lib.rs. What the channels answer is a parameter.
use rep_cxl.Prelude.{
  ℕ, suc, zero, if◌then◌else◌, Bool, true, false, Option, none, some, List, [], ◌∷◌, ◌++◌,
}
use rep_cxl.Prelude.Run.{Run, ok, panic, ◌>>=◌}
use rep_cxl.Request.{ReadReturn, read_dirty, new_write_request}
use rep_cxl.Monster.{Tick, WriteResult}
use rep_cxl.Monster.Read.{ReadResult, got, read_ack_lost, Meets}
use rep_cxl.Algorithms
use rep_cxl.Algorithms.{AlgorithmCallContext}
use rep_cxl.RepCxl.{RepCxl, RepCxlObject}

-- What `ack_rx.recv()` gives: an acknowledgement, or an error.
abbrev pub write_ack : Option Bool → WriteResult
write_ack (some true) = WriteResult.written
write_ack (some false) = WriteResult.failed_write
write_ack none = WriteResult.ack_lost

-- What one read of `read_object` meets: the channels for a pipelined read, the wait and the nodes for
-- a direct one.
pub record ReadCall {ℓ} (F : Type 0) (T : Type ℓ) : Type ℓ where
  pub sent : Bool
  pub ack : Option (ReadReturn T)
  pub ack_tx : ℕ
  pub meets : Meets F T

module _ {ℓ} {T : Type ℓ} where
  abbrev pub read_ack : Option (ReadReturn T) → ReadResult T
  read_ack none = read_ack_lost
  read_ack (some value) = got value

  -- The loop of `read_object`: up to `retries` further reads, for as long as the last was dirty. The
  -- n-th read of all is `read_once n`, which takes the state and leaves a new one.
  unfoldable pub retry_dirty :
      {S : Type ℓ}
      → (ℕ → S → Run (ReadResult T × S))
      → ℕ
      → ℕ
      → ReadResult T × S
      → Run (ReadResult T × S)
  retry_dirty read_once n zero (res, s) = ok (res, s)
  retry_dirty read_once n (suc retries) (got (read_dirty value), s) = do
    next ← read_once n s
    retry_dirty read_once (suc n) retries next
  retry_dirty read_once n (suc retries) (res, s) = ok (res, s)

module _ {ℓ} {F : Type 0} {T : Type ℓ} where
  -- `sent` says whether the queue took the request, `ack_tx` is its channel, `now` the time and
  -- `trace` the trace counter, which is returned after it was increased.
  unfoldable pub write_threaded :
      Bool → Option Bool → ℕ → ℕ → ℕ → RepCxlObject → T → RepCxl F T → WriteResult × ℕ × RepCxl F T
  unfolding new_write_request
  write_threaded sent ack ack_tx now trace obj value r =
      let (req, trace') = new_write_request obj.info value ack_tx now trace in
      if sent
      then (write_ack ack, trace', record r { wreq_queue = r.wreq_queue ++ req ∷ [] })
      else (WriteResult.send_failed, trace', r)

  -- A request that the queue does not take panics.
  unfoldable pub read_threaded :
      Bool → Option (ReadReturn T) → ℕ → RepCxlObject → RepCxl F T → Run (ReadResult T × RepCxl F T)
  read_threaded sent ack ack_tx obj r =
      if sent
      then ok (
        read_ack ack,
        record r {
          rreq_queue = r.rreq_queue ++ (record { obj_info = obj.info; ack_tx = ack_tx }) ∷ [];
        },
      )
      else panic

  abbrev pub after_written : RepCxl F T → Algorithms.Written F T → Option WriteResult × RepCxl F T
  after_written r (res, ctx, ns) =
      (res, record r { algorithm_ctx = ctx; view = record r.view { memory_nodes = ns } })

  abbrev pub threaded_answer : WriteResult × ℕ × RepCxl F T → Option WriteResult × RepCxl F T
  threaded_answer (res, trace, r) = (some res, r)

  -- What a call of `write_object` meets: the channels and the counter for a pipelined write, the
  -- failures and the rounds for a direct one.
  unfoldable pub write_object :
      (Bool × Option Bool × ℕ × ℕ × ℕ)
      → (ℕ → Bool) × List Tick
      → RepCxlObject
      → T
      → RepCxl F T
      → Run (Option WriteResult × RepCxl F T)
  unfolding write_threaded Algorithms.write
  write_object (sent, ack, ack_tx, now, trace) (fails, ticks) obj value r =
      if r.config.pipeline
      then ok (threaded_answer (write_threaded sent ack ack_tx now trace obj value r))
      else (do
        w ←
            Algorithms.write r.algorithm_ctx r.view.self_id fails ticks obj.info value
              r.view.memory_nodes
        ok (after_written r w))

  -- The closure of `read_object`.
  unfoldable pub read_once :
      (T → T → Bool)
      → (ℕ → Bool)
      → RepCxlObject
      → ReadCall F T
      → RepCxl F T
      → Run (ReadResult T × RepCxl F T)
  unfolding read_threaded Algorithms.read
  read_once same fails obj c r =
      if r.config.pipeline
      then read_threaded c.sent c.ack c.ack_tx obj r
      else (do res ← Algorithms.read same r.algorithm_ctx fails obj.info c.meets; ok (res, r))

  unfoldable pub read_object :
      (T → T → Bool)
      → (ℕ → Bool)
      → (ℕ → ReadCall F T)
      → RepCxlObject
      → RepCxl F T
      → Run (ReadResult T × RepCxl F T)
  unfolding retry_dirty read_once
  read_object same fails calls obj r = do
    first ← read_once same fails obj (calls 0) r
    retry_dirty (λ n. read_once same fails obj (calls n)) 1 r.config.read_retries first

  -- A pipelined instance hands its receivers to the threads; a second start panics.
  unfoldable pub start : RepCxl F T → Run (RepCxl F T)
  start r =
      if r.config.pipeline
      then (if r.wreq_queue_rx
          then (if r.rreq_queue_rx
              then ok (record r { wreq_queue_rx = false; rreq_queue_rx = false })
              else panic)
          else panic)
      else ok r

  unfoldable pub stop : RepCxl F T → RepCxl F T
  stop r = if r.config.pipeline then record r { stop_flag = true } else r
