-- ===== src/BestEffort.antt =====
-- src/algorithms/best_effort.rs: replication without conflict checks.
pub mod Stale
use rep_cxl.Prelude.{ℕ, if◌then◌else◌, Bool, true, false, List, [], ◌∷◌, ◌++◌}
use rep_cxl.Prelude.Run.{Run, ok, panic, ◌>>=◌}
use rep_cxl.ObjectIndex.{ObjectInfo}
use rep_cxl.Request.{WriteRequest, ReadRequest, ReadReturn, to_tuple, read_safe, read_dirty}
use rep_cxl.Shmem.{ObjectMemoryEntry, MemoryNode}
use rep_cxl.Memio.{MemResult, done, memory_error, Snapshots, new_nowid, mem_writeall, mem_readends}
use rep_cxl.Monster.{WriteResult, write_result}
use rep_cxl.Monster.Read.{ReadResult, got, read_failed, Meets}
use rep_cxl.Monster.Threads.{
  Received, received, no_request, closed, send_closed, Replies, read_loop,
}

module _ {ℓ} {T : Type ℓ} where
  unfoldable pub async_best_effort_write :
      (ℕ → Bool) → ObjectInfo → T → List (MemoryNode T) → Run (WriteResult × List (MemoryNode T))
  unfolding mem_writeall new_nowid
  async_best_effort_write fails info value ns = do
    (r, ns') ← mem_writeall fails info.offset (new_nowid value) ns
    ok (write_result r, ns')

  -- `==` of the objects' type is the parameter `same`.
  abbrev pub by_value :
      (T → T → Bool) → MemResult (ObjectMemoryEntry T × ObjectMemoryEntry T) → ReadResult T
  by_value same (memory_error k) = read_failed k
  by_value same (done (first, last)) =
      got (if same last.value first.value then read_safe first.value else read_dirty first.value)

  unfoldable pub async_best_effort_read :
      (T → T → Bool) → (ℕ → Bool) → ObjectInfo → Snapshots T → Run (ReadResult T)
  unfolding mem_readends
  async_best_effort_read same fails info nodes = do
    r ← mem_readends fails info.offset nodes
    ok (by_value same r)

  abbrev pub after_async : WriteRequest T → WriteResult → List (ℕ × Bool) → List (ℕ × Bool)
  after_async req WriteResult.written acks = acks ++ (req.ack_tx, true) ∷ []
  after_async req r acks = acks

  -- The write thread: acknowledgements by the channel in order, and the nodes, when the turns are
  -- over or the loop has ended. A turn is the stop flag, what the queue gives, and the failures.
  unfoldable pub async_best_effort_write_thread :
      List (Bool × Received (WriteRequest T) × (ℕ → Bool))
      → List (ℕ × Bool)
      → List (MemoryNode T)
      → Run (List (ℕ × Bool) × List (MemoryNode T))
  unfolding async_best_effort_write
  async_best_effort_write_thread [] acks ns = ok (acks, ns)
  async_best_effort_write_thread ((true, recv, fails) ∷ turns) acks ns = ok (acks, ns)
  async_best_effort_write_thread ((false, received req, fails) ∷ turns) acks ns = do
    (r, ns') ← async_best_effort_write fails req.obj_info req.value ns
    async_best_effort_write_thread turns (after_async req r acks) ns'
  async_best_effort_write_thread ((false, no_request, fails) ∷ turns) acks ns =
      async_best_effort_write_thread turns acks ns
  async_best_effort_write_thread ((false, closed, fails) ∷ turns) acks ns = ok (acks, ns)
  async_best_effort_write_thread ((false, send_closed, fails) ∷ turns) acks ns = ok (acks, ns)

  unfoldable pub async_best_effort_read_thread :
      {F : Type 0}
      → (T → T → Bool)
      → (ℕ → Bool)
      → List (Bool × Received ReadRequest × Meets F T)
      → Run (Replies T)
  unfolding read_loop async_best_effort_read
  async_best_effort_read_thread same fails turns =
      read_loop (λ req x. async_best_effort_read same fails req.obj_info x.1) turns []

  -- The rounds of `sync_best_effort`. It leaves its loop at the first node that fails.
  unfoldable pub sync_best_effort :
      List (Bool × Received (WriteRequest T) × (ℕ → Bool))
      → List (ℕ × Bool)
      → List (MemoryNode T)
      → Run (List (ℕ × Bool) × List (MemoryNode T))
  unfolding mem_writeall new_nowid to_tuple
  sync_best_effort [] acks ns = ok (acks, ns)
  sync_best_effort ((true, recv, fails) ∷ turns) acks ns = ok (acks, ns)
  sync_best_effort ((false, received req, fails) ∷ turns) acks ns =
      let (info, value, ack_tx) = to_tuple req in
      do
        (r, ns') ← mem_writeall fails info.offset (new_nowid value) ns
        elim r [
          | done u ↦ sync_best_effort turns (acks ++ (ack_tx, true) ∷ []) ns'
          | memory_error k ↦ ok (acks, ns')
        ]
  sync_best_effort ((false, no_request, fails) ∷ turns) acks ns = sync_best_effort turns acks ns
  sync_best_effort ((false, closed, fails) ∷ turns) acks ns = ok (acks, ns)
  sync_best_effort ((false, send_closed, fails) ∷ turns) acks ns = ok (acks, ns)
