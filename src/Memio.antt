-- ===== src/Memio.antt =====
-- src/safe_memio.rs: reads and writes of an object on all memory nodes. An access of a node fails if
-- the simulated failure strikes, `FAILURE_PROBABILITY > 0.0` and a random number below it: that is
-- the parameter `fails`, by node number. (The constant is 0.0 in the sources, which is `λ _. false`.)
-- A store and a load are atomic and seen by every process; which lines the flushes reach is Memio/Flush.
pub mod Replicas
pub mod Written
pub mod Flush
pub mod Readone
pub mod Updated
use rep_cxl.Prelude.{
  ℕ, suc, ◌+◌, ltb, if◌then◌else◌, Bool, true, false, Option, none, some, List, [], ◌∷◌, get_elem?,
}
use rep_cxl.Prelude.Run.{Run, ok, panic, assert, ◌>>=◌, ◌>>◌}
use rep_cxl.Request.{Wid}
use rep_cxl.Shmem.{ObjectMemoryEntry, MemoryNode, store}

-- `Result<A, MemoryError>`, the error with the number of the node
pub data MemResult {ℓ} (A : Type ℓ) : Type ℓ where
  done : A → MemResult A
  memory_error : ℕ → MemResult A

-- The nodes when a read of the first and the last begins, and when it comes to the last; processes
-- that write in between make the difference.
abbrev pub Snapshots {ℓ} : Type ℓ → Type ℓ
Snapshots T = List (MemoryNode T) × List (MemoryNode T)

module _ {ℓ} {T : Type ℓ} where
  -- No one writes in between.
  abbrev pub at_rest : List (MemoryNode T) → Snapshots T
  at_rest ns = (ns, ns)

  unfoldable pub new_nowid : T → ObjectMemoryEntry T
  new_nowid value = record { wid = record { round_num = 0; process_id = 0 }; value = value }

  unfoldable pub safe_write :
      Bool → ℕ → ObjectMemoryEntry T → MemoryNode T → MemResult (MemoryNode T)
  unfolding store
  safe_write fault offset ome n = if fault then memory_error n.id else done (store offset ome n)

  unfoldable pub safe_read : Bool → ℕ → MemoryNode T → MemResult (ObjectMemoryEntry T)
  safe_read fault offset n = if fault then memory_error n.id else done (n.objects offset)

  abbrev pub after_write :
      MemResult (MemoryNode T)
      → MemoryNode T
      → List (MemoryNode T)
      → Run (MemResult (Unit {0}) × List (MemoryNode T))
      → Run (MemResult (Unit {0}) × List (MemoryNode T))
  after_write (memory_error k) n ns rest = ok (memory_error k, n ∷ ns)
  after_write (done n') n ns rest = do (r, ns') ← rest; ok (r, n' ∷ ns')

  abbrev pub after_read :
      MemResult (ObjectMemoryEntry T)
      → Run (MemResult (List (ObjectMemoryEntry T)))
      → Run (MemResult (List (ObjectMemoryEntry T)))
  after_read (memory_error k) rest = ok (memory_error k)
  after_read (done e) rest = do
    r ← rest
    ok (elim r [ memory_error k ↦ memory_error k | done es ↦ done (e ∷ es) ])

  -- `&mem_nodes[mem_nodes.len() - 1]`
  abbrev pub last_node : MemoryNode T → List (MemoryNode T) → MemoryNode T
  last_node n [] = n
  last_node n (m ∷ ms) = last_node m ms

  abbrev pub two_entries :
      MemResult (ObjectMemoryEntry T)
      → MemResult (ObjectMemoryEntry T)
      → MemResult (ObjectMemoryEntry T × ObjectMemoryEntry T)
  two_entries (memory_error k) last = memory_error k
  two_entries (done e) (memory_error k) = memory_error k
  two_entries (done e) (done f) = done (e, f)

  module _ (fails : ℕ → Bool) where
    -- The nodes are written in order, up to the first that fails.
    unfoldable pub mem_writeall :
        ℕ
        → ObjectMemoryEntry T
        → List (MemoryNode T)
        → Run (MemResult (Unit {0}) × List (MemoryNode T))
    unfolding safe_write
    mem_writeall offset ome [] = ok (done tt, [])
    mem_writeall offset ome (n ∷ ns) =
        let rest = mem_writeall offset ome ns in
        do assert (ltb offset n.size); after_write (safe_write (fails n.id) offset ome n) n ns rest

    unfoldable pub mem_readall :
        ℕ → List (MemoryNode T) → Run (MemResult (List (ObjectMemoryEntry T)))
    unfolding safe_read
    mem_readall offset [] = ok (done [])
    mem_readall offset (n ∷ ns) =
        let rest = mem_readall offset ns in
        do assert (ltb offset n.size); after_read (safe_read (fails n.id) offset n) rest

    -- `_mem_readone`: the entry of one node, which a random number chooses; with no node the `unwrap`
    -- panics.
    pub mem_readone : ℕ → ℕ → List (MemoryNode T) → Run (MemResult (ObjectMemoryEntry T))
    unfolding safe_read
    mem_readone pick offset ns = elim (get_elem? ns pick) [
      | none ↦ panic
      | some n ↦ (do assert (ltb offset n.size); ok (safe_read (fails n.id) offset n))
    ]

    -- The entries of the first and the last node, each as it is when it is read; with no node the
    -- index panics.
    unfoldable pub mem_readends :
        ℕ → Snapshots T → Run (MemResult (ObjectMemoryEntry T × ObjectMemoryEntry T))
    unfolding safe_read
    mem_readends offset ([], later) = panic
    mem_readends offset (n ∷ ns, later) =
        let last = last_node n ns in
        let last_later = last_node last later in
        do
          assert (ltb offset n.size)
          assert (ltb offset last.size)
          ok (
              two_entries (safe_read (fails n.id) offset n)
                (safe_read (fails last_later.id) offset last_later))
