-- ===== src/BestEffort/Stale.antt =====
-- What `async_best_effort_read` shows of a write in progress.
use rep_cxl.Prelude.{
  ℕ, ◌≤◌, ◌<◌, ◌==◌, if◌then◌else◌, ◌≡◌, refl, inl, inr, Bool, Bool-cases, List, length, All,
}
use rep_cxl.Prelude.Run.{ok}
use rep_cxl.ObjectIndex.{ObjectInfo}
use rep_cxl.Request.{ReadReturn, read_safe, read_dirty}
use rep_cxl.Shmem.{ObjectMemoryEntry, MemoryNode}
use rep_cxl.Memio.Replicas.{Ready, AllHold, store_first, mem_readends-store_first}
use rep_cxl.Monster.Read.{got}
use rep_cxl.BestEffort.{async_best_effort_read}

module _ {ℓ} {T : Type ℓ} where
  -- The answer of a write of `new` over `old` that had reached `k` of `n` nodes when the first was
  -- read, and `later` when the last was.
  unfoldable pub async_answer : (T → T → Bool) → T → T → ℕ → ℕ → ℕ → ReadReturn T
  async_answer same new old k later n =
      let first = if k == 0 then old else new in
      let last = if later == n then new else old in
      if same last first then read_safe first else read_dirty first

  -- While a write of `new` over `old` has reached the first `k` of the nodes when the first is read,
  -- and the first `later` when the last is read, where no node fails and all accept the offset:
  -- `async_best_effort_read` answers the value of the first node, the new one unless `k` is 0, and it
  -- is safe exactly if the last node, new only if `later` is all nodes, has an equal value.
  pub async_best_effort_read-store_first :
      (same : T → T → Bool) (fails : ℕ → Bool) (info : ObjectInfo) (new old : ObjectMemoryEntry T)
      (k later : ℕ) (ns : List (MemoryNode T))
      → 0 < length ns
      → later ≤ length ns
      → All (Ready fails info.offset) ns
      → AllHold fails info.offset old ns
      → async_best_effort_read same fails info
          (store_first fails info.offset new k ns, store_first fails info.offset new later ns)
        ≡ ok (got (async_answer same new.value old.value k later (length ns)))
  unfolding async_best_effort_read async_answer
  async_best_effort_read-store_first same fails info new old k later ns some_node le ready held =
      let ends =
        mem_readends-store_first fails info.offset new old k later ns some_node le ready held in
      elim (Bool-cases (k == 0)) [
        | inl zero_first ↦ elim (Bool-cases (later == length ns)) [
          | inl whole ↦ rw (ends, zero_first, whole) refl
          | inr partial ↦ rw (ends, zero_first, partial) refl
        ]
        | inr some_done ↦ elim (Bool-cases (later == length ns)) [
          | inl whole ↦ rw (ends, some_done, whole) refl
          | inr partial ↦ rw (ends, some_done, partial) refl
        ]
      ]
