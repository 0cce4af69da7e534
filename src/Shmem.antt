-- ===== src/Shmem.antt =====
-- src/shmem.rs and src/shmem/starting_block.rs: the state that the processes share, the mapping of
-- a memory node, and the node as the memory that every process sees through its own mapping.
pub mod StartingBlock
pub mod Mapping
pub mod Master
use rep_cxl.Prelude.{ℕ, ltb, ◌==◌, if◌then◌else◌, Option, none, some, List, [], ◌∷◌}
use rep_cxl.Prelude.Run.{Run, ok, panic}
use rep_cxl.ObjectIndex
use rep_cxl.ObjectIndex.{ObjectIndex}
use rep_cxl.Wcc.Object
use rep_cxl.Wcc.Object.{ObjectWcc}
use rep_cxl.Wcc.Fast
use rep_cxl.Wcc.Fast.{FastWcc}
use rep_cxl.Request.{Wid}

pub record SharedState : Type 0 where
  pub object_index : ObjectIndex
  pub starting_block : StartingBlock.StartingBlock
  pub owcc : ObjectWcc
  pub fwcc : FastWcc

unfoldable pub new_state : ℕ → ℕ → SharedState
new_state total_size chunk_size = record {
  object_index = ObjectIndex.new total_size chunk_size;
  starting_block = StartingBlock.new;
  owcc = Object.new;
  fwcc = Fast.new;
}

-- `ObjectMemoryEntry<T>` of src/safe_memio.rs
pub record ObjectMemoryEntry {ℓ} (T : Type ℓ) : Type ℓ where
  pub wid : Wid
  pub value : T

-- A memory node: its shared state, and the entry at each offset behind it. An entry is read and
-- written whole.
pub record MemoryNode {ℓ} (T : Type ℓ) : Type ℓ where
  pub id : ℕ
  pub size : ℕ
  pub state : SharedState
  pub objects : ℕ → ObjectMemoryEntry T

module _ {ℓ} {T : Type ℓ} where
  -- `write_state`
  unfoldable pub write_state : SharedState → MemoryNode T → MemoryNode T
  write_state s n = record n { state = s }

  -- A write of the entry at an offset.
  unfoldable pub store : ℕ → ObjectMemoryEntry T → MemoryNode T → MemoryNode T
  store offset ome n = record n { objects = λ k. if k == offset then ome else n.objects k }

  -- `min_by_key(|n| n.id)`: the first node with the least number.
  abbrev pub lower : MemoryNode T → Option (MemoryNode T) → MemoryNode T
  lower n none = n
  lower n (some m) = if ltb m.id n.id then m else n

  unfoldable pub min_by_id : List (MemoryNode T) → Option (MemoryNode T)
  min_by_id [] = none
  min_by_id (n ∷ ns) = some (lower n (min_by_id ns))

  -- `get_state` of the master hands out a reference: a change of it is a change of that node, the
  -- first that has the master's number.
  unfoldable pub update_at :
      ℕ → (SharedState → SharedState) → List (MemoryNode T) → List (MemoryNode T)
  update_at id f [] = []
  update_at id f (n ∷ ns) =
      if n.id == id then record n { state = f n.state } ∷ ns else n ∷ update_at id f ns
