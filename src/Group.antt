-- ===== src/Group.antt =====
-- `GroupView` of src/lib.rs: the processes and the memory nodes of the group.
pub mod View
pub mod Quotient
use rep_cxl.Prelude.{
  ℕ, ltb, ◌==◌, if◌then◌else◌, Bool, true, false, ◌&&◌, Option, none, some, List, [], ◌∷◌, ◌++◌,
  map, all, contains, length,
}
use rep_cxl.Shmem.{MemoryNode, min_by_id}

pub record GroupView {ℓ} (T : Type ℓ) : Type ℓ where
  pub self_id : ℕ
  pub processes : List ℕ
  pub memory_nodes : List (MemoryNode T)

-- `iter().min()`
abbrev pub smaller : ℕ → Option ℕ → ℕ
smaller p none = p
smaller p (some q) = if ltb q p then q else p

abbrev pub minimum : List ℕ → Option ℕ
minimum [] = none
minimum (p ∷ ps) = some (smaller p (minimum ps))

-- Equality of the sets of two lists.
abbrev pub same_set : List ℕ → List ℕ → Bool
same_set xs ys = all (contains ys) xs && all (contains xs) ys

module _ {ℓ} {T : Type ℓ} where
  unfoldable pub new : ℕ → GroupView T
  new self_id = record { self_id = self_id; processes = []; memory_nodes = [] }

  unfoldable pub add_process : ℕ → GroupView T → GroupView T
  add_process pid g =
      if contains g.processes pid then g else record g { processes = g.processes ++ pid ∷ [] }

  unfoldable pub get_coordinator : GroupView T → Option ℕ
  get_coordinator g = minimum g.processes

  unfoldable pub get_master_node : GroupView T → Option (MemoryNode T)
  unfolding min_by_id
  get_master_node g = min_by_id g.memory_nodes

  -- `memory_nodes.push(node)`
  unfoldable pub push_node : MemoryNode T → GroupView T → GroupView T
  push_node n g = record g { memory_nodes = g.memory_nodes ++ n ∷ [] }

  abbrev pub node_ids : GroupView T → List ℕ
  node_ids g = map (λ n. n.id) g.memory_nodes

  unfoldable pub eq : GroupView T → GroupView T → Bool
  eq a b = same_set a.processes b.processes && same_set (node_ids a) (node_ids b)
