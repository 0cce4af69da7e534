-- ===== src/Tests/Instance.antt =====
-- An instance that is made, one that writes and one that reads, and views up to order.
use Prim.Native.String.{String}
use mathlib.Core.Quot
use rep_cxl.Prelude.{
  ℕ, ◌+◌, ◌≤◌, ◌<◌, ◌==◌, ◌≡◌, refl, sym, ap, inl, inr, false, Option, some, [], ◌∷◌, All, arith,
}
use rep_cxl.Prelude.Run.{Run, ok, panic}
use rep_cxl.ObjectIndex
use rep_cxl.ObjectIndex.{alloc_object}
use rep_cxl.Memio.{new_nowid, mem_writeall}
use rep_cxl.Config.{validate}
use rep_cxl.Config.Checks.{Member, Accepted}
use rep_cxl.Config.Processes.{count_from}
use rep_cxl.Request.{read_safe}
use rep_cxl.Wcc.Object
use rep_cxl.Shmem.{MemoryNode, new_state, write_state}
use rep_cxl.Monster.Read.{got}
use rep_cxl.Group.{smaller, get_coordinator, get_master_node, node_ids, push_node, add_process}
use rep_cxl.Group.Quotient.{coordinator, add, Distinct, add_process_laws}
use rep_cxl.RepCxl.{
  RepCxl, RepCxlObject, object_of, new, is_coordinator, read_state_from_any, after_alloc,
  write_states, new_object, new_object_with_val, get_object,
}
use rep_cxl.RepCxl.Access.{read_object}
use rep_cxl.RepCxl.ReadBack.{resting}
use rep_cxl.RepCxl.Published.{read_object-new_object_with_val}
use rep_cxl.RepCxl.Created.{Numbered, new_complete}
use rep_cxl.Timer.{round_of}
use rep_cxl.Timer.Convert.{Sample, system_time_to_instant}
use rep_cxl.RepCxl.Sync.Together.{GoodClocks, sync_start-same_round}
use rep_cxl.Tests.Nodes.{node, no_failure}
use rep_cxl.Tests.Group.{config, view, inst, empty-IsValid, final, reached, calls}

abbrev object_seven : RepCxlObject
object_seven = object_of (record { id = 7; offset = 64; size = 64 })

abbrev made_object : RepCxlObject
made_object = object_of (record { id = 7; offset = 0; size = 80 })

abbrev result_of : Run (Option RepCxlObject × RepCxl (Unit {0}) ℕ) → RepCxl (Unit {0}) ℕ
result_of panic = inst 0
result_of (ok (obj, r)) = r

abbrev with_object : RepCxl (Unit {0}) ℕ
unfolding new_object_with_val
with_object = result_of (new_object_with_val no_failure 80 7 99 (inst 0))

filled : new_object_with_val no_failure 80 7 99 (inst 0) ≡ ok (some made_object, with_object)
unfolding new_object_with_val new_object is_coordinator get_coordinator read_state_from_any
    new_state ObjectIndex.new alloc_object after_alloc write_states write_state mem_writeall
    new_nowid with_object
filled = refl

-- Process 1 with the nodes as process 0 left them.
abbrev reader : RepCxl (Unit {0}) ℕ
reader =
    let r = inst 1 in
    record r { view = record r.view { memory_nodes = with_object.view.memory_nodes } }

none_fails : All (λ (n : MemoryNode ℕ). no_failure n.id ≡ false) with_object.view.memory_nodes
unfolding new_object_with_val new_object is_coordinator get_coordinator read_state_from_any
    new_state ObjectIndex.new alloc_object after_alloc write_states write_state mem_writeall
    new_nowid with_object
none_fails = (refl, (refl, (refl, tt)))

read_object-new_object_with_val_example :
    (found : RepCxlObject) × (get_object 7 reader ≡ ok (some found))
    × (found.info.offset ≡ 0)
    × (read_object (λ a b. a == b) no_failure (resting calls reader.view.memory_nodes) found reader
        ≡ ok (got (read_safe 99), reader))
unfolding new_state ObjectIndex.new
read_object-new_object_with_val_example =
    read_object-new_object_with_val 80 7 99 (inst 0) with_object reader made_object
      (new_state 4096 64).object_index no_failure no_failure (λ a b. a == b) calls
      (refl, (refl, (refl, tt))) empty-IsValid (omega arith) (omega arith) filled refl refl refl tt
      none_fails

abbrev from_file : ℕ → String → ℕ → Run (MemoryNode ℕ)
from_file id path size = ok (node id)

numbered : Numbered from_file
numbered id path size n h =
    let same : node id ≡ n = cc in ap (λ (m : MemoryNode ℕ). m.id) (sym same)

made : new from_file (config 1) 0 ≡ ok (inst 1)
unfolding new validate push_node
made = refl

new_complete_example :
    (p : ℕ) × Accepted (config 1) p
    × ((inst 1).view.self_id ≡ p)
    × ((inst 1).view.processes ≡ 1 ∷ 0 ∷ [])
    × (node_ids (view 1) ≡ count_from 0 3)
    × ((n : MemoryNode ℕ) × (get_master_node (view 1) ≡ some n) × (n.id ≡ 0))
    × ((m : ℕ) × (get_coordinator (view 1) ≡ some m) × Member m (1 ∷ 0 ∷ []) × (m ≤ p))
new_complete_example = new_complete from_file (config 1) 0 (inst 1) numbered made

distinct : Distinct (view 0).processes
distinct =
    (λ m. elim m [ inl same ↦ omega (arith, same) | inr never ↦ never ], (λ never. never, tt))

add_process_laws_example :
    (add_process 4 (add_process 4 (view 0)) ≡ add_process 4 (view 0))
    × Distinct (add_process 4 (view 0)).processes
    × (add 4 (add 2 (Quot.mk (view 0))) ≡ add 2 (add 4 (Quot.mk (view 0))))
    × (coordinator (add 4 (Quot.mk (view 0))) ≡ some (smaller 4 (coordinator (Quot.mk (view 0)))))
add_process_laws_example = add_process_laws 4 2 (view 0) distinct

-- Clocks whose wall time is ahead by `ahead`, with two nanoseconds for each round.
abbrev clocks : ℕ → ℕ → Sample
clocks ahead k = record { mono_before = k; wall_now = k + ahead + 1; mono_after = k + 2 }

clocks-GoodClocks : (ahead : ℕ) → ahead < 500 → GoodClocks (clocks ahead) ahead 600 10
clocks-GoodClocks ahead low = record {
  in_step = λ k lt. (omega arith, omega arith);
  early = λ k lt. omega (arith, low, lt);
  quick = λ k lt. omega arith;
  bounded = omega arith;
}

sync_start-same_round_example :
    (round_of (system_time_to_instant (clocks 100) 0 0 600) 10 1000
      ≤ round_of (system_time_to_instant (clocks 200) 0 0 600) 10 900 + 1)
    × (round_of (system_time_to_instant (clocks 200) 0 0 600) 10 900
        ≤ round_of (system_time_to_instant (clocks 100) 0 0 600) 10 1000 + 1)
sync_start-same_round_example =
    sync_start-same_round inst (1 ∷ 0 ∷ []) final 0 1 600 600 10 1100 1000 900 100 200 0 0 0 0
      (clocks 100) (clocks 200) (λ p. (refl, refl)) reached refl refl
      (clocks-GoodClocks 100 (omega arith)) (clocks-GoodClocks 200 (omega arith)) (omega arith)
      (omega arith) (omega arith) (omega arith) (omega arith)
