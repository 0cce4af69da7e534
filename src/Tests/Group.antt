-- ===== src/Tests/Group.antt =====
-- Two processes and three nodes: the configuration, the objects, the retries and the start.
use rep_cxl.Prelude.{
  List, suc, zero, ◌++◌, ℕ, ◌≤◌, ◌<◌, ◌==◌, if◌then◌else◌, ◌≡◌, ◌≢◌, refl, ◌⊎◌, true, false, none,
  some, [], ◌∷◌, replicate, arith,
}
use rep_cxl.Prelude.Run.{ok}
use rep_cxl.ObjectIndex
use rep_cxl.ObjectIndex.{ObjectIndex, ObjectInfo, alloc_object, dealloc_object}
use rep_cxl.ObjectIndex.Valid.{IsValid, new-IsValid}
use rep_cxl.ObjectIndex.Alloc.{Rounded, alloc_object_lem}
use rep_cxl.Shmem.{new_state, write_state}
use rep_cxl.Shmem.StartingBlock
use rep_cxl.Shmem.StartingBlock.{
  mark_ready, all_ready, start_at, start_is_scheduled, get_start_time,
}
use rep_cxl.Config.{Config, pos, default, validate}
use rep_cxl.Config.Checks.{Member}
use rep_cxl.Group.{GroupView, get_coordinator}
use rep_cxl.Request.{ReadRequest, read_safe, read_dirty}
use rep_cxl.Memio.{at_rest}
use rep_cxl.Monster.Read.{ReadResult, got, Waiting}
use rep_cxl.RepCxl.{
  RepCxl, RepCxlObject, instance_of, write_states, is_coordinator, read_state_from_any, after_alloc,
  object_of, new_object, remove_object, get_object,
}
use rep_cxl.RepCxl.Access.{ReadCall, read_threaded, read_once, read_object}
use rep_cxl.RepCxl.Objects.{Indexed, new_object-get_object, remove_object-get_object}
use rep_cxl.RepCxl.Retries.{IsDirty, read_object_lem}
use rep_cxl.RepCxl.Sync.{
  enter_sync, sync_pass, Progress, World, set_progress, enters, leaves, Reachable, at_start, after,
}
use rep_cxl.RepCxl.Sync.Agreement.{sync_start_agrees}
use rep_cxl.Tests.Nodes.{three}

abbrev pub config : ℕ → Config (Unit {0})
config p = record {
  mem_nodes = "/dev/shm/a" ∷ "/dev/shm/b" ∷ "/dev/shm/c" ∷ [];
  mem_size = 4096;
  chunk_size = 64;
  startup_delay = 500;
  round_time = 100000;
  id = pos p;
  processes = 1 ∷ 0 ∷ [];
  algorithm = "monster";
  pipeline = false;
  read_retries = 2;
  read_offset = none;
  core_affinity = some 1;
}

pub valid : validate (config 1) ≡ none
unfolding validate
valid = refl

-- The defaults alone are not accepted.
default_invalid : validate (default {F = Unit {0}}) ≢ none
unfolding validate default
default_invalid = λ h. cc

abbrev pub view : ℕ → GroupView ℕ
view p = record { self_id = p; processes = 1 ∷ 0 ∷ []; memory_nodes = three }

lowest : get_coordinator (view 1) ≡ some 0
unfolding get_coordinator
lowest = refl

abbrev pub inst : ℕ → RepCxl (Unit {0}) ℕ
inst p = instance_of (config p) 0 (view p)

abbrev object_seven : RepCxlObject
object_seven = object_of (record { id = 7; offset = 0; size = 80 })

-- Reads of a pipelined instance: the first answer is dirty, the second safe.
abbrev no_wait : Waiting (Unit {0})
no_wait = record {
  in_unit = λ r. true;
  less = λ a b. false;
  mul_f64 = λ n r. n;
  round_sleep_ratio = tt;
  fuel = 0;
  clock = λ k. k;
  reading = 0;
}

abbrev pub calls : ℕ → ReadCall (Unit {0}) ℕ
calls k = record {
  sent = true;
  ack = some (if k == 1 then read_safe 7 else read_dirty k);
  ack_tx = k;
  meets = (no_wait, at_rest three);
}

abbrev queued : ℕ → List ReadRequest
queued zero = []
queued (suc k) = queued k ++ (record { obj_info = object_seven.info; ack_tx = k }) ∷ []

abbrev pipelined : ℕ → RepCxl (Unit {0}) ℕ
pipelined k =
    let r = inst 0 in
    record r { config = record r.config { pipeline = true }; rreq_queue = queued k }

abbrev answered : ℕ → ReadResult ℕ
answered k = got (if k == 1 then read_safe 7 else read_dirty k)

each_read :
    (k : ℕ)
    → read_once (λ a b. a == b) (λ id. false) object_seven (calls k) (pipelined k)
      ≡ ok (answered k, pipelined (suc k))
unfolding read_once read_threaded
each_read k = refl

read_object_lem_example :
    (j : ℕ) × (read_object (λ a b. a == b) (λ id. false) calls object_seven (pipelined 0)
      ≡ ok (answered j, pipelined (suc j)))
    × (j ≤ 2)
    × ((k : ℕ) → k < j → IsDirty (answered k))
    × ((j ≡ 2) ⊎ ¬ (IsDirty (answered j)))
read_object_lem_example =
    read_object_lem (λ a b. a == b) (λ id. false) calls object_seven answered pipelined each_read

abbrev index_one : ObjectIndex
index_one = record {
  total_size = 4096;
  allocated_size = 128;
  chunk_size = 64;
  object_index = some (record { id = 7; offset = 0; size = 128 }) ∷ replicate 999 none;
}

abbrev with_one : RepCxl (Unit {0}) ℕ
unfolding after_alloc
with_one = (after_alloc 7 80 (new_state 4096 64) (some 0, index_one) (inst 0)).1

created : new_object 80 7 (inst 0) ≡ ok (some object_seven, with_one)
unfolding new_object is_coordinator get_coordinator read_state_from_any new_state ObjectIndex.new
    alloc_object with_one after_alloc write_states write_state
created = refl

pub empty-IsValid : IsValid (new_state 4096 64).object_index
unfolding new_state
empty-IsValid = new-IsValid 4096 64 (omega arith) (omega arith)

new_object-get_object_example :
    (is_coordinator (inst 0) ≡ true)
    × ((ix' : ObjectIndex) × Indexed ix' with_one.view.memory_nodes × IsValid ix')
    × ((rounded : ℕ) × Rounded 80 (new_state 4096 64).object_index.chunk_size rounded
        × (get_object 7 with_one
            ≡ ok (some (object_of (record { id = 7; offset = 0; size = rounded })))))
    × ((j : ℕ) → 7 ≢ j → get_object j with_one ≡ get_object j (inst 0))
unfolding new_state ObjectIndex.new
new_object-get_object_example =
    new_object-get_object 80 7 (inst 0) with_one object_seven (new_state 4096 64).object_index
      (refl, (refl, (refl, tt))) empty-IsValid (omega arith) (omega arith) created

abbrev removed_one : RepCxl (Unit {0}) ℕ
unfolding with_one
removed_one = record with_one { view = view 0 }

one-Indexed : Indexed index_one with_one.view.memory_nodes
unfolding with_one after_alloc write_states write_state
one-Indexed = (refl, (refl, (refl, tt)))

one-IsValid : IsValid index_one
unfolding new_state ObjectIndex.new alloc_object
one-IsValid =
    (alloc_object_lem (new_state 4096 64).object_index index_one 7 80 0 empty-IsValid (omega arith)
      (omega arith) allocated).0
  where
    allocated : alloc_object (new_state 4096 64).object_index 7 80 ≡ ok (some 0, index_one)
    allocated = refl

coordinator : is_coordinator with_one ≡ true
unfolding is_coordinator get_coordinator with_one after_alloc write_states
coordinator = refl

removed : remove_object 7 with_one ≡ ok removed_one
unfolding remove_object is_coordinator get_coordinator read_state_from_any new_state ObjectIndex.new
    dealloc_object with_one after_alloc write_states write_state removed_one
removed = refl

remove_object-get_object_example :
    ((ix' : ObjectIndex) × Indexed ix' removed_one.view.memory_nodes × IsValid ix')
    × (get_object 7 removed_one ≡ ok none)
    × ((j : ℕ) → 7 ≢ j → get_object j removed_one ≡ get_object j with_one)
remove_object-get_object_example =
    remove_object-get_object 7 with_one removed_one index_one coordinator one-Indexed one-IsValid
      removed

abbrev block_one : StartingBlock.StartingBlock
block_one = record StartingBlock.new { ready_processes = true ∷ replicate 511 false }

abbrev block_two : StartingBlock.StartingBlock
block_two = record StartingBlock.new { ready_processes = true ∷ true ∷ replicate 510 false }

abbrev block_set : StartingBlock.StartingBlock
block_set = record block_two { start_time = some 600 }

abbrev pub final : World
final = record {
  block = block_set;
  progress = set_progress 1 (Progress.started 600) (
      set_progress 0 (Progress.started 600) (
        set_progress 1 Progress.waiting (set_progress 0 Progress.waiting (λ p. Progress.outside))));
}

pub reached : Reachable inst final
unfolding enter_sync sync_pass mark_ready all_ready is_coordinator get_coordinator start_at
    start_is_scheduled get_start_time
reached =
    after
      (after (after (after at_start (enters 0 block_one refl refl)) (enters 1 block_two refl refl))
        (leaves 0 100 600 block_set refl refl))
      (leaves 1 150 600 block_set refl refl)

sync_start_agrees_example :
    (◌≡◌ {A = ℕ} 600 600) × ((m : ℕ) → Member m (1 ∷ 0 ∷ []) → final.progress m ≢ Progress.outside)
sync_start_agrees_example =
    sync_start_agrees inst (1 ∷ 0 ∷ []) (λ p. (refl, refl)) final reached 0 1 600 600 refl refl
