-- ===== src/Legacy/WccPerReq.antt =====
-- `WriteConflictChecker` of src/shmem/wcc_per_req.rs: a hash table of the requests to write an object,
-- each with the processes that made it. A row is a list of MAX_OBJECTS slots; the rows are a
-- function of the hash.
pub mod Collision
use Prim.Native.Nat.{ℕ, zero, suc, ◌%◌}
use rep_cxl.Prelude.{
  ltb, ◌==◌, if◌then◌else◌, Bool, true, false, Option, none, some, List, [], ◌∷◌, set, get_elem?,
  replicate, contains,
}
use rep_cxl.Prelude.Run.{Run, ok, panic, assert, ◌>>◌}
use rep_cxl.Prelude.Words.{add64}
use rep_cxl.ObjectIndex.{max_objects}
use rep_cxl.Wcc.{max_processes}

-- `(usize, ([usize; MAX_PROCESSES], usize))`
pub record Slot : Type 0 where
  pub key : ℕ
  pub pids : List ℕ
  pub num_of_pids : ℕ

pub record WriteConflictChecker : Type 0 where
  pub requests : ℕ → List Slot

abbrev pub empty_slot : Slot
empty_slot = record { key = 0; pids = replicate max_processes 0; num_of_pids = 0 }

unfoldable pub new : WriteConflictChecker
new = record { requests = λ index. replicate max_objects empty_slot }

abbrev pub hash : ℕ → ℕ
hash key = key % max_objects

-- The place of the request in its row: its own slot, unless an empty one stands before it.
unfoldable pub find_slot : ℕ → List Slot → Option (ℕ × Slot)
find_slot key [] = none
find_slot key (s ∷ slots) =
    let later = find_slot key slots in
    if s.key == key
    then some (0, s)
    else if s.key == 0
    then none
    else elim later [ none ↦ none | some (i, t) ↦ some (suc i, t) ]

unfoldable pub get_request : WriteConflictChecker → ℕ → Option (ℕ × Slot)
unfolding find_slot
get_request w key = find_slot key (w.requests (hash key))

-- The first `n` of the processes.
abbrev pub first_pids : ℕ → List ℕ → List ℕ
first_pids zero ps = []
first_pids (suc n) [] = []
first_pids (suc n) (p ∷ ps) = p ∷ first_pids n ps

-- A slot of the row of a key is overwritten.
abbrev pub set_slot : WriteConflictChecker → ℕ → ℕ → Slot → WriteConflictChecker
set_slot w key i s = record w {
  requests = λ index. if index == hash key then set (w.requests index) i s else w.requests index;
}

-- The process joins the others of the request; a write behind the array panics.
unfoldable pub add_pid : ℕ → Slot → Run Slot
unfolding add64
add_pid pid s =
    if contains (first_pids s.num_of_pids s.pids) pid
    then ok s
    else assert (ltb s.num_of_pids max_processes)
      >> ok (record s { pids = set s.pids s.num_of_pids pid; num_of_pids = add64 s.num_of_pids 1 })

abbrev pub stored : WriteConflictChecker → ℕ → ℕ → Run Slot → Run WriteConflictChecker
stored w key i panic = panic
stored w key i (ok s) = ok (set_slot w key i s)

-- A request that is not there goes to the first slot of its row.
abbrev pub push_at : WriteConflictChecker → ℕ → ℕ → Option (ℕ × Slot) → Run WriteConflictChecker
unfolding add_pid
push_at w req_id pid none = ok (
    set_slot w req_id 0
      (record { key = req_id; pids = replicate max_processes pid; num_of_pids = 1 }))
push_at w req_id pid (some (i, s)) = stored w req_id i (add_pid pid s)

unfoldable pub push_request : WriteConflictChecker → ℕ → ℕ → Run WriteConflictChecker
unfolding get_request push_at
push_request w req_id pid = push_at w req_id pid (get_request w req_id)

abbrev pub conflicting : Option (ℕ × Slot) → Option (List ℕ)
conflicting none = none
conflicting (some (i, s)) =
    if ltb 1 s.num_of_pids then some (first_pids s.num_of_pids s.pids) else none

unfoldable pub check_conflicts : WriteConflictChecker → ℕ → Option (List ℕ)
unfolding get_request
check_conflicts w req_id = conflicting (get_request w req_id)

unfoldable pub clear : WriteConflictChecker → WriteConflictChecker
unfolding new
clear w = new
