-- ===== src/RepCxl.antt =====
-- `RepCXL` of src/lib.rs: the instance of a process, and the objects that it creates, looks up,
-- writes and reads. The queues are lists of what was sent; a receiver that was moved to a thread is
-- gone. The layout of an entry in memory, what the mapped files hold, the arguments of the run and
-- what the channels answer are parameters.
pub mod Access
pub mod Handle
pub mod Created
pub mod ReadBack
pub mod Published
pub mod Sync
pub mod Objects
pub mod Retries
use Prim.Native.String.{String}
use rep_cxl.Prelude.{
  ℕ, suc, zero, ◌+◌, ◌==◌, leb, if◌then◌else◌, Bool, true, false, not, Option, none, some, List, [],
  ◌∷◌, ◌++◌, map, length,
}
use rep_cxl.Prelude.Run.{Run, ok, panic, ◌>>=◌}
use rep_cxl.Prelude.Words.{add64}
use rep_cxl.ObjectIndex
use rep_cxl.ObjectIndex.{ObjectInfo, max_objects}
use rep_cxl.Request.{
  WriteRequest, ReadRequest, ReadReturn, read_safe, read_dirty, new_write_request,
}
use rep_cxl.Shmem
use rep_cxl.Shmem.{SharedState, MemoryNode, ObjectMemoryEntry, new_state, write_state}
use rep_cxl.Memio.{MemResult, done, memory_error, new_nowid, mem_writeall}
use rep_cxl.Config
use rep_cxl.Config.{Config, as_u32, as_usize, validate}
use rep_cxl.Group
use rep_cxl.Group.{GroupView, get_coordinator, get_master_node, push_node, add_process}
use rep_cxl.Monster.{MonsterStats, new_stats, Tick, WriteResult}
use rep_cxl.Monster.Read.{ReadResult, got, read_ack_lost}
use rep_cxl.Algorithms
use rep_cxl.Algorithms.{AlgorithmCallContext}

pub record RepCxl {ℓ} (F : Type 0) (T : Type ℓ) : Type ℓ where
  pub config : Config F
  pub num_of_objects : ℕ
  pub view : GroupView T
  pub wreq_queue : List (WriteRequest T)
  pub rreq_queue : List ReadRequest
  pub wreq_queue_rx : Bool
  pub rreq_queue_rx : Bool
  pub stop_flag : Bool
  pub algorithm_ctx : AlgorithmCallContext F

-- `RepCXLObject`; its senders are those of the queues of its instance.
pub record RepCxlObject : Type 0 where
  pub info : ObjectInfo

-- `coordinator == Some(id)`
abbrev pub is_some_of : Option ℕ → ℕ → Bool
is_some_of none id = false
is_some_of (some p) id = p == id

abbrev pub object_of : ObjectInfo → RepCxlObject
object_of info = record { info = info }

abbrev pub keep_if_done : RepCxlObject → MemResult (Unit {0}) → Option RepCxlObject
keep_if_done obj (done u) = some obj
keep_if_done obj (memory_error k) = none

-- The object has the identifier that was asked for.
abbrev pub found_object : ℕ → Option ObjectInfo → Option RepCxlObject
found_object id none = none
found_object id (some oi) =
    some (object_of (record { id = id; offset = oi.offset; size = oi.size }))

abbrev pub call_context : {F : Type 0} → Config F → ℕ → AlgorithmCallContext F
call_context c now = record {
  algorithm = c.algorithm;
  start_instant = now;
  round_time = c.round_time;
  read_offset = c.read_offset;
  logger = none;
  stats = new_stats;
}

module _ {ℓ} {T : Type ℓ} where
  -- The nodes of `paths`, opened in order behind the others: each takes the next number.
  abbrev pub open_nodes :
      (ℕ → String → ℕ → Run (MemoryNode T)) → ℕ → List String → GroupView T → Run (GroupView T)
  unfolding push_node
  open_nodes from_file mem_size [] g = ok g
  open_nodes from_file mem_size (path ∷ paths) g = do
    node ← from_file (length g.memory_nodes) path mem_size
    open_nodes from_file mem_size paths (push_node node g)

  unfoldable pub write_states : SharedState → GroupView T → GroupView T
  unfolding write_state
  write_states state g = record g { memory_nodes = map (write_state state) g.memory_nodes }

  -- The state of the first node; without one there is an error, at which the callers panic.
  unfoldable pub read_state_from_any : List (MemoryNode T) → Run SharedState
  read_state_from_any [] = panic
  read_state_from_any (n ∷ ns) = ok n.state

  -- The master, whose state the caller may change.
  unfoldable pub get_state_from_master : GroupView T → Run (MemoryNode T)
  unfolding get_master_node
  get_state_from_master g = elim (get_master_node g) [ none ↦ panic | some n ↦ ok n ]

module _ {ℓ} {F : Type 0} {T : Type ℓ} where
  abbrev pub new_view : Config F → GroupView T
  unfolding Group.new
  new_view c = let g = Group.new (as_usize c.id) in record g { processes = c.processes }

  abbrev pub instance_of : Config F → ℕ → GroupView T → RepCxl F T
  instance_of c now view = record {
    config = c;
    num_of_objects = 0;
    view = view;
    wreq_queue = [];
    rreq_queue = [];
    wreq_queue_rx = true;
    rreq_queue_rx = true;
    stop_flag = false;
    algorithm_ctx = call_context c now;
  }

  -- An invalid configuration panics.
  unfoldable pub new : (ℕ → String → ℕ → Run (MemoryNode T)) → Config F → ℕ → Run (RepCxl F T)
  unfolding validate Group.new push_node
  new from_file c now = elim (validate c) [
    | some e ↦ panic
    | none ↦ (do
      view ← open_nodes from_file c.mem_size c.mem_nodes (new_view c)
      ok (instance_of c now view))
  ]

  unfoldable pub enable_file_log : String → RepCxl F T → RepCxl F T
  enable_file_log path r = record r {
    algorithm_ctx = record r.algorithm_ctx { logger = some path };
  }

  unfoldable pub register_process : ℕ → RepCxl F T → RepCxl F T
  unfolding add_process
  register_process pid r = record r { view = add_process pid r.view }

  unfoldable pub is_coordinator : RepCxl F T → Bool
  unfolding get_coordinator
  is_coordinator r = is_some_of (get_coordinator r.view) (as_u32 r.config.id)

  unfoldable pub add_memory_node_from_file :
      (ℕ → String → ℕ → Run (MemoryNode T)) → String → RepCxl F T → Run (RepCxl F T)
  unfolding push_node
  add_memory_node_from_file from_file path r = do
    node ← from_file (length r.view.memory_nodes) path r.config.mem_size
    ok (record r { view = push_node node r.view })

  unfoldable pub init_state : RepCxl F T → RepCxl F T
  unfolding is_coordinator new_state write_state
  init_state r =
      if not (is_coordinator r)
      then r
      else record r { view = write_states (new_state r.config.mem_size r.config.chunk_size) r.view }

  unfoldable pub after_alloc :
      ℕ
      → ℕ
      → SharedState
      → Option ℕ × ObjectIndex.ObjectIndex
      → RepCxl F T
      → Option RepCxlObject × RepCxl F T
  unfolding write_state add64
  after_alloc id size state (none, index) r = (none, r)
  after_alloc id size state (some offset, index) r = (
    some (object_of (record { id = id; offset = offset; size = size })),
    record r {
      num_of_objects = add64 r.num_of_objects 1;
      view = write_states (record state { object_index = index }) r.view;
    },
  )

  -- `size` is `size_of::<ObjectMemoryEntry<T>>()`.
  unfoldable pub new_object : ℕ → ℕ → RepCxl F T → Run (Option RepCxlObject × RepCxl F T)
  unfolding is_coordinator read_state_from_any ObjectIndex.alloc_object write_state add64
  new_object size id r =
      if leb max_objects r.num_of_objects
      then ok (none, r)
      else if leb max_objects id
      then ok (none, r)
      else if not (is_coordinator r)
      then ok (none, r)
      else (do
        state ← read_state_from_any r.view.memory_nodes
        found ← ObjectIndex.alloc_object state.object_index id size
        ok (after_alloc id size state found r))

  abbrev pub fill_object :
      (ℕ → Bool) → T → Option RepCxlObject × RepCxl F T → Run (Option RepCxlObject × RepCxl F T)
  unfolding mem_writeall new_nowid
  fill_object fails value (none, r) = ok (none, r)
  fill_object fails value (some obj, r) = do
    (res, ns) ← mem_writeall fails obj.info.offset (new_nowid value) r.view.memory_nodes
    ok (keep_if_done obj res, record r { view = record r.view { memory_nodes = ns } })

  unfoldable pub new_object_with_val :
      (ℕ → Bool) → ℕ → ℕ → T → RepCxl F T → Run (Option RepCxlObject × RepCxl F T)
  unfolding new_object mem_writeall new_nowid
  new_object_with_val fails size id value r = do
    made ← new_object size id r
    fill_object fails value made

  unfoldable pub remove_object : ℕ → RepCxl F T → Run (RepCxl F T)
  unfolding is_coordinator read_state_from_any ObjectIndex.dealloc_object write_state
  remove_object id r = if not (is_coordinator r) then ok r else (do
    state ← read_state_from_any r.view.memory_nodes
    ok (record r {
      view =
          write_states
            (record state { object_index = ObjectIndex.dealloc_object state.object_index id })
            r.view;
    }))

  unfoldable pub get_object : ℕ → RepCxl F T → Run (Option RepCxlObject)
  unfolding read_state_from_any ObjectIndex.lookup_object
  get_object id r = do
    state ← read_state_from_any r.view.memory_nodes
    ok (found_object id (ObjectIndex.lookup_object state.object_index id))
