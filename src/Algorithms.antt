-- ===== src/Algorithms.antt =====
-- src/algorithms.rs: the context of a call, and the choice of the algorithm by its name.
use Prim.Native.String.{String}
use text.Mathlib.Text.{◌==◌ as str_eq}
use rep_cxl.Prelude.{ℕ, if◌then◌else◌, Bool, true, false, ◌||◌, Option, none, some, List, []}
use rep_cxl.Prelude.Run.{Run, ok, panic, ◌>>=◌}
use rep_cxl.ObjectIndex.{ObjectInfo}
use rep_cxl.Request.{WriteRequest, ReadRequest}
use rep_cxl.Shmem.{MemoryNode}
use rep_cxl.Monster.{MonsterStats, Tick, WriteResult, Next, goes_on, returns, Call, initial}
use rep_cxl.Monster.Classic.{monster_loop}
use rep_cxl.Monster.Fast.{fmonster_loop}
use rep_cxl.Monster.Read.{ReadResult, ReadEnv, Meets, monster_read}
use rep_cxl.Monster.Threads.{
  Received, Turn, WriteEnv, WriteThread, Replies, monster_write_thread, fmonster_write_thread,
  monster_read_thread,
}
use rep_cxl.BestEffort.{
  async_best_effort_write, async_best_effort_read, async_best_effort_write_thread,
  async_best_effort_read_thread,
}

pub record AlgorithmThreadContext (F : Type 0) : Type 0 where
  pub start_instant : ℕ
  pub round_time : ℕ
  pub read_offset : Option F
  pub stop_flag : Bool
  pub logger : Option String

pub record AlgorithmCallContext (F : Type 0) : Type 0 where
  pub algorithm : String
  pub start_instant : ℕ
  pub round_time : ℕ
  pub read_offset : Option F
  pub logger : Option String
  pub stats : MonsterStats

abbrev pub is_some {ℓ} : {A : Type ℓ} → Option A → Bool
is_some none = false
is_some (some a) = true

-- `"monster" | "fmonster"`
abbrev pub is_monster : String → Bool
is_monster name = str_eq name "monster" || str_eq name "fmonster"

-- The answer of a write that has returned, the context with its statistics, and the nodes; no
-- answer if it needs more rounds than were given.
abbrev pub Written {ℓ} : Type 0 → Type ℓ → Type ℓ
Written F T = Option WriteResult × AlgorithmCallContext F × List (MemoryNode T)

module _ {F : Type 0} where
  unfoldable pub to_call_context :
      AlgorithmThreadContext F → String → MonsterStats → AlgorithmCallContext F
  to_call_context a algorithm stats = record {
    algorithm = algorithm;
    start_instant = a.start_instant;
    round_time = a.round_time;
    read_offset = a.read_offset;
    logger = a.logger;
    stats = stats;
  }

  abbrev pub read_env : AlgorithmCallContext F → ReadEnv F
  read_env a = record {
    start_instant = a.start_instant;
    round_time = a.round_time;
    read_offset = a.read_offset;
  }

  module _ {ℓ} {T : Type ℓ} where
    abbrev pub call : AlgorithmCallContext F → ℕ → ObjectInfo → T → Call T
    call a self_id info value = record {
      self_id = self_id;
      round_time = a.round_time;
      obj_info = info;
      value = value;
    }

    abbrev pub after_loop : AlgorithmCallContext F → Next × List (MemoryNode T) → Written F T
    after_loop a (goes_on v, ns) = (none, record a { stats = v.stats }, ns)
    after_loop a (returns r v, ns) = (some r, record a { stats = v.stats }, ns)

    -- `fails` is for the algorithms without rounds; a round has its own failures.
    unfoldable pub write :
        AlgorithmCallContext F
        → ℕ
        → (ℕ → Bool)
        → List Tick
        → ObjectInfo
        → T
        → List (MemoryNode T)
        → Run (Written F T)
    unfolding async_best_effort_write monster_loop fmonster_loop
    write a self_id fails ticks info value ns =
        if str_eq a.algorithm "async_best_effort"
        then (do (r, ns') ← async_best_effort_write fails info value ns; ok (some r, a, ns'))
        else if str_eq a.algorithm "monster"
        then (do
          r ← monster_loop (call a self_id info value) ticks (initial a.stats (is_some a.logger)) ns
          ok (after_loop a r))
        else if str_eq a.algorithm "fmonster"
        then (do
          r ←
              fmonster_loop (call a self_id info value) ticks (initial a.stats (is_some a.logger))
                ns
          ok (after_loop a r))
        else ok (some WriteResult.not_supported, a, ns)

    -- `==` of the objects' type is the parameter `same`.
    unfoldable pub read :
        (T → T → Bool)
        → AlgorithmCallContext F
        → (ℕ → Bool)
        → ObjectInfo
        → Meets F T
        → Run (ReadResult T)
    unfolding async_best_effort_read monster_read
    read same a fails info (w, nodes) =
        if str_eq a.algorithm "async_best_effort"
        then async_best_effort_read same fails info nodes
        else if is_monster a.algorithm
        then monster_read (read_env a) fails info.offset (w, nodes)
        else panic

-- What the thread of an algorithm has done when its turns are over.
pub data Served {ℓ} (T : Type ℓ) : Type ℓ where
  served_async : List (ℕ × Bool) × List (MemoryNode T) → Served T
  served_rounds : WriteThread T → Served T

-- The turns of a write thread, as either kind of thread meets them.
pub record WriteTurns {ℓ} (T : Type ℓ) : Type ℓ where
  pub async_turns : List (Bool × Received (WriteRequest T) × (ℕ → Bool))
  pub round_turns : List (Turn (WriteRequest T))

module _ {ℓ} {T : Type ℓ} where
  unfoldable pub write_thread :
      String → WriteEnv → WriteTurns T → List (MemoryNode T) → Run (Served T)
  unfolding async_best_effort_write_thread monster_write_thread fmonster_write_thread
  write_thread algorithm env turns ns =
      if str_eq algorithm "async_best_effort"
      then (do r ← async_best_effort_write_thread turns.async_turns [] ns; ok (served_async r))
      else if str_eq algorithm "monster"
      then (do w ← monster_write_thread env turns.round_turns ns; ok (served_rounds w))
      else if str_eq algorithm "fmonster"
      then (do w ← fmonster_write_thread env turns.round_turns ns; ok (served_rounds w))
      else panic

  unfoldable pub read_thread :
      {F : Type 0}
      → (T → T → Bool)
      → String
      → ReadEnv F
      → (ℕ → Bool)
      → List (Bool × Received ReadRequest × Meets F T)
      → Run (Replies T)
  unfolding async_best_effort_read_thread monster_read_thread
  read_thread same algorithm env fails turns =
      if str_eq algorithm "async_best_effort"
      then async_best_effort_read_thread same fails turns
      else if is_monster algorithm
      then monster_read_thread env fails turns
      else panic
