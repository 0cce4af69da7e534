-- ===== src/Monster.antt =====
-- src/algorithms/monster.rs: the states of a write, the statistics, and what both algorithms share.
-- A round of a write is one call of a step function: the clock readings of the round and the failures
-- of its memory accesses are a `Tick`, and `timer::wait_next_round` gives the next one.
pub mod Classic
pub mod Fast
pub mod Read
pub mod Threads
pub mod Writers
pub mod Conflict
pub mod Uncontended
pub mod Race
pub mod Success
use rep_cxl.Prelude.{
  ℕ, ◌+◌, ◌-◌, ltb, if◌then◌else◌, any, Bool, true, false, Option, none, some, List, [], ◌∷◌, ◌++◌,
}
use rep_cxl.Prelude.Run.{Run, ok, panic}
use rep_cxl.Prelude.Words.{add64}
use rep_cxl.ObjectIndex.{ObjectInfo}
use rep_cxl.Request
use rep_cxl.Request.{Wid}
use rep_cxl.Shmem.{SharedState, ObjectMemoryEntry, MemoryNode, min_by_id, update_at}
use rep_cxl.Memio.{MemResult, done, memory_error, mem_writeall}

pub data MonsterState : Type 0 where
  try retry check replicate wait post_conflict_check : MonsterState

pub record MonsterStats : Type 0 where
  pub conflicts : ℕ
  pub sync_failures : ℕ
  pub empty_requests : ℕ
  pub prev_round : ℕ
  pub try_overtime : ℕ
  pub check_overtime : ℕ
  pub replicate_overtime : ℕ

abbrev pub new_stats : MonsterStats
new_stats = record {
  conflicts = 0;
  sync_failures = 0;
  empty_requests = 0;
  prev_round = 1;
  try_overtime = 0;
  check_overtime = 0;
  replicate_overtime = 0;
}

-- Whether a round was skipped, and the statistics after that was noted.
unfoldable pub update_sync_failure : ℕ → MonsterStats → Bool × MonsterStats
unfolding add64
update_sync_failure round s =
    let sync_failure = ltb (add64 s.prev_round 1) round in
    (
      sync_failure,
      record s {
        sync_failures = (if sync_failure then add64 s.sync_failures 1 else s.sync_failures);
        prev_round = round;
      },
    )

unfoldable pub is_overtime : ℕ → ℕ → ℕ → Bool
is_overtime now round_start round_time = ltb round_time (now - round_start)

-- One line of the state log: the round, the state and the object.
pub record LogEntry : Type 0 where
  pub round_num : ℕ
  pub state : MonsterState
  pub object_id : ℕ

-- What one round of the loop meets.
pub record Tick : Type 0 where
  pub round_num : ℕ
  pub round_start : ℕ
  pub now : ℕ
  pub fails : ℕ → Bool

-- The variables of the loop. The log is there if logging is enabled.
pub record Vars : Type 0 where
  pub state : MonsterState
  pub wid : Wid
  pub last_writer_pid : ℕ
  pub stats : MonsterStats
  pub mslog : Option (List LogEntry)

-- `Result<(), String>` of a write: the error messages, some with the node that failed.
pub data WriteResult : Type 0 where
  written : WriteResult
  replication_failed : ℕ → WriteResult
  post_conflict_failed : ℕ → WriteResult
  not_supported send_failed failed_write ack_lost : WriteResult

-- The loop goes on, or the function returns.
pub data Next : Type 0 where
  goes_on : Vars → Next
  returns : WriteResult → Vars → Next

-- The parts of a write that stay as they are through its rounds.
pub record Call {ℓ} (T : Type ℓ) : Type ℓ where
  pub self_id : ℕ
  pub round_time : ℕ
  pub obj_info : ObjectInfo
  pub value : T

abbrev pub initial : MonsterStats → Bool → Vars
initial stats logging = record {
  state = MonsterState.try;
  wid = record { round_num = 0; process_id = 0 };
  last_writer_pid = 0;
  stats = stats;
  mslog = if logging then some [] else none;
}

abbrev pub append_log : Option (List LogEntry) → LogEntry → Option (List LogEntry)
append_log none e = none
append_log (some es) e = some (es ++ e ∷ [])

-- The head of the loop body: the sync failure check and the log line.
unfoldable pub begin_round : ℕ → Tick → Vars → Vars
unfolding update_sync_failure
begin_round oid t v = record v {
  stats = (update_sync_failure t.round_num v.stats).1;
  mslog = append_log v.mslog (record { round_num = t.round_num; state = v.state; object_id = oid });
}

abbrev pub unwrap {ℓ} : {A : Type ℓ} → Option A → Run A
unwrap none = panic
unwrap (some a) = ok a

-- `try_overtime`, `check_overtime` and `replicate_overtime` after their test.
abbrev pub count_if : Bool → ℕ → ℕ
unfolding add64
count_if late n = if late then add64 n 1 else n

abbrev pub write_result : MemResult (Unit {0}) → WriteResult
write_result (done u) = WriteResult.written
write_result (memory_error k) = WriteResult.replication_failed k

module _ {ℓ} {T : Type ℓ} where
  abbrev pub overtime : Call T → Tick → Bool
  unfolding is_overtime
  overtime c t = is_overtime t.now t.round_start c.round_time

  abbrev pub own_wid : Call T → Tick → Wid
  own_wid c t = record { round_num = t.round_num; process_id = c.self_id }

  -- `omes.iter().any(|ome| ome.wid < wid)`
  unfoldable pub any_smaller : Wid → List (ObjectMemoryEntry T) → Bool
  unfolding Request.lt
  any_smaller wid omes = any (λ ome. Request.lt ome.wid wid) omes

  -- The answer of the post-conflict check: retry, return, or the error of the failed node.
  unfoldable pub after_post_conflict : Vars → MemResult (List (ObjectMemoryEntry T)) → Next
  unfolding Request.lt
  after_post_conflict v (memory_error k) = returns (WriteResult.post_conflict_failed k) v
  after_post_conflict v (done omes) =
      if any_smaller v.wid omes
      then goes_on (record v { state = MonsterState.retry })
      else returns WriteResult.written v

  abbrev pub with_overtime_replicate : Call T → Tick → Vars → Vars
  unfolding is_overtime add64
  with_overtime_replicate c t v = record v {
    stats = record v.stats {
      replicate_overtime = count_if (overtime c t) v.stats.replicate_overtime;
    };
  }
