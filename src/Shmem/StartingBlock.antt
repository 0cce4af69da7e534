-- ===== src/Shmem/StartingBlock.antt =====
-- src/shmem/starting_block.rs: the processes that are ready, and the time at which rounds start.
use rep_cxl.Prelude.{
  ℕ, ltb, if◌then◌else◌, Bool, true, false, Option, none, some, List, [], ◌∷◌, set, get_elem?,
  replicate,
}
use rep_cxl.Prelude.Run.{Run, ok, panic, assert, ◌>>=◌, ◌>>◌}
use rep_cxl.Wcc.{max_processes}

pub record StartingBlock : Type 0 where
  pub start_time : Option ℕ
  pub ready_processes : List Bool

abbrev pub new : StartingBlock
new = record { start_time = none; ready_processes = replicate max_processes false }

unfoldable pub start_at : ℕ → StartingBlock → StartingBlock
start_at time b = record b { start_time = some time }

abbrev pub is_some {ℓ} : {A : Type ℓ} → Option A → Bool
is_some none = false
is_some (some a) = true

unfoldable pub start_is_scheduled : StartingBlock → Bool
start_is_scheduled b = is_some b.start_time

unfoldable pub get_start_time : StartingBlock → Option ℕ
get_start_time b = b.start_time

unfoldable pub mark_ready : ℕ → StartingBlock → Run StartingBlock
mark_ready pid b = do
  assert (ltb pid max_processes)
  ok (record b { ready_processes = set b.ready_processes pid true })

abbrev pub ready_at : List Bool → ℕ → Run Bool
ready_at ready pid = elim (get_elem? ready pid) [ none ↦ panic | some r ↦ ok r ]

-- `all` stops at the first process that is not ready; an index out of range panics.
unfoldable pub all_ready : List ℕ → StartingBlock → Run Bool
all_ready [] b = ok true
all_ready (pid ∷ pids) b =
    let others = all_ready pids b in
    do r ← ready_at b.ready_processes pid; if r then others else ok false
