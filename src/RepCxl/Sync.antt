-- ===== src/RepCxl/Sync.antt =====
-- `sync_start` of src/lib.rs: the processes of a group agree on the time at which rounds start. Each
-- pass of a process's loop is a step of its own, in any order with those of the others; the block
-- in the shared state of the master is the only thing they share. Clock readings are arguments.
pub mod Passes
pub mod Agreement
pub mod Together
use rep_cxl.Prelude.{ℕ, ◌+◌, ◌==◌, if◌then◌else◌, ◌≡◌, Bool, true, false, Option, none, some, List}
use rep_cxl.Prelude.Run.{Run, ok, panic, ◌>>=◌}
use rep_cxl.Config.{Config, as_usize}
use rep_cxl.Shmem.StartingBlock
use rep_cxl.Shmem.StartingBlock.{
  mark_ready, all_ready, start_at, start_is_scheduled, get_start_time,
}
use rep_cxl.RepCxl.{RepCxl, is_coordinator}

-- The coordinator's pass, when it knows whether all are ready.
abbrev pub coordinator_pass :
    ℕ → Bool → StartingBlock.StartingBlock → Option ℕ × StartingBlock.StartingBlock
unfolding start_at
coordinator_pass time ready b = if ready then (some time, start_at time b) else (none, b)

module _ {ℓ} {F : Type 0} {T : Type ℓ} where
  -- The start of `sync_start`.
  unfoldable pub enter_sync :
      RepCxl F T → StartingBlock.StartingBlock → Run StartingBlock.StartingBlock
  unfolding mark_ready
  enter_sync r b = mark_ready (as_usize r.config.id) b

  -- One pass of the loop: the start time if it leaves the loop, and the block.
  unfoldable pub sync_pass :
      RepCxl F T → ℕ → StartingBlock.StartingBlock → Run (Option ℕ × StartingBlock.StartingBlock)
  unfolding is_coordinator start_at all_ready start_is_scheduled get_start_time
  sync_pass r now b =
      if is_coordinator r
      then (do
        ready ← all_ready r.view.processes b
        ok (coordinator_pass (now + r.config.startup_delay) ready b))
      else if start_is_scheduled b
      then ok (get_start_time b, b)
      else ok (none, b)

-- Where a process stands: before `sync_start`, in its loop, or with the start time it took.
pub data Progress : Type 0 where
  outside waiting : Progress
  started : ℕ → Progress

pub record World : Type 0 where
  pub block : StartingBlock.StartingBlock
  pub progress : ℕ → Progress

abbrev pub set_progress : ℕ → Progress → (ℕ → Progress) → ℕ → Progress
set_progress p x f q = if q == p then x else f q

-- The steps of the processes whose instances are `inst`.
pub data Step {ℓ} {F : Type 0} {T : Type ℓ} (inst : ℕ → RepCxl F T) (w : World)
    : World → Type 0 where
  enters :
      (p : ℕ) (b : StartingBlock.StartingBlock)
      → w.progress p ≡ Progress.outside
      → enter_sync (inst p) w.block ≡ ok b
      → Step inst w (record { block = b; progress = set_progress p Progress.waiting w.progress })
  leaves :
      (p now time : ℕ) (b : StartingBlock.StartingBlock)
      → w.progress p ≡ Progress.waiting
      → sync_pass (inst p) now w.block ≡ ok (some time, b)
      → Step inst w
          (record { block = b; progress = set_progress p (Progress.started time) w.progress })
  sleeps :
      (p now : ℕ) (b : StartingBlock.StartingBlock)
      → w.progress p ≡ Progress.waiting
      → sync_pass (inst p) now w.block ≡ ok (none, b)
      → Step inst w (record { block = b; progress = w.progress })

-- A new block, and nobody in `sync_start`.
abbrev pub initial_world : World
initial_world = record { block = StartingBlock.new; progress = λ p. Progress.outside }

pub data Reachable {ℓ} {F : Type 0} {T : Type ℓ} (inst : ℕ → RepCxl F T) : World → Type 0 where
  at_start : Reachable inst initial_world
  after : {w w' : World} → Reachable inst w → Step inst w w' → Reachable inst w'
