-- ===== src/RepCxl/Sync/Passes.antt =====
-- What one pass of the loop of `sync_start` does to the starting block.
use rep_cxl.Prelude.{
  ℕ, zero, suc, replicate, ◌≡◌, sym, ◌⊎◌, inl, inr, Bool, true, none, some, List, [], ◌∷◌, set,
  get_elem?, arith,
}
use mathlib.Core.Option.{some-injective}
use rep_cxl.Prelude.Run.{ok}
use rep_cxl.Config.{as_usize}
use rep_cxl.Config.Checks.{Member}
use rep_cxl.Shmem.StartingBlock
use rep_cxl.Shmem.StartingBlock.{
  mark_ready, all_ready, ready_at, start_at, start_is_scheduled, get_start_time, is_some,
}
use rep_cxl.RepCxl.{RepCxl, is_coordinator}
use rep_cxl.RepCxl.Sync.{enter_sync, sync_pass}

all_ready-cons :
    (q : ℕ) (pids : List ℕ) (b : StartingBlock.StartingBlock)
    → all_ready (q ∷ pids) b ≡ ok true
    → (get_elem? b.ready_processes q ≡ some true) × (all_ready pids b ≡ ok true)
unfolding all_ready
all_ready-cons q pids b h = ground arith

pub all_ready-Member :
    (pids : List ℕ) (b : StartingBlock.StartingBlock)
    → all_ready pids b ≡ ok true
    → (p : ℕ) → Member p pids
    → get_elem? b.ready_processes p ≡ some true
all_ready-Member [] b h p m = absurd m
all_ready-Member (q ∷ pids) b h p (inl same) = rw (← same) (all_ready-cons q pids b h).0
all_ready-Member (q ∷ pids) b h p (inr m) =
    all_ready-Member pids b (all_ready-cons q pids b h).1 p m

pub replicate-eq : (n i : ℕ) {a b : Bool} → get_elem? (replicate n a) i ≡ some b → b ≡ a
replicate-eq zero i h = cc
replicate-eq (suc n) zero h = sym (some-injective _ _ h)
replicate-eq (suc n) (suc i) h = replicate-eq n i h

module _ {ℓ} {F : Type 0} {T : Type ℓ} (r : RepCxl F T) (now : ℕ)
    (b b' : StartingBlock.StartingBlock) where
  -- How a process leaves the loop.
  pub leaves-cases :
      (time : ℕ)
      → sync_pass r now b ≡ ok (some time, b')
      → ((is_coordinator r ≡ true)
          × (all_ready r.view.processes b ≡ ok true)
          × (b' ≡ start_at time b))
        ⊎ ((b.start_time ≡ some time) × (b' ≡ b))
  unfolding sync_pass
  leaves-cases time h = ground arith

  pub sleeps-keeps : sync_pass r now b ≡ ok (none, b') → b' ≡ b
  unfolding sync_pass
  sleeps-keeps h = ground arith

  pub entered :
      enter_sync r b ≡ ok b'
      → b' ≡ record b { ready_processes = set b.ready_processes (as_usize r.config.id) true }
  unfolding enter_sync
  entered h = ground arith
