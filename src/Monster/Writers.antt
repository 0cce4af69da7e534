-- ===== src/Monster/Writers.antt =====
-- Several processes that run `monster_write` of src/algorithms/monster.rs at once. Rounds are
-- global; a process takes at most one round of its loop in each of them, in any order with the
-- others, and may skip rounds. When a write has returned the process begins another.
pub mod Effect
pub mod Attempt
mod Invariant
mod Acts
mod Preserved
pub mod OneWinner
use rep_cxl.Prelude.{ℕ, suc, ◌==◌, ◌<◌, if◌then◌else◌, ◌≡◌, Bool, List}
use rep_cxl.Prelude.Run.{ok}
use rep_cxl.Wcc.{max_processes}
use rep_cxl.Shmem.{MemoryNode}
use rep_cxl.Monster.{MonsterStats, Tick, Vars, WriteResult, goes_on, returns, Call, initial}
use rep_cxl.Monster.Classic.{monster_round}

-- A process in a write: its call, its variables, and the last round that it took.
pub record Writer {ℓ} (T : Type ℓ) : Type ℓ where
  pub call : Call T
  pub vars : Vars
  pub last : ℕ

pub record Board {ℓ} (T : Type ℓ) : Type ℓ where
  pub round : ℕ
  pub writers : ℕ → Writer T
  pub nodes : List (MemoryNode T)

abbrev pub set_writer {ℓ} : {T : Type ℓ} → ℕ → Writer T → (ℕ → Writer T) → ℕ → Writer T
set_writer p x f q = if q == p then x else f q

module _ {ℓ} {T : Type ℓ} where
  pub data Step (b : Board T) : Board T → Type ℓ where
    next_round : Step b (record b { round = suc b.round })
    acts :
        (p : ℕ) (t : Tick) (v : Vars) (ns : List (MemoryNode T))
        → p < max_processes
        → t.round_num ≡ b.round
        → (b.writers p).last < b.round
        → monster_round (b.writers p).call t (b.writers p).vars b.nodes ≡ ok (goes_on v, ns)
        → Step b (record {
          round = b.round;
          writers = set_writer p (record (b.writers p) { vars = v; last = b.round }) b.writers;
          nodes = ns;
        })
    ends :
        (p : ℕ) (t : Tick) (r : WriteResult) (v : Vars) (ns : List (MemoryNode T)) (next : Call T)
        (stats : MonsterStats) (logging : Bool)
        → p < max_processes
        → t.round_num ≡ b.round
        → (b.writers p).last < b.round
        → monster_round (b.writers p).call t (b.writers p).vars b.nodes ≡ ok (returns r v, ns)
        → next.self_id ≡ p
        → Step b (record {
          round = b.round;
          writers =
              set_writer p
                (record { call = next; vars = initial stats logging; last = b.round })
                b.writers;
          nodes = ns;
        })

  pub data Reachable (first : Board T) : Board T → Type ℓ where
    at_start : Reachable first first
    after : {b b' : Board T} → Reachable first b → Step b b' → Reachable first b'
