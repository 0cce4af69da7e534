-- ===== src/Monster/Threads.antt =====
-- The threads of src/algorithms/monster.rs that serve the request queues. A turn of a loop is what
-- it meets: the stop flag, what the queue gives, and the rounds of the write.
pub mod Written
pub mod Acks
use rep_cxl.Prelude.{ℕ, if◌then◌else◌, Bool, true, false, List, [], ◌∷◌, ◌++◌}
use rep_cxl.Prelude.Run.{Run, ok, ◌>>=◌}
use rep_cxl.Prelude.Words.{add64}
use rep_cxl.Request.{WriteRequest, ReadRequest, ReadReturn}
use rep_cxl.Shmem.{MemoryNode}
use rep_cxl.Monster.{
  MonsterStats, new_stats, Tick, WriteResult, Next, goes_on, returns, Call, initial,
}
use rep_cxl.Monster.Classic.{monster_loop}
use rep_cxl.Monster.Fast.{fmonster_loop}
use rep_cxl.Monster.Read.{ReadResult, got, read_waits, ReadEnv, Meets, monster_read}

-- What a queue gives: a request, nothing, or one of the two errors of the closed channel.
pub data Received {ℓ} (R : Type ℓ) : Type ℓ where
  received : R → Received R
  no_request closed send_closed : Received R

-- The thread takes the next turn, is in a write that needs more rounds than were given, or has
-- left its loop.
pub data Phase : Type 0 where
  serving in_write exited : Phase

pub record Turn {ℓ} (R : Type ℓ) : Type ℓ where
  pub stop : Bool
  pub next_request : Received R
  pub ticks : List Tick

-- The acknowledgements that were sent, by the channel, in order.
pub record WriteThread {ℓ} (T : Type ℓ) : Type ℓ where
  pub phase : Phase
  pub stats : MonsterStats
  pub acks : List (ℕ × Bool)
  pub nodes : List (MemoryNode T)

-- How long a write call is and what it leaves.
pub record WriteEnv : Type 0 where
  pub self_id : ℕ
  pub round_time : ℕ
  pub logging : Bool

-- The answers that were sent to readers, by the channel, in order.
abbrev pub Replies {ℓ} : Type ℓ → Type ℓ
Replies T = List (ℕ × ReadReturn T)

module _ {ℓ} {T : Type ℓ} where
  abbrev pub call_of : WriteEnv → WriteRequest T → Call T
  call_of env req = record {
    self_id = env.self_id;
    round_time = env.round_time;
    obj_info = req.obj_info;
    value = req.value;
  }

  -- The thread after its write call: only a write that succeeded is acknowledged.
  abbrev pub after_write :
      WriteRequest T → WriteThread T → Next × List (MemoryNode T) → WriteThread T
  after_write req w (goes_on v, ns) = record w {
    phase = Phase.in_write;
    stats = v.stats;
    nodes = ns;
  }
  after_write req w (returns WriteResult.written v, ns) = record w {
    stats = v.stats;
    acks = w.acks ++ (req.ack_tx, true) ∷ [];
    nodes = ns;
  }
  after_write req w (returns r v, ns) = record w { stats = v.stats; nodes = ns }

  -- One turn, for the write function `run`.
  abbrev pub serve_write :
      (WriteRequest T → List Tick → WriteThread T → Run (Next × List (MemoryNode T)))
      → List Tick
      → Received (WriteRequest T)
      → WriteThread T
      → Run (WriteThread T)
  unfolding add64
  serve_write run ticks (received req) w = do r ← run req ticks w; ok (after_write req w r)
  serve_write run ticks no_request w =
      ok (record w { stats = record w.stats { empty_requests = add64 w.stats.empty_requests 1 } })
  serve_write run ticks closed w = ok (record w { phase = Phase.exited })
  serve_write run ticks send_closed w = ok (record w { phase = Phase.exited })

  -- The loop over the turns, for as long as the thread serves.
  unfoldable pub write_loop :
      (WriteRequest T → List Tick → WriteThread T → Run (Next × List (MemoryNode T)))
      → List (Turn (WriteRequest T))
      → WriteThread T
      → Run (WriteThread T)
  unfolding add64
  write_loop run [] w = ok w
  write_loop run (t ∷ ts) w = elim w.phase [
    | Phase.in_write ↦ ok w
    | Phase.exited ↦ ok w
    | Phase.serving ↦ elim t.stop [
      | true ↦ ok (record w { phase = Phase.exited })
      | false ↦ (do w' ← serve_write run t.ticks t.next_request w; write_loop run ts w')
    ]
  ]

  unfoldable pub monster_write_call :
      WriteEnv → WriteRequest T → List Tick → WriteThread T → Run (Next × List (MemoryNode T))
  unfolding monster_loop
  monster_write_call env req ticks w =
      monster_loop (call_of env req) ticks (initial w.stats env.logging) w.nodes

  unfoldable pub fmonster_write_call :
      WriteEnv → WriteRequest T → List Tick → WriteThread T → Run (Next × List (MemoryNode T))
  unfolding fmonster_loop
  fmonster_write_call env req ticks w =
      fmonster_loop (call_of env req) ticks (initial w.stats env.logging) w.nodes

  abbrev pub fresh : List (MemoryNode T) → WriteThread T
  fresh ns = record { phase = Phase.serving; stats = new_stats; acks = []; nodes = ns }

  unfoldable pub monster_write_thread :
      WriteEnv → List (Turn (WriteRequest T)) → List (MemoryNode T) → Run (WriteThread T)
  unfolding write_loop monster_write_call
  monster_write_thread env turns ns = write_loop (monster_write_call env) turns (fresh ns)

  unfoldable pub fmonster_write_thread :
      WriteEnv → List (Turn (WriteRequest T)) → List (MemoryNode T) → Run (WriteThread T)
  unfolding write_loop fmonster_write_call
  fmonster_write_thread env turns ns = write_loop (fmonster_write_call env) turns (fresh ns)

  abbrev pub reply : ReadRequest → ReadResult T → Replies T → Replies T
  reply req (got value) sent = sent ++ (req.ack_tx, value) ∷ []
  reply req r sent = sent

  -- The wait of the read is over.
  abbrev pub has_read : ReadResult T → Bool
  has_read read_waits = false
  has_read r = true

  -- The loop of a read thread, for the read function `run`; each turn has what the read then meets.
  -- Behind a read that still waits there is no further turn.
  unfoldable pub read_loop :
      {X : Type ℓ}
      → (ReadRequest → X → Run (ReadResult T))
      → List (Bool × Received ReadRequest × X)
      → Replies T
      → Run (Replies T)
  read_loop run [] sent = ok sent
  read_loop run ((true, recv, x) ∷ turns) sent = ok sent
  read_loop run ((false, received req, x) ∷ turns) sent = do
    r ← run req x
    if has_read r then read_loop run turns (reply req r sent) else ok sent
  read_loop run ((false, no_request, x) ∷ turns) sent = read_loop run turns sent
  read_loop run ((false, closed, x) ∷ turns) sent = ok sent
  read_loop run ((false, send_closed, x) ∷ turns) sent = ok sent

  unfoldable pub monster_read_thread :
      {F : Type 0}
      → ReadEnv F
      → (ℕ → Bool)
      → List (Bool × Received ReadRequest × Meets F T)
      → Run (Replies T)
  unfolding read_loop monster_read
  monster_read_thread env fails turns =
      read_loop (λ req x. monster_read env fails req.obj_info.offset x) turns []
