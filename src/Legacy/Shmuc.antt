-- ===== src/Legacy/Shmuc.antt =====
-- src/algorithms/shmuc.rs: an earlier algorithm, with rounds of fixed kinds. A round of the loop meets
-- its number, what the queue gives, and for each node whether the write fails and whether the clock
-- is behind the end of the round then. The nodes hold plain values.
pub mod Rounds
use Prim.Native.Nat.{ℕ, ◌%◌}
use rep_cxl.Prelude.{
  ltb, ◌==◌, if◌then◌else◌, not, Bool, true, false, ◌&&◌, Option, none, some, List, [], ◌∷◌, ◌++◌,
}
use rep_cxl.Prelude.Run.{Run, ok, panic, assert, ◌>>=◌, ◌>>◌}
use rep_cxl.Legacy.WccPerReq.{WriteConflictChecker, push_request, check_conflicts}

abbrev pub membership_change_interval : ℕ
membership_change_interval = 10

pub data ShmucRound : Type 0 where
  init write read view_change1 view_change2 view_change3 view_change4 : ShmucRound
  pending_view_change quit : ShmucRound

abbrev pub is_quit : ShmucRound → Bool
is_quit quit = true
is_quit init = false
is_quit write = false
is_quit read = false
is_quit view_change1 = false
is_quit view_change2 = false
is_quit view_change3 = false
is_quit view_change4 = false
is_quit pending_view_change = false

-- The `match` on the state.
abbrev pub after : ShmucRound → ShmucRound
after init = write
after write = read
after read = write
after view_change1 = view_change2
after view_change2 = view_change3
after view_change3 = view_change4
after view_change4 = write
after pending_view_change = pending_view_change
after quit = quit

unfoldable pub next : ShmucRound → ℕ → ShmucRound
next state round_num =
    if round_num % membership_change_interval == 0 && not (is_quit state)
    then view_change1
    else after state

pub data ShmucError : Type 0 where
  memio_error round_overtime : ShmucError

pub record Node {ℓ} (T : Type ℓ) : Type ℓ where
  pub id : ℕ
  pub size : ℕ
  pub values : ℕ → T

-- The request of a client, with the channel for its answer.
pub record Request {ℓ} (T : Type ℓ) : Type ℓ where
  pub offset : ℕ
  pub data_value : T
  pub ack_tx : ℕ

pub data Received {ℓ} (T : Type ℓ) : Type ℓ where
  received : Request T → Received T
  empty disconnected : Received T

-- What a round meets.
pub record Turn {ℓ} (T : Type ℓ) : Type ℓ where
  pub round_num : ℕ
  pub request : Received T
  pub fails : ℕ → Bool
  pub late : ℕ → Bool

-- The variables of the loop, the checker and the nodes it shares, and the answers that were sent.
pub record Shmuc {ℓ} (T : Type ℓ) : Type ℓ where
  pub state : ShmucRound
  pub pending : Option (Request T)
  pub wcc : WriteConflictChecker
  pub nodes : List (Node T)
  pub acks : List (ℕ × Bool)
  pub running : Bool

-- `iter().min().unwrap()`; the list is not empty.
unfoldable pub least : ℕ → List ℕ → ℕ
least p [] = p
least p (q ∷ qs) = least (if ltb q p then q else p) qs

unfoldable pub success : ℕ → Option (List ℕ) → Bool
unfolding least
success self_id none = true
success self_id (some []) = true
success self_id (some (p ∷ ps)) = self_id == least p ps

module _ {ℓ} {T : Type ℓ} where
  -- The node after the write, and the error.
  unfoldable pub tchk_write : Bool → Bool → ℕ → T → Node T → Node T × Option ShmucError
  tchk_write fault late offset value n = if fault then (n, some memio_error) else (
    record n { values = λ k. if k == offset then value else n.values k },
    (if late then some round_overtime else none),
  )

  unfoldable pub tchk_read : Bool → Bool → ℕ → Node T → Option T × Option ShmucError
  tchk_read fault late offset n =
      if fault
      then (none, some memio_error)
      else if late
      then (none, some round_overtime)
      else (some (n.values offset), none)

  -- The write to all nodes: an error is only logged.
  unfoldable pub write_nodes : Turn T → ℕ → T → List (Node T) → Run (List (Node T))
  unfolding tchk_write
  write_nodes t offset value [] = ok []
  write_nodes t offset value (n ∷ ns) =
      let rest = write_nodes t offset value ns in
      do
        assert (ltb offset n.size)
        ns' ← rest
        ok ((tchk_write (t.fails n.id) (t.late n.id) offset value n).0 ∷ ns')

  unfoldable pub write_round : ℕ → Turn T → Received T → Shmuc T → Run (Shmuc T)
  unfolding push_request write_nodes
  write_round self_id t (received req) s = do
    wcc ← push_request s.wcc req.offset self_id
    ns ← write_nodes t req.offset req.data_value s.nodes
    ok (record s { wcc = wcc; nodes = ns; pending = some req })
  write_round self_id t empty s = ok s
  write_round self_id t disconnected s = ok (record s { running = false })

  unfoldable pub read_round : ℕ → Option (Request T) → Shmuc T → Shmuc T
  unfolding check_conflicts success
  read_round self_id none s = s
  read_round self_id (some req) s = record s {
    acks = s.acks ++ (req.ack_tx, success self_id (check_conflicts s.wcc req.offset)) ∷ [];
    pending = none;
  }

  -- The `match` on the round; the view changes do nothing.
  unfoldable pub round_of : ℕ → ShmucRound → Turn T → Shmuc T → Run (Shmuc T)
  unfolding write_round read_round
  round_of self_id write t s = write_round self_id t t.request s
  round_of self_id read t s = ok (read_round self_id s.pending s)
  round_of self_id init t s = ok s
  round_of self_id view_change1 t s = ok s
  round_of self_id view_change2 t s = ok s
  round_of self_id view_change3 t s = ok s
  round_of self_id view_change4 t s = ok s
  round_of self_id pending_view_change t s = ok s
  round_of self_id quit t s = ok s

  -- The loop over the rounds that are given; a closed queue ends it.
  unfoldable pub shmuc : ℕ → List (Turn T) → Shmuc T → Run (Shmuc T)
  unfolding round_of next
  shmuc self_id [] s = ok s
  shmuc self_id (t ∷ ts) s =
      let kind = next s.state t.round_num in
      do
        s' ← round_of self_id kind t (record s { state = kind })
        elim s'.running [ true ↦ shmuc self_id ts s' | false ↦ ok s' ]
