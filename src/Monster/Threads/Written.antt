-- ===== src/Monster/Threads/Written.antt =====
-- What a write thread of src/algorithms/monster.rs is after one call of its write function.
use rep_cxl.Prelude.{ℕ, ◌≡◌, refl, sym, Bool, true, false, List, [], ◌∷◌, ◌++◌}
use mathlib.Core.List.{append-nil}
use rep_cxl.Request.{WriteRequest}
use rep_cxl.Shmem.{MemoryNode}
use rep_cxl.Monster.{WriteResult, Next, goes_on, returns}
use rep_cxl.Monster.Threads.{
  Received, received, no_request, closed, send_closed, Phase, WriteThread, after_write,
}

abbrev pub has_left : Phase → Bool
has_left Phase.serving = false
has_left Phase.in_write = false
has_left Phase.exited = true

module _ {ℓ} {T : Type ℓ} where
  abbrev pub queue_closed : Received (WriteRequest T) → Bool
  queue_closed (received req) = false
  queue_closed no_request = false
  queue_closed closed = true
  queue_closed send_closed = true

  -- The acknowledgements of the writes that succeeded, in their order.
  abbrev pub successes : List (WriteRequest T × Next) → List (ℕ × Bool)
  successes [] = []
  successes ((req, returns WriteResult.written v) ∷ writes) = (req.ack_tx, true) ∷ successes writes
  successes ((req, next) ∷ writes) = successes writes

  pub successes-first :
      (req : WriteRequest T) (next : Next) (writes : List (WriteRequest T × Next))
      → successes ((req, next) ∷ writes) ≡ successes ((req, next) ∷ []) ++ successes writes
  successes-first req (goes_on v) writes = refl
  successes-first req (returns WriteResult.written v) writes = refl
  successes-first req (returns (WriteResult.replication_failed k) v) writes = refl
  successes-first req (returns (WriteResult.post_conflict_failed k) v) writes = refl
  successes-first req (returns WriteResult.not_supported v) writes = refl
  successes-first req (returns WriteResult.send_failed v) writes = refl
  successes-first req (returns WriteResult.failed_write v) writes = refl
  successes-first req (returns WriteResult.ack_lost v) writes = refl

  pub after_write-nodes :
      (req : WriteRequest T) (w : WriteThread T) (next : Next) (ns : List (MemoryNode T))
      → (after_write req w (next, ns)).nodes ≡ ns
  after_write-nodes req w (goes_on v) ns = refl
  after_write-nodes req w (returns WriteResult.written v) ns = refl
  after_write-nodes req w (returns (WriteResult.replication_failed k) v) ns = refl
  after_write-nodes req w (returns (WriteResult.post_conflict_failed k) v) ns = refl
  after_write-nodes req w (returns WriteResult.not_supported v) ns = refl
  after_write-nodes req w (returns WriteResult.send_failed v) ns = refl
  after_write-nodes req w (returns WriteResult.failed_write v) ns = refl
  after_write-nodes req w (returns WriteResult.ack_lost v) ns = refl

  pub after_write-acks :
      (req : WriteRequest T) (w : WriteThread T) (next : Next) (ns : List (MemoryNode T))
      → (after_write req w (next, ns)).acks ≡ w.acks ++ successes ((req, next) ∷ [])
  after_write-acks req w (goes_on v) ns = sym (append-nil w.acks)
  after_write-acks req w (returns WriteResult.written v) ns = refl
  after_write-acks req w (returns (WriteResult.replication_failed k) v) ns = sym (append-nil w.acks)
  after_write-acks req w (returns (WriteResult.post_conflict_failed k) v) ns =
      sym (append-nil w.acks)
  after_write-acks req w (returns WriteResult.not_supported v) ns = sym (append-nil w.acks)
  after_write-acks req w (returns WriteResult.send_failed v) ns = sym (append-nil w.acks)
  after_write-acks req w (returns WriteResult.failed_write v) ns = sym (append-nil w.acks)
  after_write-acks req w (returns WriteResult.ack_lost v) ns = sym (append-nil w.acks)

  pub after_write-phase :
      (req : WriteRequest T) (w : WriteThread T) (next : Next) (ns : List (MemoryNode T))
      → has_left w.phase ≡ false
      → has_left (after_write req w (next, ns)).phase ≡ false
  after_write-phase req w (goes_on v) ns here = refl
  after_write-phase req w (returns WriteResult.written v) ns here = here
  after_write-phase req w (returns (WriteResult.replication_failed k) v) ns here = here
  after_write-phase req w (returns (WriteResult.post_conflict_failed k) v) ns here = here
  after_write-phase req w (returns WriteResult.not_supported v) ns here = here
  after_write-phase req w (returns WriteResult.send_failed v) ns here = here
  after_write-phase req w (returns WriteResult.failed_write v) ns here = here
  after_write-phase req w (returns WriteResult.ack_lost v) ns here = here
