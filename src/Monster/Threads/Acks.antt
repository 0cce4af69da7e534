-- ===== src/Monster/Threads/Acks.antt =====
-- Which requests the threads of src/algorithms/monster.rs acknowledge.
use rep_cxl.Prelude.{◌≡◌, refl, sym, ap, ◌∙◌, Bool, true, false, List, [], ◌∷◌, ◌++◌}
use mathlib.Core.List.{append_assoc, append-nil}
use mathlib.Core.Path.{subst}
use rep_cxl.Prelude.Run.{Run, ok, ◌>>=◌, >>=-eq-ok}
use rep_cxl.Prelude.Words.{add64}
use rep_cxl.Request.{WriteRequest}
use rep_cxl.Shmem.{MemoryNode}
use rep_cxl.Monster.{Tick, Next}
use rep_cxl.Monster.Threads.{
  Received, received, no_request, closed, send_closed, Phase, Turn, WriteThread, after_write,
  serve_write, write_loop,
}
use rep_cxl.Monster.Threads.Written.{
  has_left, queue_closed, successes, successes-first, after_write-nodes, after_write-acks,
  after_write-phase,
}

module _ {ℓ} {T : Type ℓ} where
  module _
      (run : WriteRequest T → List Tick → WriteThread T → Run (Next × List (MemoryNode T))) where
    -- From the nodes `ns`, a thread that ends as `end` has carried out these writes, one for each
    -- request that the turns bring, in their order and with their ticks, each on the nodes as the one
    -- before has left them. It goes on until the turns are over, until it is told to stop or finds the
    -- queue closed, or until a write needs more rounds than its ticks.
    pub data Handles (end : WriteThread T)
        : List (MemoryNode T)
          → List (Turn (WriteRequest T))
          → List (WriteRequest T × Next)
          → Type ℓ where
      no_turns : {ns : List (MemoryNode T)} → end.nodes ≡ ns → Handles end ns [] []
      unfinished :
          {ns : List (MemoryNode T)} {ts : List (Turn (WriteRequest T))}
          → end.nodes ≡ ns
          → end.phase ≡ Phase.in_write
          → Handles end ns ts []
      stopped :
          {ns : List (MemoryNode T)} {t : Turn (WriteRequest T)} {ts : List (Turn (WriteRequest T))}
          → t.stop ≡ true
          → end.nodes ≡ ns
          → Handles end ns (t ∷ ts) []
      queue_gone :
          {ns : List (MemoryNode T)} {t : Turn (WriteRequest T)} {ts : List (Turn (WriteRequest T))}
          → t.stop ≡ false
          → queue_closed t.next_request ≡ true
          → end.nodes ≡ ns
          → Handles end ns (t ∷ ts) []
      no_write :
          {ns : List (MemoryNode T)} {t : Turn (WriteRequest T)} {ts : List (Turn (WriteRequest T))}
          {writes : List (WriteRequest T × Next)}
          → t.stop ≡ false
          → t.next_request ≡ no_request
          → Handles end ns ts writes
          → Handles end ns (t ∷ ts) writes
      write :
          {ns : List (MemoryNode T)} {t : Turn (WriteRequest T)} {ts : List (Turn (WriteRequest T))}
          {writes : List (WriteRequest T × Next)} {req : WriteRequest T} {w : WriteThread T}
          {next : Next} {ns' : List (MemoryNode T)}
          → t.stop ≡ false
          → t.next_request ≡ received req
          → w.nodes ≡ ns
          → run req t.ticks w ≡ ok (next, ns')
          → Handles end ns' ts writes
          → Handles end ns (t ∷ ts) ((req, next) ∷ writes)

    -- What a thread that was `w` has carried out in the turns and acknowledged when it is `w'`.
    abbrev pub Sent : WriteThread T → WriteThread T → List (Turn (WriteRequest T)) → Type ℓ
    Sent w w' ts =
        (writes : List (WriteRequest T × Next)) × Handles w' w.nodes ts writes
        × (w'.acks ≡ w.acks ++ successes writes)

    Sent-nothing :
        (w w' : WriteThread T) (ts : List (Turn (WriteRequest T)))
        → w'.acks ≡ w.acks
        → Handles w' w.nodes ts []
        → Sent w w' ts
    Sent-nothing w w' ts acks handled = ([], handled, acks ∙ sym (append-nil w.acks))

    -- A thread that has left its loop stays as it is.
    write_loop-exited :
        (ts : List (Turn (WriteRequest T))) (w : WriteThread T) {w' : WriteThread T}
        → write_loop run ts (record w { phase = Phase.exited }) ≡ ok w'
        → record w { phase = Phase.exited } ≡ w'
    unfolding write_loop
    write_loop-exited [] w h =
        let e : ◌≡◌ {A = Run (WriteThread T)} (ok (record w { phase = Phase.exited })) (ok _) = h in
        cc
    write_loop-exited (t ∷ ts) w h =
        let e : ◌≡◌ {A = Run (WriteThread T)} (ok (record w { phase = Phase.exited })) (ok _) = h in
        cc

    Sent-queue_gone :
        (t : Turn (WriteRequest T)) (ts : List (Turn (WriteRequest T))) (w x w' : WriteThread T)
        → t.stop ≡ false
        → queue_closed t.next_request ≡ true
        → ◌≡◌ {A = Run (WriteThread T)} (ok (record w { phase = Phase.exited })) (ok x)
        → write_loop run ts x ≡ ok w'
        → Sent w w' (t ∷ ts)
    Sent-queue_gone t ts w x w' goes gone h later =
        let first : record w { phase = Phase.exited } ≡ x = cc in
        let same : record w { phase = Phase.exited } ≡ w' =
          write_loop-exited ts w (ap (write_loop run ts) first ∙ later) in
        Sent-nothing w w' (t ∷ ts) (ap (λ y. y.acks) (sym same))
          (queue_gone goes gone (ap (λ y. y.nodes) (sym same)))

    serve_write-Sent :
        (t : Turn (WriteRequest T)) (ts : List (Turn (WriteRequest T)))
        (recv : Received (WriteRequest T)) (w x w' : WriteThread T)
        → t.stop ≡ false
        → t.next_request ≡ recv
        → has_left w.phase ≡ false
        → serve_write run t.ticks recv w ≡ ok x
        → write_loop run ts x ≡ ok w'
        → (has_left x.phase ≡ false → Sent x w' ts)
        → Sent w w' (t ∷ ts)
    unfolding serve_write
    serve_write-Sent t ts (received req) w x w' goes came here h later rest =
        let ((next, ns), ran, end) = >>=-eq-ok (run req t.ticks w) _ h in
        let same : after_write req w (next, ns) ≡ x = cc in
        let nodes : x.nodes ≡ ns = ap (λ y. y.nodes) (sym same) ∙ after_write-nodes req w next ns in
        let acks : x.acks ≡ w.acks ++ successes ((req, next) ∷ []) =
          ap (λ y. y.acks) (sym same) ∙ after_write-acks req w next ns in
        let (writes, handled, sent) =
          rest (ap (λ y. has_left y.phase) (sym same) ∙ after_write-phase req w next ns here) in
        (
          (req, next) ∷ writes,
          write goes came refl ran (subst (λ y. Handles w' y ts writes) nodes handled),
          sent
              ∙ ap (λ l. l ++ successes writes) acks
              ∙ append_assoc w.acks (successes ((req, next) ∷ [])) (successes writes)
              ∙ ap (λ l. w.acks ++ l) (sym (successes-first req next writes)),
        )
    serve_write-Sent t ts no_request w x w' goes came here h later rest =
        let same : record w {
          stats = record w.stats { empty_requests = add64 w.stats.empty_requests 1 };
        }
            ≡ x =
          cc in
        let (writes, handled, sent) = rest (ap (λ y. has_left y.phase) (sym same) ∙ here) in
        (
          writes,
          no_write goes came
              (subst (λ ns. Handles w' ns ts writes) (ap (λ y. y.nodes) (sym same)) handled),
          sent ∙ ap (λ y. y.acks ++ successes writes) (sym same),
        )
    serve_write-Sent t ts closed w x w' goes came here h later rest =
        Sent-queue_gone t ts w x w' goes (ap queue_closed came) h later
    serve_write-Sent t ts send_closed w x w' goes came here h later rest =
        Sent-queue_gone t ts w x w' goes (ap queue_closed came) h later

    -- One turn and the turns behind it.
    turn-Sent :
        (phase : Phase) (stop : Bool) (t : Turn (WriteRequest T))
        (ts : List (Turn (WriteRequest T))) (w w' : WriteThread T)
        → w.phase ≡ phase
        → t.stop ≡ stop
        → has_left w.phase ≡ false
        → ((x : WriteThread T)
            → has_left x.phase ≡ false
            → write_loop run ts x ≡ ok w'
            → Sent x w' ts)
        → ◌≡◌ {A = Run (WriteThread T)}
            (elim phase [
              | Phase.in_write ↦ ok w
              | Phase.exited ↦ ok w
              | Phase.serving ↦ elim stop [
                | true ↦ ok (record w { phase = Phase.exited })
                | false ↦ serve_write run t.ticks t.next_request w >>= write_loop run ts
              ]
            ])
            (ok w')
        → Sent w w' (t ∷ ts)
    turn-Sent Phase.in_write stop t ts w w' at said here rest h =
        let same : w ≡ w' = cc in
        Sent-nothing w w' (t ∷ ts) (ap (λ y. y.acks) (sym same))
          (unfinished (ap (λ y. y.nodes) (sym same)) (ap (λ y. y.phase) (sym same) ∙ at))
    turn-Sent Phase.exited stop t ts w w' at said here rest h =
        absurd (let gone : true ≡ false = sym (ap has_left at) ∙ here in cc)
    turn-Sent Phase.serving true t ts w w' at said here rest h =
        let same : record w { phase = Phase.exited } ≡ w' = cc in
        Sent-nothing w w' (t ∷ ts) (ap (λ y. y.acks) (sym same))
          (stopped said (ap (λ y. y.nodes) (sym same)))
    turn-Sent Phase.serving false t ts w w' at said here rest h =
        let (x, served, later) = >>=-eq-ok (serve_write run t.ticks t.next_request w) _ h in
        serve_write-Sent t ts t.next_request w x w' said refl here served later
          (λ still. rest x still later)

    -- What the loop of a write thread that has not left it has done when it stops, for any write
    -- function: it has called the write function once for each request that came, in their order, on
    -- the nodes as the call before has left them, until the turns were over, it was told to stop, the
    -- queue was closed, or a call needed more rounds than were given; the nodes are as the last call has
    -- left them; and it has sent, in the order of these calls, exactly one acknowledgement, with
    -- `true`, for each that returned success, and none for the others.
    pub write_loop-Sent :
        (turns : List (Turn (WriteRequest T))) (w : WriteThread T) {w' : WriteThread T}
        → has_left w.phase ≡ false
        → write_loop run turns w ≡ ok w'
        → Sent w w' turns
    unfolding write_loop
    write_loop-Sent [] w {w'} here h =
        let same : w ≡ w' = cc in
        Sent-nothing w w' [] (ap (λ y. y.acks) (sym same)) (no_turns (ap (λ y. y.nodes) (sym same)))
    write_loop-Sent (t ∷ ts) w {w'} here h =
        turn-Sent w.phase t.stop t ts w w' refl refl here (λ x. write_loop-Sent ts x {w' = w'}) h
