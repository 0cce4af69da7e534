-- ===== src/Tests/Monster.antt =====
-- A write without contention, two candidates of one round, and the threads, at concrete inputs.
use rep_cxl.Prelude.{
  ℕ, zero, set, ◌/◌, ◌%◌, suc, ◌<◌, ◌==◌, ◌≡◌, ◌≢◌, refl, sym, ap, true, false, some, List, [], ◌∷◌,
  get_elem?, replicate, arith,
}
use mathlib.Core.Option.{some-injective}
use rep_cxl.Prelude.Run.{ok}
use rep_cxl.Prelude.Words.{add64}
use rep_cxl.Prelude.Bits.{bit_at-zero}
use rep_cxl.Wcc.Object
use rep_cxl.Wcc.Object.{Entry, no_winner}
use rep_cxl.Wcc.Bitmap
use rep_cxl.Wcc.Bitmap.{Bitmap, set_bit}
use rep_cxl.Wcc.Bitmap.Members.{IsValid, member, new-IsValid, set_bit-IsValid, member-set_bit}
use rep_cxl.Request.{WriteRequest}
use rep_cxl.Shmem.{ObjectMemoryEntry, MemoryNode, store, new_state, min_by_id, update_at}
use rep_cxl.Memio.{mem_writeall}
use rep_cxl.Memio.Replicas.{AllHold}
use rep_cxl.Monster.{
  MonsterState, new_stats, Tick, Vars, WriteResult, goes_on, returns, Call, initial, begin_round,
  update_sync_failure, is_overtime, with_overtime_replicate,
}
use rep_cxl.Monster.Classic.{
  after_try, after_check, record_attempt, monster_arm, monster_round, monster_loop,
}
use rep_cxl.Monster.Fast.{fmonster_round}
use rep_cxl.Monster.Uncontended.{Alone, monster_loop-uncontended}
use rep_cxl.Monster.Race.{IsLeast, fmonster_round-both_replicate}
use rep_cxl.Monster.Success.{NoneSmaller, monster_loop-written}
use rep_cxl.Monster.Threads.{
  received, no_request, Phase, Turn, WriteThread, WriteEnv, monster_write_call, write_loop, fresh,
}
use rep_cxl.Monster.Threads.Acks.{Sent, write_loop-Sent}
use rep_cxl.Tests.Nodes.{node, three, no_failure}

abbrev pub call_of : ℕ → Call ℕ
call_of p = record {
  self_id = p;
  round_time = 100;
  obj_info = record { id = 1; offset = 64; size = 64 };
  value = 7;
}

abbrev pub tick : ℕ → Tick
tick r = record { round_num = r; round_start = 0; now = 0; fails = no_failure }

pub replicate_entries : (n k : ℕ) (a e : Entry) → get_elem? (replicate n a) k ≡ some e → e ≡ a
replicate_entries zero k a e h = absurd (cc)
replicate_entries (suc n) zero a e h = sym (some-injective _ _ h)
replicate_entries (suc n) (suc k) a e h = replicate_entries n k a e h

nobody_tried : Alone Object.new 3 1 2
nobody_tried k e at other same =
    let blank = replicate_entries 512 k (record { oid = 0; round = 0 }) e at in
    let zero_id : e.oid ≡ 0 = ap (λ (x : Entry). x.oid) blank in absurd (omega arith)

monster_loop-uncontended_example :
    (v : Vars) × (ns' : List (MemoryNode ℕ)) × (monster_loop
        (call_of 3)
        (tick 2 ∷ tick 4 ∷ tick 5 ∷ [])
        (initial new_stats false)
        three
      ≡ ok (returns WriteResult.written v, ns'))
    × AllHold no_failure 64
        (record { wid = record { round_num = 2; process_id = 3 }; value = 7 })
        ns'
unfolding min_by_id new_state
monster_loop-uncontended_example =
    monster_loop-uncontended (call_of 3) (tick 2) (tick 4) (tick 5) three (node 0) refl [] new_stats
      false (omega arith) refl nobody_tried
      ((omega arith, refl), ((omega arith, refl), ((omega arith, refl), tt)))

-- Processes 2 and 5 are the candidates for object 1.
abbrev two_candidates : Bitmap
unfolding set_bit
two_candidates = set_bit (set_bit Bitmap.new 2 true) 5 true

abbrev contended_node : MemoryNode ℕ
unfolding set_bit new_state
contended_node =
    let n = node 0 in
    let s = n.state in
    record n {
      state = record s { fwcc = record { obm = set (replicate 1000 Bitmap.new) 1 two_candidates } };
    }

no_candidate : (q : ℕ) → q < 64 → member Bitmap.new q ≡ false
no_candidate q small = let first : q / 64 ≡ 0 = omega arith in rw first (bit_at-zero (q % 64))

IsValid-once : IsValid (set_bit Bitmap.new 2 true)
IsValid-once = set_bit-IsValid Bitmap.new 2 true new-IsValid

no_third : (k : ℕ) → k < 5 → k ≢ 2 → member two_candidates k ≡ false
unfolding two_candidates
no_third k low other =
    let far : (5 == k) ≡ false = ground (arith, low) in
    let apart : (2 == k) ≡ false = ground (arith, λ (e : k ≡ 2). other e) in
    rw
      (
        member-set_bit (set_bit Bitmap.new 2 true) 5 true k IsValid-once (omega arith),
        member-set_bit Bitmap.new 2 true k new-IsValid (omega arith),
        far,
        apart,
      )
      (no_candidate k (omega arith))

IsLeast-two : IsLeast two_candidates 2
unfolding set_bit
IsLeast-two = record {
  candidate = refl;
  least = λ q low. no_third q (omega arith) (λ e. absurd (omega (arith, e, low)));
}

abbrev checking : Vars
checking = record (initial new_stats false) { state = MonsterState.check }

fmonster_round-both_replicate_example :
    (v' : Vars) × (w' : Vars) × (ns' : List (MemoryNode ℕ)) × (ns'' : List (MemoryNode ℕ))
    × (fmonster_round (call_of 2) (tick 3) checking (contended_node ∷ []) ≡ ok (goes_on v', ns'))
    × (fmonster_round (call_of 5) (tick 3) checking ns' ≡ ok (goes_on w', ns''))
    × (v'.state ≡ MonsterState.replicate)
    × (w'.state ≡ MonsterState.replicate)
unfolding min_by_id contended_node
fmonster_round-both_replicate_example =
    fmonster_round-both_replicate (call_of 2) (call_of 5) (tick 3) (tick 3) checking checking
      (contended_node ∷ []) contended_node two_candidates refl refl refl (omega arith) refl
      (omega arith) (omega arith) refl
      (set_bit-IsValid (set_bit Bitmap.new 2 true) 5 true IsValid-once) IsLeast-two (omega arith)
      refl (λ k low other. no_third k low other)

abbrev own_entry : ObjectMemoryEntry ℕ
own_entry = record { wid = record { round_num = 2; process_id = 3 }; value = 7 }

abbrev ready_to_write : Vars
ready_to_write = record (initial new_stats false) {
  state = MonsterState.replicate;
  wid = record { round_num = 2; process_id = 3 };
}

abbrev stored_nodes : List (MemoryNode ℕ)
unfolding store
stored_nodes =
    store 64 own_entry (node 0) ∷ store 64 own_entry (node 1) ∷ store 64 own_entry (node 2) ∷ []

monster_loop-written_example :
    NoneSmaller 64 (record { round_num = 2; process_id = 3 }) stored_nodes
unfolding monster_loop monster_round monster_arm min_by_id mem_writeall begin_round
    update_sync_failure store new_state add64
monster_loop-written_example =
    monster_loop-written (call_of 3) (tick 5 ∷ []) ready_to_write three
      {v' = with_overtime_replicate (call_of 3) (tick 5) (begin_round 1 (tick 5) ready_to_write)}
      {ns' = stored_nodes} refl

abbrev request : WriteRequest ℕ
request = record {
  obj_info = record { id = 1; offset = 64; size = 64 };
  value = 7;
  ack_tx = 90;
  trace_id = 0;
  enqueue_at = 0;
}

abbrev turns : List (Turn (WriteRequest ℕ))
turns =
    record { stop = false; next_request = received request; ticks = tick 2 ∷ tick 4 ∷ tick 5 ∷ [] }
    ∷ record { stop = false; next_request = no_request; ticks = [] }
    ∷ []

abbrev env : WriteEnv
env = record { self_id = 3; round_time = 100; logging = false }

abbrev tried_node : MemoryNode ℕ
unfolding Object.write new_state
tried_node =
    let n = node 0 in
    let s = n.state in record n { state = record s { owcc = Object.write Object.new 1 2 3 } }

abbrev served : WriteThread ℕ
unfolding store Object.write new_state
served = record {
  phase = Phase.serving;
  stats = record new_stats { sync_failures = 1; empty_requests = 1; prev_round = 5 };
  acks = (90, true) ∷ [];
  nodes =
      store 64 own_entry tried_node
      ∷ store 64 own_entry (node 1)
      ∷ store 64 own_entry (node 2)
      ∷ [];
}

write_loop-Sent_example : Sent (monster_write_call env) (fresh three) served turns
unfolding write_loop monster_write_call monster_loop monster_round monster_arm min_by_id update_at
    record_attempt mem_writeall begin_round update_sync_failure store new_state add64 after_try
    after_check is_overtime Object.write Object.is_last no_winner
write_loop-Sent_example = write_loop-Sent (monster_write_call env) turns (fresh three) refl refl
