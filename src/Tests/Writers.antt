-- ===== src/Tests/Writers.antt =====
-- Two writers of one object that try it in the same round.
use rep_cxl.Prelude.{ℕ, ◌≡◌, refl, false, List, [], ◌∷◌, replicate, arith}
use rep_cxl.Prelude.Words.{add64}
use rep_cxl.Wcc.Object
use rep_cxl.Wcc.Object.{Entry, ObjectWcc, no_winner}
use rep_cxl.Shmem.{MemoryNode, new_state, min_by_id, update_at}
use rep_cxl.Monster.{
  MonsterState, MonsterStats, new_stats, Tick, Vars, goes_on, Call, initial, begin_round,
  update_sync_failure, is_overtime,
}
use rep_cxl.Monster.Classic.{after_try, after_check, record_attempt, monster_arm, monster_round}
use rep_cxl.Monster.Writers.{
  Writer, Board, set_writer, next_round, acts, Reachable, at_start, after,
}
use rep_cxl.Monster.Writers.OneWinner.{Fresh, one_winner}
use rep_cxl.Prelude.Run.{ok}
use rep_cxl.Memio.{mem_readall}
use rep_cxl.Monster.Conflict.{monster_arm-loser}
use rep_cxl.Tests.Nodes.{node}

abbrev call_of : ℕ → Call ℕ
call_of p = record {
  self_id = p;
  round_time = 100;
  obj_info = record { id = 1; offset = 64; size = 64 };
  value = p;
}

abbrev tick : ℕ → Tick
tick r = record { round_num = r; round_start = 0; now = 0; fails = λ id. false }

abbrev none_tried : Entry
none_tried = record { oid = 0; round = 0 }

abbrev second_round : Entry
second_round = record { oid = 1; round = 2 }

-- The nodes with a checker of the given entries at the master.
abbrev nodes_with : List Entry → List (MemoryNode ℕ)
nodes_with es =
    let n = node 0 in
    let s = n.state in
    record n { state = record s { owcc = record { p_round = es } } } ∷ node 1 ∷ []

abbrev no_entries : List Entry
no_entries = replicate 512 none_tried

abbrev one_entry : List Entry
one_entry = none_tried ∷ second_round ∷ replicate 510 none_tried

abbrev both_entries : List Entry
both_entries = none_tried ∷ second_round ∷ second_round ∷ replicate 509 none_tried

abbrev stats_of : ℕ → MonsterStats
stats_of r = record new_stats { prev_round = r }

abbrev vars_of : ℕ → MonsterState → ℕ → Vars
vars_of r s p = record (initial (stats_of r) false) {
  state = s;
  wid = record { round_num = 2; process_id = p };
}

abbrev writer : ℕ → Writer ℕ
writer p = record { call = call_of p; vars = initial new_stats false; last = 0 }

abbrev tried_by : ℕ → Writer ℕ
tried_by p = record { call = call_of p; vars = vars_of 2 MonsterState.check p; last = 2 }

abbrev winner : Writer ℕ
winner = record { call = call_of 2; vars = vars_of 3 MonsterState.replicate 2; last = 3 }

abbrev first_board : Board ℕ
first_board = record { round = 2; writers = writer; nodes = nodes_with no_entries }

abbrev last_board : Board ℕ
last_board = record {
  round = 3;
  writers = set_writer 2 winner (set_writer 2 (tried_by 2) (set_writer 1 (tried_by 1) writer));
  nodes = nodes_with both_entries;
}

reached : Reachable first_board last_board
unfolding monster_round monster_arm begin_round update_sync_failure is_overtime add64 after_try
    after_check record_attempt min_by_id update_at Object.write Object.is_last no_winner new_state
reached =
    after
      (after
        (after
          (after at_start (
            acts 1 (tick 2) (vars_of 2 MonsterState.check 1) (nodes_with one_entry) (omega arith)
              refl (omega arith) refl))
          (acts 2 (tick 2) (vars_of 2 MonsterState.check 2) (nodes_with both_entries) (omega arith)
            refl (omega arith) refl))
        next_round)
      (acts 2 (tick 3) (vars_of 3 MonsterState.replicate 2) (nodes_with both_entries) (omega arith)
        refl (omega arith) refl)

fresh : Fresh first_board
unfolding min_by_id
fresh =
    ((record { p_round = no_entries }, (_, refl, refl), refl), λ p small. (refl, refl, omega arith))

one_winner_example : ◌≡◌ {A = ℕ} 2 2
one_winner_example =
    one_winner first_board last_board 2 2 fresh reached (omega arith) (omega arith) refl refl refl
      refl

-- Process 1 lost to process 2, which has written the node.
abbrev written_by_two : List (MemoryNode ℕ)
written_by_two =
    let n = node 0 in
    record n {
      objects = λ offset. record { wid = record { round_num = 2; process_id = 2 }; value = 2 };
    }
    ∷ []

monster_arm-loser_example :
    monster_arm
      (call_of 1)
      (tick 5)
      (node 0)
      MonsterState.post_conflict_check
      (vars_of 4 MonsterState.post_conflict_check 1)
      written_by_two
    ≡ ok (goes_on (vars_of 4 MonsterState.retry 1), written_by_two)
unfolding mem_readall
monster_arm-loser_example =
    monster_arm-loser (call_of 1) (tick 5) (node 0) (vars_of 4 MonsterState.post_conflict_check 1)
      written_by_two (record { wid = record { round_num = 2; process_id = 2 }; value = 2 } ∷ []) 0
      (record { wid = record { round_num = 2; process_id = 2 }; value = 2 }) refl refl refl
      (omega arith)
