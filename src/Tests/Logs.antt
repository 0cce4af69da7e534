-- ===== src/Tests/Logs.antt =====
-- The log of states, the processes of a configuration and the arguments, at concrete inputs.
use rep_cxl.Prelude.{◌<◌, ◌≤◌, ◌≡◌, refl, ◌↔◌, true, none, some, List, [], ◌∷◌, ◌++◌, arith}
use rep_cxl.Prelude.Text.{codes, print}
use rep_cxl.Wcc.{max_processes}
use rep_cxl.Monster.{MonsterState, LogEntry}
use rep_cxl.StateLog.{read_monster_log}
use rep_cxl.StateLog.RoundTrip.{log_all, read_monster_log-log_all}
use rep_cxl.Config.Checks.{NotEmpty, CoreAllowed}
use rep_cxl.Config.Args.{Args, parse, override_with, parse_iff}
use rep_cxl.Tests.Group.{config}

abbrev two_entries : List LogEntry
two_entries =
    record { round_num = 7; state = MonsterState.try; object_id = 12 }
    ∷ record { round_num = 8; state = MonsterState.post_conflict_check; object_id = 12 }
    ∷ []

read_monster_log-log_all_example :
    read_monster_log (log_all [] two_entries)
    ≡ record { round_num = 7; state = codes "Try"; object_id = 12 }
      ∷ record { round_num = 8; state = codes "PostConflictCheck"; object_id = 12 }
      ∷ []
read_monster_log-log_all_example =
    read_monster_log-log_all two_entries
      ((omega arith, omega arith), ((omega arith, omega arith), tt))

logged :
    log_all [] two_entries ≡ codes "7,Try,12" ++ 10 ∷ (codes "8,PostConflictCheck,12" ++ 10 ∷ [])
unfolding log_all print
logged = refl

-- Process 2 of 3, over the file of two processes.
abbrev args : Args (Unit {0})
args = record {
  config = some (some (config 1));
  startup_delay = none;
  round_time = some 5000;
  id = some 2;
  processes = some 3;
  algorithm = none;
  pipeline = some true;
  read_retries = none;
  core_affinity = none;
}

parse_iff_example : (parse args (config 0) ≡ some (override_with args (config 1))) ↔ (
    (override_with args (config 1) ≡ override_with args (config 1))
    × (2 < 3)
    × (3 ≤ max_processes)
    × NotEmpty (config 1).mem_nodes
    × CoreAllowed (some 1))
parse_iff_example =
    parse_iff args (config 0) (config 1) (override_with args (config 1)) 2 3 refl refl refl
      (omega arith)
