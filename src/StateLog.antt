-- ===== src/StateLog.antt =====
-- src/utils/ms_logger.rs: the log of the states of the write algorithms, which the tests read back.
-- The log is the text of its file, to which a line is written at the end. Opening the file, and
-- lines that are not UTF-8, are left out.
pub mod RoundTrip
pub mod Asserted
use Prim.Native.Nat.{ℕ, ◌^◌}
use rep_cxl.Prelude.{
  ◌==◌, if◌then◌else◌, Bool, true, false, ◌&&◌, Option, none, some, List, [], ◌∷◌, ◌++◌, map,
  length,
}
use rep_cxl.Prelude.Run.{Run, assert, ◌>>◌}
use rep_cxl.Prelude.Text.{Text, codes, trim, splitn, lines, print, parse, same}
use rep_cxl.Monster.{
  MonsterState, try, retry, check, replicate, wait, post_conflict_check, LogEntry,
}

pub record MonsterStateLogEntry : Type 0 where
  pub round_num : ℕ
  pub state : Text
  pub object_id : ℕ

-- `Display` of `MonsterState`
abbrev pub display : MonsterState → Text
display try = codes "Try"
display retry = codes "Retry"
display check = codes "Check"
display replicate = codes "Replicate"
display wait = codes "Wait"
display post_conflict_check = codes "PostConflictCheck"

-- `{},{},{}`
unfoldable pub log_line : ℕ → MonsterState → ℕ → Text
unfolding print
log_line round_num state object_id =
    print round_num ++ b',' ∷ (display state ++ b',' ∷ print object_id)

unfoldable pub log_monster : Text → ℕ → MonsterState → ℕ → Text
unfolding log_line
log_monster log round_num state object_id = log ++ (log_line round_num state object_id ++ 10 ∷ [])

abbrev pub with_numbers : Option ℕ → Text → Option ℕ → Option MonsterStateLogEntry
with_numbers none state o = none
with_numbers (some r) state none = none
with_numbers (some r) state (some o) = some (record { round_num = r; state = state; object_id = o })

abbrev pub of_parts : List Text → Option MonsterStateLogEntry
unfolding parse
of_parts [] = none
of_parts (a ∷ []) = none
of_parts (a ∷ b ∷ []) = none
of_parts (a ∷ b ∷ c ∷ []) = with_numbers (parse (2 ^ 64) a) b (parse (2 ^ 64) c)
of_parts (a ∷ b ∷ c ∷ d ∷ rest) = none

abbrev pub of_trimmed : Text → Option MonsterStateLogEntry
unfolding splitn parse
of_trimmed [] = none
of_trimmed (c ∷ cs) = of_parts (splitn 3 b',' (c ∷ cs))

-- The closure of `filter_map`.
unfoldable pub read_line : Text → Option MonsterStateLogEntry
unfolding trim splitn parse
read_line line = of_trimmed (trim line)

abbrev pub keep {ℓ} : {A : Type ℓ} → Option A → List A → List A
keep none rest = rest
keep (some a) rest = a ∷ rest

unfoldable pub read_lines : List Text → List MonsterStateLogEntry
unfolding read_line
read_lines [] = []
read_lines (l ∷ ls) = keep (read_line l) (read_lines ls)

unfoldable pub read_monster_log : Text → List MonsterStateLogEntry
unfolding read_lines lines
read_monster_log log = read_lines (lines log)

unfoldable pub read_monster_states : Text → List Text
unfolding read_monster_log
read_monster_states log = map (λ e. e.state) (read_monster_log log)

unfoldable pub clear : Text → Text
clear log = []

-- The `assert_eq!` of the loop over both lists.
abbrev pub assert_each : List Text → List Text → Run (Unit {0})
unfolding same
assert_each [] expected = assert true
assert_each (a ∷ actual) [] = assert true
assert_each (a ∷ actual) (e ∷ expected) = assert (same a e) >> assert_each actual expected

unfoldable pub assert_states : Text → List Text → Run (Unit {0})
unfolding read_monster_states assert_each
assert_states log expected =
    let actual = read_monster_states log in
    assert (length actual == length expected) >> assert_each actual expected
