-- ===== src/Tests/Ycsb.antt =====
-- A small YCSB trace, and a replay of it.
use rep_cxl.Prelude.{
  ℕ, zero, suc, ◌*◌, ◌<◌, ◌≤◌, ◌≡◌, refl, ◌↔◌, false, none, some, Option, List, [], ◌∷◌, ◌++◌, map,
  replicate, arith,
}
use rep_cxl.Prelude.Run.{Run, ok, panic}
use rep_cxl.Prelude.Text.{Text, codes, lines, same}
use rep_cxl.Prelude.Text.Search.{has}
use rep_cxl.Prelude.Text.Names.{is_letter_or_digit, IsName}
use rep_cxl.ObjectIndex
use rep_cxl.ObjectIndex.{ObjectIndex, ObjectInfo, lookup_object}
use rep_cxl.Request.{ReadReturn, read_safe}
use rep_cxl.Shmem.{MemoryNode, new_state}
use rep_cxl.Monster.{WriteResult}
use rep_cxl.RepCxl.{RepCxl, RepCxlObject, instance_of, get_object, object_of}
use rep_cxl.Ycsb.{insert, read, YcsbOp, properties_of, read_properties, parse_ycsb_trace}
use rep_cxl.Ycsb.Malformed.{delimiters, parse_ycsb_trace-panics}
use rep_cxl.Ycsb.RoundTrip.{TraceLine, read_line, insert_line, op_in, line_of}
use rep_cxl.Ycsb.Trace.{file_of, parse_ycsb_trace-file_of}
use rep_cxl.Ycsb.Client.{no_metrics, replica_load, with_warmup, count_one, run_phase, object_of_key}
use rep_cxl.Ycsb.Client.Loaded.{replica_load-shifts}
use rep_cxl.Ycsb.Client.Counted.{Answer, AllAnswered, Counts, run_phase-Counts}
use rep_cxl.Tests.Group.{config}

abbrev no_float : Text → Option (Unit {0})
no_float cs = none

abbrev stars : Text
stars = codes "*****"

abbrev header : List Text
header = codes "recordcount=2" ∷ []

abbrev trace_lines : List TraceLine
trace_lines =
    insert_line (codes "usertable") (codes "user1") (codes "field0") (codes "abc")
    ∷ read_line (codes "usertable") (codes "user1")
    ∷ []

table : IsName (codes "usertable")
unfolding is_letter_or_digit
table = (refl, (refl, (refl, (refl, (refl, (refl, (refl, (refl, (refl, tt)))))))))

key : IsName (codes "user1")
unfolding is_letter_or_digit
key = (refl, (refl, (refl, (refl, (refl, tt)))))

field : IsName (codes "field0")
unfolding is_letter_or_digit
field = (refl, (refl, (refl, (refl, (refl, (refl, tt))))))

parse_ycsb_trace-file_of_example :
    parse_ycsb_trace tt no_float (file_of (stars ∷ (header ++ stars ∷ map line_of trace_lines)))
    ≡ ok (properties_of tt no_float (read_properties header []), map op_in trace_lines)
unfolding has
parse_ycsb_trace-file_of_example =
    parse_ycsb_trace-file_of tt no_float [] header stars stars trace_lines tt (refl, tt) refl refl
      (omega arith) ((table, key, field, omega arith), ((table, key), tt))

parse_ycsb_trace-panics_example :
    (parse_ycsb_trace tt no_float (codes "READ usertable user1 [ <all fields>]") ≡ panic)
    ↔ (delimiters (lines (codes "READ usertable user1 [ <all fields>]")) < 2)
parse_ycsb_trace-panics_example =
    parse_ycsb_trace-panics tt no_float (codes "READ usertable user1 [ <all fields>]")

abbrev object : ℕ → RepCxlObject
object k = object_of (record { id = k; offset = 64 * k; size = 64 })

-- A node whose index has objects 0 and 1.
abbrev loaded_node : MemoryNode (List ℕ)
unfolding new_state ObjectIndex.new
loaded_node =
    let s = new_state 4096 64 in
    let ix = s.object_index in
    record {
      id = 0;
      size = 4096;
      state = record s {
        object_index = record ix {
          allocated_size = 128;
          object_index =
              some (record { id = 0; offset = 0; size = 64 })
              ∷ some (record { id = 1; offset = 64; size = 64 })
              ∷ replicate 998 none;
        };
      };
      objects = λ offset. record { wid = record { round_num = 0; process_id = 0 }; value = [] };
    }

abbrev empty_node : MemoryNode (List ℕ)
unfolding new_state
empty_node = record loaded_node { state = new_state 4096 64 }

abbrev node_at : ℕ → MemoryNode (List ℕ)
node_at zero = empty_node
node_at (suc n) = loaded_node

-- At the first call the coordinator has not yet created an object.
abbrev seen : ℕ → RepCxl (Unit {0}) (List ℕ)
seen n =
    instance_of (config 1) 0
      (record { self_id = 1; processes = 1 ∷ 0 ∷ []; memory_nodes = node_at n ∷ [] })

abbrev insertion : Text → YcsbOp
insertion key = record { op_type = insert; table = codes "t"; key = key; fields = [] }

found_later : (m j : ℕ) → 1 ≤ m → j < 2 → get_object j (seen m) ≡ ok (some (object j))
unfolding get_object loaded_node lookup_object
found_later zero j late low = absurd (omega arith)
found_later (suc m) zero late low = refl
found_later (suc m) (suc zero) late low = refl
found_later (suc m) (suc (suc j)) late low = absurd (omega arith)

replica_load-shifts_example :
    replica_load seen 0 0 (insertion (codes "a") ∷ insertion (codes "b") ∷ []) []
    ≡ ok ((codes "b", object 0) ∷ [])
unfolding get_object empty_node lookup_object new_state ObjectIndex.new
replica_load-shifts_example =
    replica_load-shifts seen object (insertion (codes "a")) (insertion (codes "b") ∷ []) false
      (refl, (refl, tt)) (omega arith) refl found_later

abbrev reads_once : List YcsbOp
reads_once = record (insertion (codes "a")) { op_type = read } ∷ []

abbrev always_safe : ℕ → RepCxlObject → Run (Option (ReadReturn (List ℕ)))
always_safe n obj = ok (some (read_safe []))

abbrev always_written : ℕ → RepCxlObject → List ℕ → Run WriteResult
always_written n obj value = ok WriteResult.written

run_phase-Counts_example :
    (answers : List Answer) × AllAnswered always_safe always_written
      ((codes "a", object 0) ∷ [])
      0
      (with_warmup reads_once)
      answers
    × Counts no_metrics (record no_metrics { safe_reads = 2; read_latencies = 2 }) answers
unfolding run_phase object_of_key same with_warmup count_one
run_phase-Counts_example =
    run_phase-Counts always_safe always_written ((codes "a", object 0) ∷ []) reads_once
      (omega arith) refl
