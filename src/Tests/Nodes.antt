-- ===== src/Tests/Nodes.antt =====
-- Writes and reads on three nodes.
use rep_cxl.Prelude.{
  ℕ, ltb, leb, some, ◌*◌, ◌/◌, ◌≤◌, ◌+◌, ◌%◌, ◌<◌, ◌↔◌, ◌==◌, ◌≡◌, refl, Bool, true, false, List,
  [], ◌∷◌, arith,
}
use rep_cxl.Prelude.Run.{ok}
use rep_cxl.ObjectIndex.{ObjectInfo}
use rep_cxl.Request.{eq, gt, read_dirty}
use rep_cxl.Shmem.{ObjectMemoryEntry, MemoryNode, new_state}
use rep_cxl.Shmem.Mapping.{Mapping, from_file, addr_at, page, InMapping, addr_at-InMapping}
use rep_cxl.Timer.{round_start_of}
use rep_cxl.Memio.{MemResult, memory_error, mem_writeall}
use rep_cxl.Memio.Replicas.{Ended, store_first, mem_writeall_lem}
use rep_cxl.Monster.Read.{
  got, ReadEnv, Waiting, target_of, answer_during, monster_read, monster_read-store_first,
}

abbrev old_entry : ObjectMemoryEntry ℕ
old_entry = record { wid = record { round_num = 1; process_id = 0 }; value = 10 }

abbrev new_entry : ObjectMemoryEntry ℕ
new_entry = record { wid = record { round_num = 2; process_id = 0 }; value = 20 }

abbrev pub node : ℕ → MemoryNode ℕ
node id = record { id = id; size = 4096; state = new_state 4096 64; objects = λ offset. old_entry }

abbrev pub three : List (MemoryNode ℕ)
three = node 0 ∷ node 1 ∷ node 2 ∷ []

abbrev last_fails : ℕ → Bool
last_fails id = id == 2

abbrev pub no_failure : ℕ → Bool
no_failure id = false

mem_writeall_lem_example :
    (k : ℕ) × (r : MemResult (Unit {0})) × (mem_writeall last_fails 64 new_entry three
      ≡ ok (r, store_first last_fails 64 new_entry k three))
    × Ended last_fails 64 k three r
mem_writeall_lem_example =
    mem_writeall_lem last_fails 64 new_entry three (omega arith, (omega arith, (omega arith, tt)))

-- The write stops at the node that fails.
stops :
    mem_writeall last_fails 64 new_entry three
    ≡ ok (memory_error 2, store_first last_fails 64 new_entry 2 three)
unfolding mem_writeall
stops = refl

-- Rounds of 100 nanoseconds, and reads that wait for the middle of their round.
abbrev env : ReadEnv ℕ
env = record { start_instant = 0; round_time = 100; read_offset = some 50 }

abbrev waiting : Waiting ℕ
waiting = record {
  in_unit = λ percent. leb percent 100;
  less = ltb;
  mul_f64 = λ n percent. n * percent / 100;
  round_sleep_ratio = 0;
  fuel = 8;
  clock = λ k. 310 + 20 * k;
  reading = 0;
}

-- The write reaches the last node between the two reads.
monster_read-store_first_example :
    monster_read env no_failure 64 (
      waiting,
      (store_first no_failure 64 new_entry 0 three, store_first no_failure 64 new_entry 3 three),
    )
    ≡ ok (got (answer_during new_entry old_entry 0 3 3))
unfolding eq target_of round_start_of
monster_read-store_first_example =
    monster_read-store_first env waiting no_failure 64 new_entry old_entry 0 3 three
      (refl, refl, refl, omega arith, (4, omega arith, reached)) differ (omega arith) (omega arith)
      (omega arith) ((omega arith, refl), ((omega arith, refl), ((omega arith, refl), tt)))
      (refl, (refl, (refl, tt)))
  where
    differ : eq old_entry.wid new_entry.wid ≡ false
    differ = refl

    reached : target_of env waiting 50 ≤ 410
    reached = omega arith

-- It is dirty and shows the newer value.
newer : answer_during new_entry old_entry 0 3 3 ≡ read_dirty 20
unfolding answer_during gt
newer = refl

abbrev counter : ObjectInfo
counter = record { id = 1; offset = 64; size = 64 }

abbrev state_bytes : ℕ
state_bytes = 65536

-- 4 MiB, of which the shared state takes 64 KiB.
abbrev mapping : Mapping
mapping = record { id = 0; mapped = 4194304; obj_start = 65536; size = 4194304 }

addr_at-InMapping_example :
    ((addr_at mapping 4190000 ≡ ok (65536 + 4190000)) ↔ (4190000 < 4194304))
    × (InMapping mapping ↔ ((state_bytes ≡ 0) × (4194304 % page ≡ 0)))
unfolding from_file
addr_at-InMapping_example = addr_at-InMapping 65536 0 4194304 4190000 mapping maps
  where
    maps : from_file 65536 0 true true 4194304 ≡ ok mapping
    maps = refl
