-- ===== src/Tests/Memory.antt =====
-- The write benchmark of src/bin/mem_test.rs: four iterations, objects of 64 bytes one after the
-- other in a region of 256 bytes that begins at address 4096.
use rep_cxl.Prelude.{ℕ, ◌+◌, ◌*◌, ◌/◌, ◌≤◌, ◌<◌, ◌≡◌, ◌⊎◌, List, arith}
use rep_cxl.Prelude.Run.{ok}
use rep_cxl.MemTest.{strided, generate_offsets}
use rep_cxl.MemTest.Bench.{Bytes, Stats, write_plain, run_write, bench}
use rep_cxl.MemTest.Bench.Covers.{Marks}
use rep_cxl.MemTest.Bench.Runs.{write_plain-write_bytes, bench-run_write}

abbrev took : ℕ → ℕ
took k = 40 + k

abbrev ninety_nine : ℕ → ℕ
ninety_nine n = n * 99 / 100

abbrev zeros : Bytes
zeros b = 0

bench-run_write_example :
    (offsets : List ℕ) × (stats : Stats) × (mem' : Bytes) × (generate_offsets 256 64 strided 64 4
      ≡ ok offsets)
    × (bench took ninety_nine ninety_nine 4 (run_write write_plain 4096 64 offsets) (0, zeros)
        ≡ ok (stats, (104, mem')))
    × Marks 4096 64 offsets zeros 104 mem'
    × ((b : ℕ) → (b < 4096) ⊎ (4352 ≤ b) → mem' b ≡ 0)
bench-run_write_example =
    bench-run_write write_plain took ninety_nine ninety_nine 4096 256 64 64 4 strided zeros
      (λ addr m. (write_plain-write_bytes 64 addr m).0) (omega arith) (omega arith) (omega arith)
      (omega arith) (omega arith) (omega arith)
