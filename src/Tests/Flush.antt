-- ===== src/Tests/Flush.antt =====
-- The flushes of a bitmap at a concrete address, and the conversion of a start time with clocks that agree.
use rep_cxl.Prelude.{
  ℕ, ◌+◌, ◌*◌, ◌/◌, ◌%◌, ◌≤◌, ◌<◌, ◌≡◌, ◌⊎◌, ◌↔◌, some, List, [], ◌∷◌, ◌++◌, arith,
}
use rep_cxl.Memio.Flush.{Instruction, sfence, mfence, cache_line_size}
use rep_cxl.Memio.Flush.Lines.{Covered}
use rep_cxl.Wcc.Uncached.{data_addr, data_size, cfw, cfr, cfw-cfr-Covered}
use rep_cxl.Timer.Convert.{Sample, span, system_time_to_instant}
use rep_cxl.Timer.Convert.Midpoint.{system_time_to_instant-near}

cfw-cfr-Covered_example :
    (flushes : List Instruction) × (cfw 4096 3 ≡ some (flushes ++ sfence ∷ []))
    × (cfr 4096 3 ≡ some (flushes ++ mfence ∷ []))
    × (Covered (data_addr 4096 3) data_size (flushes ++ sfence ∷ [])
        ↔ ((4096 + 8 * 3) % cache_line_size ≡ 0))
    × (Covered (data_addr 4096 3) data_size (flushes ++ mfence ∷ [])
        ↔ ((4096 + 8 * 3) % cache_line_size ≡ 0))
cfw-cfr-Covered_example = cfw-cfr-Covered 4096 3

-- Each round takes two milliseconds, and reads the wall clock half a millisecond after it began.
abbrev reading : ℕ → Sample
reading k = record {
  mono_before = 3000000 * k;
  wall_now = 3000000 * k + 7500000;
  mono_after = 3000000 * k + 2000000;
}

system_time_to_instant-near_example :
    (j : ℕ) × (j < 8)
    × (system_time_to_instant reading 0 0 90000000 + 7000000 ≤ 90000000 + span (reading j) / 2)
    × (90000000
        ≤ system_time_to_instant reading 0 0 90000000 + 7000000 + (span (reading j) + 1) / 2)
    × ((span (reading j) ≤ 10000) ⊎ ((i : ℕ) → i < 8 → span (reading j) ≤ span (reading i)))
system_time_to_instant-near_example =
    system_time_to_instant-near reading 0 0 90000000 7000000
      (λ k low. ((omega arith, omega arith), omega (arith, low))) (omega arith)
