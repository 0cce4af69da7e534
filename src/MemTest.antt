-- ===== src/MemTest.antt =====
-- src/bin/mem_test.rs: the offsets at which the benchmark of raw memory reads and writes.
pub mod Within
pub mod Bench
use Prim.Native.Nat.{ℕ, zero, suc, ◌+◌, ◌-◌, ◌*◌, ◌/◌, ◌%◌, ◌^◌}
use rep_cxl.Prelude.{if◌then◌else◌, ltb, ◌==◌, List, [], ◌∷◌}
use rep_cxl.Prelude.Run.{Run, ok, panic, ◌>>=◌}
use rep_cxl.Prelude.Words.{add64, mul64}

pub data AccessPattern : Type 0 where
  fixed : AccessPattern
  strided : AccessPattern
  random : AccessPattern

-- `a % b`, which panics on 0.
abbrev pub rem : ℕ → ℕ → Run ℕ
rem a b = if b == 0 then panic else ok (a % b)

pub fixed_offsets : ℕ → List ℕ
fixed_offsets zero = []
fixed_offsets (suc n) = 0 ∷ fixed_offsets n

pub strided_offsets : ℕ → ℕ → ℕ → ℕ → Run (List ℕ)
unfolding add64
strided_offsets max_offset stride offset zero = ok []
strided_offsets max_offset stride offset (suc n) =
    let here = if ltb max_offset offset then 0 else offset in
    do
      next ← rem (add64 here stride) (add64 max_offset 1)
      rest ← strided_offsets max_offset stride next n
      ok (here ∷ rest)

-- A linear congruential generator.
pub next_seed : ℕ → ℕ
unfolding add64 mul64
next_seed seed = add64 (mul64 seed 1103515245) 12345

pub random_offsets : ℕ → ℕ → ℕ → Run (List ℕ)
unfolding next_seed add64
random_offsets max_offset seed zero = ok []
random_offsets max_offset seed (suc n) = do
  offset ← rem (next_seed seed / 2 ^ 16) (add64 max_offset 1)
  rest ← random_offsets max_offset (next_seed seed) n
  ok (offset ∷ rest)

-- `region_size.saturating_sub(obj_size)` is the subtraction that stops at 0.
pub generate_offsets : ℕ → ℕ → AccessPattern → ℕ → ℕ → Run (List ℕ)
unfolding fixed_offsets strided_offsets random_offsets
generate_offsets region_size obj_size fixed jump_size n = ok (fixed_offsets n)
generate_offsets region_size obj_size strided jump_size n =
    strided_offsets (region_size - obj_size)
      (if ltb jump_size obj_size then obj_size else jump_size) 0 n
generate_offsets region_size obj_size random jump_size n =
    random_offsets (region_size - obj_size) 12345 n
