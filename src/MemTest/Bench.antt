-- ===== src/MemTest/Bench.antt =====
-- The benchmark of src/bin/mem_test.rs: its ways to write and read the bytes of an object, and what
-- `bench` runs. The bytes are those of the mapping and around it, by address; `elapsed k` is how long
-- the k-th timed run took; the products with 0.99 and 0.9999, as indices, are parameters.
pub mod Covers
pub mod Runs
use Prim.Native.Nat.{ℕ, zero, suc, ◌+◌, ◌*◌, ◌/◌, ◌%◌}
use rep_cxl.Prelude.{if◌then◌else◌, ◌==◌, Option, none, some, List, [], ◌∷◌, length, get_elem?}
use rep_cxl.Prelude.Run.{Run, ok, panic, ◌>>=◌}
use rep_cxl.Memio.Flush.{Instruction, mfence, then_last, clflushopt_range}
use rep_cxl.Utils.{sort, indexed}
use rep_cxl.MemTest.{rem}

abbrev pub Bytes : Type 0
Bytes = ℕ → ℕ

abbrev pub put : ℕ → ℕ → Bytes → Bytes
put addr v mem b = if b == addr then v else mem b

-- The loops over the bytes from `off` on, as many as are left.
pub write_bytes : ℕ → ℕ → ℕ → Bytes → Bytes
write_bytes addr off zero mem = mem
write_bytes addr off (suc left) mem = write_bytes addr (suc off) left (put (addr + off) 0xAB mem)

pub read_bytes : ℕ → ℕ → ℕ → ℕ → Bytes → ℕ
read_bytes addr off zero v mem = v
read_bytes addr off (suc left) v mem = read_bytes addr (suc off) left (mem (addr + off)) mem

pub write_plain : ℕ → ℕ → Bytes → Bytes
unfolding write_bytes
write_plain addr size mem = write_bytes addr 0 size mem

pub write_volatile_only : ℕ → ℕ → Bytes → Bytes
unfolding write_bytes
write_volatile_only addr size mem = write_bytes addr 0 size mem

pub read_plain : ℕ → ℕ → Bytes → ℕ
unfolding read_bytes
read_plain addr size mem = read_bytes addr 0 size 0 mem

pub read_volatile_only : ℕ → ℕ → Bytes → ℕ
unfolding read_bytes
read_volatile_only addr size mem = read_bytes addr 0 size 0 mem

-- The loop is that of `clflushopt_range` in src/safe_memio.rs.
pub cache_flush_fence : ℕ → ℕ → ℕ → Option (List Instruction)
cache_flush_fence fuel addr size = then_last mfence (clflushopt_range fuel addr size)

-- The bytes after the write, and the instructions behind it.
pub write_volatile_flush : ℕ → ℕ → ℕ → Bytes → Bytes × Option (List Instruction)
unfolding write_bytes cache_flush_fence
write_volatile_flush fuel addr size mem =
    (write_bytes addr 0 size mem, cache_flush_fence fuel addr size)

pub read_flush_volatile : ℕ → ℕ → ℕ → Bytes → ℕ × Option (List Instruction)
unfolding read_bytes cache_flush_fence
read_flush_volatile fuel addr size mem =
    (read_bytes addr 0 size 0 mem, cache_flush_fence fuel addr size)

-- The counter of the runs and the bytes.
abbrev pub State : Type 0
State = ℕ × Bytes

-- `addresses[idx % addresses.len()]`
abbrev pub offset_of : List ℕ → ℕ → Run ℕ
offset_of addresses idx = do i ← rem idx (length addresses); indexed (get_elem? addresses i)

pub run_write : (ℕ → ℕ → Bytes → Bytes) → ℕ → ℕ → List ℕ → State → Run State
run_write write base obj_size addresses (idx, mem) = do
  offset ← offset_of addresses idx
  ok (suc idx, write (base + offset) obj_size mem)

pub run_read : (ℕ → ℕ → Bytes → ℕ) → ℕ → ℕ → List ℕ → State → Run State
run_read read base obj_size addresses (idx, mem) = do
  offset ← offset_of addresses idx
  ok (suc idx, mem)

-- As many runs as are left.
pub warm_up : (State → Run State) → ℕ → State → Run State
warm_up f zero s = ok s
warm_up f (suc n) s = do s1 ← f s; warm_up f n s1

-- The latencies of the runs from the k-th on.
pub timed : (ℕ → ℕ) → (State → Run State) → ℕ → ℕ → State → Run (List ℕ × State)
timed elapsed f k zero s = ok ([], s)
timed elapsed f k (suc n) s = do
  s1 ← f s
  (latencies, s2) ← timed elapsed f (suc k) n s1
  ok (elapsed k ∷ latencies, s2)

pub record Stats : Type 0 where
  pub p50 : ℕ
  pub p99 : ℕ
  pub p9999 : ℕ
  pub p100 : ℕ

-- `latencies.last().unwrap()`
abbrev pub last_of : List ℕ → Run ℕ
last_of [] = panic
last_of (x ∷ []) = ok x
last_of (x ∷ y ∷ ys) = last_of (y ∷ ys)

pub stats_of : (ℕ → ℕ) → (ℕ → ℕ) → List ℕ → Run Stats
stats_of mul_99 mul_9999 latencies = do
  p50 ← indexed (get_elem? latencies (length latencies / 2))
  p99 ← indexed (get_elem? latencies (mul_99 (length latencies)))
  p9999 ← indexed (get_elem? latencies (mul_9999 (length latencies)))
  p100 ← last_of latencies
  ok (record { p50 = p50; p99 = p99; p9999 = p9999; p100 = p100 })

pub bench : (ℕ → ℕ) → (ℕ → ℕ) → (ℕ → ℕ) → ℕ → (State → Run State) → State → Run (Stats × State)
unfolding warm_up timed stats_of
bench elapsed mul_99 mul_9999 iters f s = do
  s1 ← warm_up f 100 s
  (latencies, s2) ← timed elapsed f 0 iters s1
  stats ← stats_of mul_99 mul_9999 (sort latencies)
  ok (stats, s2)
