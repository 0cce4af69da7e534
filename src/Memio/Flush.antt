-- ===== src/Memio/Flush.antt =====
-- The cache flushes of src/safe_memio.rs: which lines `clflushopt_range` flushes, and the fences of
-- its callers. An address is a number of bytes; the hardware flushes the line that an address is in.
pub mod Lines
use Prim.Native.Nat.{ℕ, zero, suc, ◌+◌}
use rep_cxl.Prelude.{ltb, if◌then◌else◌, Option, none, some, List, [], ◌∷◌, ◌++◌}

abbrev pub cache_line_size : ℕ
cache_line_size = 64

-- What the processor is told, in order.
pub data Instruction : Type 0 where
  write_volatile : ℕ → ℕ → Instruction
  clflushopt : ℕ → Instruction
  sfence : Instruction
  mfence : Instruction

abbrev pub first_then : Instruction → Option (List Instruction) → Option (List Instruction)
first_then i none = none
first_then i (some is) = some (i ∷ is)

abbrev pub then_last : Instruction → Option (List Instruction) → Option (List Instruction)
then_last i none = none
then_last i (some is) = some (is ++ i ∷ [])

-- The `while` loop, on fuel; none means that the fuel ran out.
pub flush_from : ℕ → ℕ → ℕ → Option (List Instruction)
flush_from zero ptr end = none
flush_from (suc fuel) ptr end =
    let rest = flush_from fuel (ptr + cache_line_size) end in
    if ltb ptr end then first_then (clflushopt ptr) rest else some []

pub clflushopt_range : ℕ → ℕ → ℕ → Option (List Instruction)
unfolding flush_from
clflushopt_range fuel addr size = flush_from fuel addr (addr + size)

unfoldable pub cache_flush_write : ℕ → ℕ → ℕ → Option (List Instruction)
unfolding clflushopt_range
cache_flush_write fuel addr size = then_last sfence (clflushopt_range fuel addr size)

unfoldable pub cache_flush_read : ℕ → ℕ → ℕ → Option (List Instruction)
unfolding clflushopt_range
cache_flush_read fuel addr size = then_last mfence (clflushopt_range fuel addr size)

-- The write of `size` bytes at `addr`, and the flush behind it.
pub mem_write_flush : ℕ → ℕ → ℕ → Option (List Instruction)
unfolding cache_flush_write
mem_write_flush fuel addr size =
    first_then (write_volatile addr size) (cache_flush_write fuel addr size)
