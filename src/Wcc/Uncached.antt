-- ===== src/Wcc/Uncached.antt =====
-- The flushes of `ProcessBitmapUncached` in src/shmem/wcc.rs. A bitmap is its eight words and its
-- size, 72 bytes, and the bitmaps of the objects stand one behind the other; `first` is the address
-- of the words of object 0.
use Prim.Native.Nat.{ℕ, suc, ◌+◌, ◌-◌, ◌*◌, ◌%◌, ◌<◌}
use rep_cxl.Prelude.{◌≡◌, refl, ◌↔◌, inl, inr, Option, some, List, [], ◌∷◌, ◌++◌, arith}
use rep_cxl.Memio.Flush.{
  Instruction, sfence, mfence, cache_line_size, cache_flush_write, cache_flush_read,
}
use rep_cxl.Memio.Flush.Lines.{Covered, clflushopt_range-Covered, Covered-then_last}

abbrev pub data_size : ℕ
data_size = 64

abbrev pub bitmap_size : ℕ
bitmap_size = 72

abbrev pub data_addr : ℕ → ℕ → ℕ
data_addr first oid = first + bitmap_size * oid

pub cfw : ℕ → ℕ → Option (List Instruction)
unfolding cache_flush_write
cfw first oid = cache_flush_write (suc data_size) (data_addr first oid) data_size

pub cfr : ℕ → ℕ → Option (List Instruction)
unfolding cache_flush_read
cfr first oid = cache_flush_read (suc data_size) (data_addr first oid) data_size

aligned :
    (first oid : ℕ)
    → (data_addr first oid % cache_line_size + (data_size - 1) % cache_line_size < cache_line_size)
      ↔ ((first + 8 * oid) % cache_line_size ≡ 0)
aligned first oid = ground arith

-- The flushes of the bitmap of an object, before a read and after a write, reach the lines of all
-- its words exactly if the first address and eight times the object's number together are a
-- multiple of 64: of any eight objects in a row that is one at most.
pub cfw-cfr-Covered :
    (first oid : ℕ)
    → (flushes : List Instruction) × (cfw first oid ≡ some (flushes ++ sfence ∷ []))
      × (cfr first oid ≡ some (flushes ++ mfence ∷ []))
      × (Covered (data_addr first oid) data_size (flushes ++ sfence ∷ [])
          ↔ ((first + 8 * oid) % cache_line_size ≡ 0))
      × (Covered (data_addr first oid) data_size (flushes ++ mfence ∷ [])
          ↔ ((first + 8 * oid) % cache_line_size ≡ 0))
unfolding cfw cfr cache_flush_write cache_flush_read
cfw-cfr-Covered first oid =
    let addr = data_addr first oid in
    let (flushes, e, reached) = clflushopt_range-Covered addr data_size (omega arith) in
    let written = Covered-then_last addr data_size sfence flushes (inl refl) in
    let read = Covered-then_last addr data_size mfence flushes (inr refl) in
    let place = aligned first oid in
    (
      flushes,
      rw e refl,
      rw e refl,
      (λ all. place.0 (reached.0 (written.0 all)), λ h. written.1 (reached.1 (place.1 h))),
      (λ all. place.0 (reached.0 (read.0 all)), λ h. read.1 (reached.1 (place.1 h))),
    )
