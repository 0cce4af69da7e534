-- ===== src/Memio/Flush/Lines.antt =====
-- Which cache lines the flushes of src/safe_memio.rs reach.
use Prim.Native.Nat.{ℕ, zero, suc, ◌+◌, ◌-◌, ◌*◌, ◌/◌, ◌%◌, ◌≤◌, ◌<◌}
use rep_cxl.Prelude.{
  ltb, ◌≡◌, refl, ◌⊎◌, inl, inr, ◌↔◌, false, Bool-cases, some, List, [], ◌∷◌, ◌++◌, arith,
}
use rep_cxl.Memio.Flush.{
  Instruction, write_volatile, clflushopt, sfence, mfence, cache_line_size, flush_from,
  clflushopt_range, cache_flush_write, mem_write_flush,
}

-- Some instruction flushes the line.
abbrev pub Flushed : ℕ → List Instruction → Type 0
Flushed line [] = ⊥
Flushed line (clflushopt ptr ∷ rest) = (ptr / cache_line_size ≡ line) ⊎ Flushed line rest
Flushed line (write_volatile addr size ∷ rest) = Flushed line rest
Flushed line (sfence ∷ rest) = Flushed line rest
Flushed line (mfence ∷ rest) = Flushed line rest

abbrev Reaches : ℕ → ℕ → ℕ → Type 0
Reaches ptr end line =
    (ptr / cache_line_size ≤ line) × (ptr % cache_line_size + cache_line_size * line < end)

next_line :
    (ptr end line : ℕ)
    → ptr < end
    → ((ptr / cache_line_size ≡ line) ⊎ Reaches (ptr + cache_line_size) end line)
      ↔ Reaches ptr end line
next_line ptr end line h = ground arith

-- A loop with enough fuel ends, and flushes the lines from that of `ptr` on whose place for the
-- pointer lies before `end`.
flush_from_lem :
    (fuel ptr end : ℕ)
    → end ≤ ptr + cache_line_size * fuel
    → (flushes : List Instruction) × (flush_from (suc fuel) ptr end ≡ some flushes)
      × ((line : ℕ) → Flushed line flushes ↔ Reaches ptr end line)
unfolding flush_from
flush_from_lem zero ptr end enough =
    let over : ltb ptr end ≡ false = ground arith in
    ([], rw over refl, λ line. (λ f. absurd f, λ h. absurd (omega (arith, h))))
flush_from_lem (suc fuel) ptr end enough = elim (Bool-cases (ltb ptr end)) [
  | inr over ↦ ([], rw over refl, λ line. (λ f. absurd f, λ h. absurd (ground (arith, over, h))))
  | inl more ↦
      let (rest, e, lines) = flush_from_lem fuel (ptr + cache_line_size) end (omega arith) in
      let before : ptr < end = ground arith in
      (
        clflushopt ptr ∷ rest,
        rw (more, e) refl,
        λ line.
            let here = next_line ptr end line before in
            let there = lines line in
            (
              λ f. here.0 (elim f [ inl this ↦ inl this | inr deep ↦ inr (there.0 deep) ]),
              λ h. elim (here.1 h) [ inl this ↦ inl this | inr deep ↦ inr (there.1 deep) ],
            ),
      )
]

Flushed-then_last :
    (line : ℕ) (fence : Instruction) (flushes : List Instruction)
    → (fence ≡ sfence) ⊎ (fence ≡ mfence)
    → Flushed line (flushes ++ fence ∷ []) ↔ Flushed line flushes
Flushed-then_last line fence [] (inl e) = rw e (λ f. f, λ f. f)
Flushed-then_last line fence [] (inr e) = rw e (λ f. f, λ f. f)
Flushed-then_last line fence (clflushopt ptr ∷ rest) which =
    let deep = Flushed-then_last line fence rest which in
    (
      λ f. elim f [ inl this ↦ inl this | inr f' ↦ inr (deep.0 f') ],
      λ f. elim f [ inl this ↦ inl this | inr f' ↦ inr (deep.1 f') ],
    )
Flushed-then_last line fence (write_volatile addr size ∷ rest) which =
    Flushed-then_last line fence rest which
Flushed-then_last line fence (sfence ∷ rest) which = Flushed-then_last line fence rest which
Flushed-then_last line fence (mfence ∷ rest) which = Flushed-then_last line fence rest which

-- Every byte of the range is in a line that is flushed.
abbrev pub Covered : ℕ → ℕ → List Instruction → Type 0
Covered addr size is =
    (byte : ℕ) → addr ≤ byte → byte < addr + size → Flushed (byte / cache_line_size) is

last_line :
    (addr size : ℕ)
    → 0 < size
    → Reaches addr (addr + size) ((addr + size - 1) / cache_line_size)
      ↔ (addr % cache_line_size + (size - 1) % cache_line_size < cache_line_size)
last_line addr size pos = ground arith

line_between :
    (addr size byte : ℕ)
    → addr ≤ byte
    → byte < addr + size
    → Reaches addr (addr + size) ((addr + size - 1) / cache_line_size)
    → Reaches addr (addr + size) (byte / cache_line_size)
line_between addr size byte low high last = ground arith

-- The flush of at least one byte ends within as many rounds of its loop as there are bytes, and one
-- more. It reaches the lines of all bytes exactly if the place of the first byte in its line and that
-- of the last byte behind the first, both counted in lines of 64, together stay below 64.
pub clflushopt_range-Covered :
    (addr size : ℕ)
    → 0 < size
    → (flushes : List Instruction) × (clflushopt_range (suc size) addr size ≡ some flushes)
      × (Covered addr size flushes
          ↔ (addr % cache_line_size + (size - 1) % cache_line_size < cache_line_size))
unfolding clflushopt_range
clflushopt_range-Covered addr size pos =
    let (flushes, e, lines) = flush_from_lem size addr (addr + size) (omega arith) in
    let last = (addr + size - 1) / cache_line_size in
    (
      flushes,
      e,
      (
        λ all.
            (last_line addr size pos).0
              ((lines last).0 (all (addr + size - 1) (omega arith) (omega arith))),
        λ short byte low high.
            (lines (byte / cache_line_size)).1
              (line_between addr size byte low high ((last_line addr size pos).1 short)),
      ),
    )

-- A fence behind the flushes changes nothing in what they reach.
pub Covered-then_last :
    (addr size : ℕ) (fence : Instruction) (flushes : List Instruction)
    → (fence ≡ sfence) ⊎ (fence ≡ mfence)
    → Covered addr size (flushes ++ fence ∷ []) ↔ Covered addr size flushes
Covered-then_last addr size fence flushes which = (
  λ all byte low high.
      (Flushed-then_last (byte / cache_line_size) fence flushes which).0 (all byte low high),
  λ all byte low high.
      (Flushed-then_last (byte / cache_line_size) fence flushes which).1 (all byte low high),
)

-- `mem_write_flush` of at least one byte ends within as many rounds of its loop as there are bytes,
-- and one more; it writes first and fences last, and it flushes the lines of all bytes that it
-- wrote exactly if the place of the first byte in its line and that of the last byte behind the
-- first, both counted in lines of 64, together stay below 64.
pub mem_write_flush-Covered :
    (addr size : ℕ)
    → 0 < size
    → (flushes : List Instruction) × (mem_write_flush (suc size) addr size
        ≡ some (write_volatile addr size ∷ (flushes ++ sfence ∷ [])))
      × (Covered addr size (write_volatile addr size ∷ (flushes ++ sfence ∷ []))
          ↔ (addr % cache_line_size + (size - 1) % cache_line_size < cache_line_size))
unfolding mem_write_flush cache_flush_write
mem_write_flush-Covered addr size pos =
    let (flushes, e, reached) = clflushopt_range-Covered addr size pos in
    let fenced = Covered-then_last addr size sfence flushes (inl refl) in
    (flushes, rw e refl, (λ all. reached.0 (fenced.0 all), λ short. fenced.1 (reached.1 short)))
