-- ===== src/MemTest/Bench/Covers.antt =====
-- Which bytes the write loops of src/bin/mem_test.rs change, in one run and in a row of runs.
use native.Mathlib.Nat.{mod-eq_of_lt}
use Prim.Native.Nat.{ℕ, zero, suc, ◌+◌, ◌%◌, ◌≤◌, ◌<◌}
use rep_cxl.Prelude.{
  ltb, ◌==◌, ◌≡◌, refl, sym, ◌∙◌, ◌⊎◌, inl, inr, Bool-cases, false, some, List, length, get_elem?,
  get_elem?_there, get_elem?-lt, arith,
}
use rep_cxl.Prelude.Run.{ok}
use mathlib.Core.Option.{some-injective}
use rep_cxl.MemTest.Bench.{Bytes, put, write_bytes, offset_of}

write_bytes-kept :
    (addr off left : ℕ) (mem : Bytes) (b : ℕ)
    → (b < addr + off) ⊎ (addr + off + left ≤ b)
    → write_bytes addr off left mem b ≡ mem b
unfolding write_bytes
write_bytes-kept addr off zero mem b h = refl
write_bytes-kept addr off (suc left) mem b h =
    let apart : (b == addr + off) ≡ false = ground arith in
    write_bytes-kept addr (suc off) left (put (addr + off) 0xAB mem) b
      (elim h [ inl low ↦ inl (omega arith) | inr high ↦ inr (omega arith) ])
    ∙ rw apart refl

write_bytes-marked :
    (addr off left : ℕ) (mem : Bytes) (b : ℕ)
    → addr + off ≤ b
    → b < addr + off + left
    → write_bytes addr off left mem b ≡ 0xAB
unfolding write_bytes
write_bytes-marked addr off zero mem b low high = absurd (omega arith)
write_bytes-marked addr off (suc left) mem b low high = elim (Bool-cases (b == addr + off)) [
  | inl here ↦
      write_bytes-kept addr (suc off) left (put (addr + off) 0xAB mem) b
        (inl (ground (arith, here)))
      ∙ rw here refl
  | inr behind ↦
      write_bytes-marked addr (suc off) left (put (addr + off) 0xAB mem) b (ground (arith, behind))
        (omega arith)
]

module _ (base obj_size : ℕ) (addresses : List ℕ) where
  -- The byte `b` belongs to the object at `offset`.
  pub record In (offset b : ℕ) : Type 0 where
    pub low : base + offset ≤ b
    pub high : b < base + offset + obj_size

  -- The first `k` of the addresses are written, and nothing else is.
  pub record Marks (mem : Bytes) (k : ℕ) (mem' : Bytes) : Type 0 where
    pub kept :
        (b : ℕ)
        → ((i offset : ℕ) → get_elem? addresses i ≡ some offset → ¬ (In offset b))
        → mem' b ≡ mem b
    pub marked :
        (i offset b : ℕ) → i < k → get_elem? addresses i ≡ some offset → In offset b → mem' b ≡ 0xAB

  pub offset_of_lem :
      (k : ℕ)
      → 0 < length addresses
      → (offset : ℕ) × (offset_of addresses k ≡ ok offset)
        × (get_elem? addresses (k % length addresses) ≡ some offset)
  offset_of_lem k pos =
      let full : (length addresses == 0) ≡ false = ground arith in
      let (offset, e) = get_elem?_there (k % length addresses) addresses (omega arith) in
      (offset, rw (full, e) refl, e)

  pub start : (mem : Bytes) → Marks mem 0 mem
  start mem = record { kept = λ b apart. refl; marked = λ i offset b lt. absurd (omega arith) }

  -- One more run writes the next address.
  pub written :
      (mem mem' : Bytes) (k offset : ℕ)
      → Marks mem k mem'
      → get_elem? addresses (k % length addresses) ≡ some offset
      → Marks mem (suc k) (write_bytes (base + offset) 0 obj_size mem')
  written mem mem' k offset m here = record {
    kept = λ b apart.
        write_bytes-kept (base + offset) 0 obj_size mem' b (outside b (apart _ offset here))
        ∙ m.kept b apart;
    marked = λ i offset' b lt at inside. elim (ranges b) [
      | inl fresh ↦
          write_bytes-marked (base + offset) 0 obj_size mem' b (omega (arith, fresh.low))
            (omega (arith, fresh.high))
      | inr out ↦ elim (Bool-cases (ltb i k)) [
        | inl before ↦
            write_bytes-kept (base + offset) 0 obj_size mem' b out
            ∙ m.marked i offset' b (ground (arith, before)) at inside
        | inr now ↦
            let last : i ≡ k = ground (arith, now) in
            let place : k % length addresses ≡ i =
              mod-eq_of_lt (omega (arith, last, get_elem?-lt addresses i at)) ∙ sym last in
            let same : offset ≡ offset' = some-injective _ _ (sym (rw place at here) ∙ at) in
            absurd (clash b out (rw (sym same) at inside))
      ]
    ];
  }
    where
      Out : ℕ → Type 0
      Out b = (b < base + offset + 0) ⊎ (base + offset + 0 + obj_size ≤ b)

      ranges : (b : ℕ) → In offset b ⊎ Out b
      ranges b = elim (Bool-cases (ltb b (base + offset))) [
        | inl low ↦ inr (inl (ground (arith, low)))
        | inr above ↦ elim (Bool-cases (ltb b (base + offset + obj_size))) [
          | inl within ↦ inl (record { low = ground (arith, above); high = ground (arith, within) })
          | inr high ↦ inr (inr (ground (arith, high)))
        ]
      ]

      clash : (b : ℕ) → Out b → ¬ (In offset b)
      clash b (inl low) inside = omega (arith, low, inside.low)
      clash b (inr high) inside = omega (arith, high, inside.high)

      outside : (b : ℕ) → ¬ (In offset b) → Out b
      outside b apart = elim (ranges b) [ inl inside ↦ absurd (apart inside) | inr out ↦ out ]
