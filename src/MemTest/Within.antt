-- ===== src/MemTest/Within.antt =====
-- The offsets of src/bin/mem_test.rs stay inside the region.
use Prim.Native.Nat.{ℕ, zero, suc, ◌+◌, ◌-◌, ◌/◌, ◌%◌, ◌^◌, ◌≤◌, ◌<◌}
use rep_cxl.Prelude.{if◌then◌else◌, ltb, ◌≡◌, refl, ap, List, [], ◌∷◌, All, length, arith}
use rep_cxl.Prelude.Run.{Run, ok}
use rep_cxl.Prelude.Words.{add64}
use rep_cxl.MemTest.{
  AccessPattern, fixed, strided, random, rem, fixed_offsets, strided_offsets, next_seed,
  random_offsets, generate_offsets,
}

-- The run returns as many offsets as asked for, none above `max_offset`.
Bounded : ℕ → ℕ → Run (List ℕ) → Type 0
Bounded max_offset n run =
    (offsets : List ℕ) × (run ≡ ok offsets)
    × (length offsets ≡ n)
    × All (λ offset. offset ≤ max_offset) offsets

fixed_offsets-Bounded : (max_offset n : ℕ) → Bounded max_offset n (ok (fixed_offsets n))
unfolding fixed_offsets Bounded
fixed_offsets-Bounded max_offset zero = ([], refl, refl, tt)
fixed_offsets-Bounded max_offset (suc n) =
    let (rest, e, long, low) = fixed_offsets-Bounded max_offset n in
    let same : fixed_offsets n ≡ rest = cc in
    (0 ∷ rest, ap (λ x. ok (0 ∷ x)) same, ap suc long, (omega arith, low))

rem_lem : (a m : ℕ) → m + 1 < 2 ^ 64 → rem a (add64 m 1) ≡ ok (a % (m + 1))
unfolding add64
rem_lem a m h = ground arith

rem_low : (a m : ℕ) → a % (m + 1) ≤ m
rem_low a m = omega arith

strided_offsets-Bounded :
    (max_offset stride offset n : ℕ)
    → max_offset + 1 < 2 ^ 64
    → Bounded max_offset n (strided_offsets max_offset stride offset n)
unfolding strided_offsets Bounded
strided_offsets-Bounded max_offset stride offset zero fits = ([], refl, refl, tt)
strided_offsets-Bounded max_offset stride offset (suc n) fits =
    let here = if ltb max_offset offset then 0 else offset in
    let low : here ≤ max_offset = ground arith in
    let (rest, e, long, others) =
      strided_offsets-Bounded max_offset stride (add64 here stride % (max_offset + 1)) n fits in
    (
      here ∷ rest,
      rw (rem_lem (add64 here stride) max_offset fits, e) refl,
      ap suc long,
      (low, others),
    )

random_offsets-Bounded :
    (max_offset seed n : ℕ)
    → max_offset + 1 < 2 ^ 64
    → Bounded max_offset n (random_offsets max_offset seed n)
unfolding random_offsets Bounded
random_offsets-Bounded max_offset seed zero fits = ([], refl, refl, tt)
random_offsets-Bounded max_offset seed (suc n) fits =
    let (rest, e, long, others) = random_offsets-Bounded max_offset (next_seed seed) n fits in
    let number = next_seed seed / 2 ^ 16 in
    (
      number % (max_offset + 1) ∷ rest,
      rw (rem_lem number max_offset fits, e) refl,
      ap suc long,
      (rem_low number max_offset, others),
    )

generate_offsets-Bounded :
    (region_size obj_size : ℕ) (pattern : AccessPattern) (jump_size n : ℕ)
    → (region_size - obj_size) + 1 < 2 ^ 64
    → Bounded (region_size - obj_size) n (generate_offsets region_size obj_size pattern jump_size n)
unfolding generate_offsets
generate_offsets-Bounded region_size obj_size fixed jump_size n fits =
    fixed_offsets-Bounded (region_size - obj_size) n
generate_offsets-Bounded region_size obj_size strided jump_size n fits =
    strided_offsets-Bounded (region_size - obj_size) _ 0 n fits
generate_offsets-Bounded region_size obj_size random jump_size n fits =
    random_offsets-Bounded (region_size - obj_size) 12345 n fits

module _ (region_size obj_size : ℕ) (room : obj_size ≤ region_size) where
  inside :
      (offsets : List ℕ)
      → All (λ offset. offset ≤ region_size - obj_size) offsets
      → All (λ offset. offset + obj_size ≤ region_size) offsets
  inside [] low = tt
  inside (offset ∷ offsets) (low, rest) = (omega arith, inside offsets rest)

-- For an object of at least one byte that fits into a region of fewer than 2 ^ 64 bytes, each of the
-- three patterns gives without a panic as many offsets as asked for, and an object at any of them
-- ends within the region.
pub generate_offsets-inside :
    (region_size obj_size : ℕ) (pattern : AccessPattern) (jump_size n : ℕ)
    → 0 < obj_size
    → obj_size ≤ region_size
    → region_size < 2 ^ 64
    → (offsets : List ℕ) × (generate_offsets region_size obj_size pattern jump_size n ≡ ok offsets)
      × (length offsets ≡ n)
      × All (λ offset. offset + obj_size ≤ region_size) offsets
unfolding Bounded
generate_offsets-inside region_size obj_size pattern jump_size n pos room fits =
    let (offsets, e, long, low) =
      generate_offsets-Bounded region_size obj_size pattern jump_size n (omega arith) in
    (offsets, e, long, inside region_size obj_size room offsets low)
