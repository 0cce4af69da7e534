-- ===== src/MemTest/Bench/Runs.antt =====
-- A whole write benchmark of src/bin/mem_test.rs.
use Prim.Native.Nat.{ℕ, zero, suc, ◌+◌, ◌/◌, ◌%◌, ◌≤◌, ◌<◌, ◌^◌}
use rep_cxl.Prelude.{
  ◌≡◌, refl, sym, ap, ◌∙◌, ◌⊎◌, inl, inr, some, List, [], ◌∷◌, length, get_elem?, get_elem?_there,
  All, arith,
}
use rep_cxl.Prelude.Run.{Run, ok}
use mathlib.Core.Path.{subst}
use mathlib.Core.Option.{some-injective}
use rep_cxl.Utils.{sort}
use rep_cxl.Utils.Percentile.{length-sort}
use rep_cxl.MemTest.{AccessPattern, generate_offsets}
use rep_cxl.MemTest.Within.{generate_offsets-inside}
use rep_cxl.MemTest.Bench.{
  Bytes, write_plain, write_volatile_only, write_bytes, State, run_write, warm_up, timed, Stats,
  last_of, stats_of, bench,
}
use rep_cxl.MemTest.Bench.Covers.{Marks, offset_of_lem, start, written}

-- The plain and the volatile write are the loop over the bytes.
pub write_plain-write_bytes :
    (size addr : ℕ) (m : Bytes)
    → (write_plain addr size m ≡ write_bytes addr 0 size m)
      × (write_volatile_only addr size m ≡ write_bytes addr 0 size m)
unfolding write_plain write_volatile_only
write_plain-write_bytes size addr m = (refl, refl)

module _ (base obj_size : ℕ) (addresses : List ℕ) (write : ℕ → ℕ → Bytes → Bytes)
    (writes : (addr : ℕ) (m : Bytes) → write addr obj_size m ≡ write_bytes addr 0 obj_size m)
    (mem : Bytes) (some_address : 0 < length addresses) where
  abbrev step : State → Run State
  step = run_write write base obj_size addresses

  -- `n` runs after `k` of them end in a state that `k + n` runs have marked.
  Marked : ℕ → State → Type 0
  Marked k (idx, mem') = (idx ≡ k) × Marks base obj_size addresses mem k mem'

  step_lem : (k : ℕ) (s : State) → Marked k s → (s' : State) × (step s ≡ ok s') × Marked (suc k) s'
  unfolding run_write Marked
  step_lem k (idx, mem') (count, m) =
      let (offset, e, at) = offset_of_lem base obj_size addresses idx some_address in
      let here = subst (λ j. get_elem? addresses (j % length addresses) ≡ some offset) count at in
      (
        (suc idx, write (base + offset) obj_size mem'),
        rw e refl,
        (
          ap suc count,
          rw (writes (base + offset) mem')
              (written base obj_size addresses mem mem' k offset m here),
        ),
      )

  warm_up_lem :
      (n k : ℕ) (s : State)
      → Marked k s
      → (s' : State) × (warm_up step n s ≡ ok s') × Marked (k + n) s'
  unfolding warm_up Marked
  warm_up_lem zero k s m = let same : k ≡ k + 0 = omega arith in (s, refl, rw (sym same) m)
  warm_up_lem (suc n) k s m =
      let (s1, e1, m1) = step_lem k s m in
      let (s2, e2, m2) = warm_up_lem n (suc k) s1 m1 in
      let same : suc k + n ≡ k + suc n = omega arith in (s2, rw e1 e2, rw same at m2)

  timed_lem :
      (elapsed : ℕ → ℕ) (n j k : ℕ) (s : State)
      → Marked k s
      → (latencies : List ℕ) × (s' : State) × (timed elapsed step j n s ≡ ok (latencies, s'))
        × (length latencies ≡ n)
        × Marked (k + n) s'
  unfolding timed Marked
  timed_lem elapsed zero j k s m =
      let same : k ≡ k + 0 = omega arith in ([], s, refl, refl, rw (sym same) m)
  timed_lem elapsed (suc n) j k s m =
      let (s1, e1, m1) = step_lem k s m in
      let (latencies, s2, e2, long, m2) = timed_lem elapsed n (suc j) (suc k) s1 m1 in
      let same : suc k + n ≡ k + suc n = omega arith in
      (elapsed j ∷ latencies, s2, rw (e1, e2) refl, ap suc long, rw same at m2)

fits_in :
    (region_size obj_size i : ℕ) (offsets : List ℕ) {offset : ℕ}
    → All (λ o. o + obj_size ≤ region_size) offsets
    → get_elem? offsets i ≡ some offset
    → offset + obj_size ≤ region_size
fits_in region_size obj_size i [] all at = absurd (cc)
fits_in region_size obj_size zero (o ∷ os) (first, all) at = rw (some-injective _ _ at) at first
fits_in region_size obj_size (suc i) (o ∷ os) (first, all) at =
    fits_in region_size obj_size i os all at

last_of_there : (xs : List ℕ) → 0 < length xs → (x : ℕ) × (last_of xs ≡ ok x)
last_of_there [] h = absurd (omega arith)
last_of_there (x ∷ []) h = (x, refl)
last_of_there (x ∷ y ∷ ys) h = last_of_there (y ∷ ys) (omega arith)

stats_of_there :
    (mul_99 mul_9999 : ℕ → ℕ) (xs : List ℕ)
    → 0 < length xs
    → mul_99 (length xs) < length xs
    → mul_9999 (length xs) < length xs
    → (stats : Stats) × (stats_of mul_99 mul_9999 xs ≡ ok stats)
unfolding stats_of
stats_of_there mul_99 mul_9999 xs pos low_99 low_9999 =
    let (a, e_a) = get_elem?_there (length xs / 2) xs (omega arith) in
    let (b, e_b) = get_elem?_there (mul_99 (length xs)) xs low_99 in
    let (c, e_c) = get_elem?_there (mul_9999 (length xs)) xs low_9999 in
    let (d, e_d) = last_of_there xs pos in
    (record { p50 = a; p99 = b; p9999 = c; p100 = d }, rw (e_a, e_b, e_c, e_d) refl)

module _ (base obj_size : ℕ) (addresses : List ℕ) (write : ℕ → ℕ → Bytes → Bytes) where
  chain :
      (elapsed mul_99 mul_9999 : ℕ → ℕ) (iters : ℕ) (s : State) {s1 s2 : State} {latencies : List ℕ}
      {stats : Stats}
      → warm_up (run_write write base obj_size addresses) 100 s ≡ ok s1
      → timed elapsed (run_write write base obj_size addresses) 0 iters s1 ≡ ok (latencies, s2)
      → stats_of mul_99 mul_9999 (sort latencies) ≡ ok stats
      → bench elapsed mul_99 mul_9999 iters (run_write write base obj_size addresses) s
        ≡ ok (stats, s2)
  unfolding bench
  chain elapsed mul_99 mul_9999 iters s e1 e2 e3 = rw (e1, e2, e3) refl

module _ (write : ℕ → ℕ → Bytes → Bytes) (elapsed mul_99 mul_9999 : ℕ → ℕ)
    (base region_size obj_size jump_size iters : ℕ) (pattern : AccessPattern) (mem : Bytes) where
  -- The benchmark of a write by the loop over the bytes of an object, at the offsets generated for it.
  -- If the object has at least one byte and fits into the region of fewer than 2 ^ 64 bytes, there is
  -- an iteration, and the two products with the number of iterations are below it: it does not panic
  -- and makes 100 runs more than iterations; behind it the bytes of the objects at all offsets are
  -- marked, all others are as before, and no offset leads out of the region.
  pub bench-run_write :
      ((addr : ℕ) (m : Bytes) → write addr obj_size m ≡ write_bytes addr 0 obj_size m)
      → 0 < obj_size
      → obj_size ≤ region_size
      → region_size < 2 ^ 64
      → 0 < iters
      → mul_99 iters < iters
      → mul_9999 iters < iters
      → (offsets : List ℕ) × (stats : Stats) × (mem' : Bytes) × (generate_offsets region_size
            obj_size pattern jump_size iters
          ≡ ok offsets)
        × (bench elapsed mul_99 mul_9999 iters (run_write write base obj_size offsets) (0, mem)
            ≡ ok (stats, (100 + iters, mem')))
        × Marks base obj_size offsets mem (100 + iters) mem'
        × ((b : ℕ) → (b < base) ⊎ (base + region_size ≤ b) → mem' b ≡ mem b)
  unfolding Marked
  bench-run_write writes pos room fits some_iter low_99 low_9999 =
      let (offsets, generated, long, within) =
        generate_offsets-inside region_size obj_size pattern jump_size iters pos room fits in
      let some_offset : 0 < length offsets = omega (arith, long) in
      let (s1, e1, m1) =
        warm_up_lem base obj_size offsets write writes mem some_offset 100 0 (0, mem)
          (refl, start base obj_size offsets mem) in
      let (latencies, (idx, mem'), e2, runs, (count, m2)) =
        timed_lem base obj_size offsets write writes mem some_offset elapsed iters 0 100 s1 m1 in
      let sorted = length-sort latencies ∙ runs in
      let (stats, e3) =
        stats_of_there mul_99 mul_9999 (sort latencies) (omega (arith, sorted)) (rw sorted low_99)
          (rw sorted low_9999) in
      (
        offsets,
        stats,
        mem',
        generated,
        chain base obj_size offsets write elapsed mul_99 mul_9999 iters (0, mem) e1 e2 e3
            ∙ ap (λ j. ok (stats, (j, mem'))) count,
        m2,
        λ b out. m2.kept b (λ i offset at inside.
            let room = fits_in region_size obj_size i offsets within at in
            elim out [
              | inl low ↦ omega (arith, low, inside.low)
              | inr high ↦ omega (arith, high, inside.high, room)
            ]),
      )
