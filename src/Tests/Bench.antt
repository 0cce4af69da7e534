-- ===== src/Tests/Bench.antt =====
-- The program src/bin/rep_bench.rs, with two objects that process 0 makes and process 1 finds at
-- its second look, and the median of four latencies.
use rep_cxl.Prelude.{
  ℕ, zero, suc, ltb, leb, ◌/◌, ◌≤◌, ◌<◌, ◌≡◌, refl, ◌⊎◌, inl, inr, true, false, none, some, List,
  [], ◌∷◌, map, arith,
}
use rep_cxl.Prelude.Run.{Run, ok, panic}
use rep_cxl.ObjectIndex
use rep_cxl.ObjectIndex.{round_up, alloc_object, lookup_object}
use rep_cxl.Shmem.{new_state, write_state}
use rep_cxl.Group.{get_coordinator}
use rep_cxl.RepCxl.{
  RepCxl, RepCxlObject, object_of, is_coordinator, read_state_from_any, after_alloc, write_states,
  init_state, new_object, get_object,
}
use rep_cxl.Bench.{create_objects, open_objects}
use rep_cxl.Bench.Found.{with_size, open_objects-agree}
use rep_cxl.Utils.{percentile}
use rep_cxl.Utils.Percentile.{count, percentile-ranks}
use rep_cxl.Tests.Group.{inst}

abbrev two_objects : List RepCxlObject
two_objects =
    object_of (record { id = 0; offset = 0; size = 80 })
    ∷ object_of (record { id = 1; offset = 128; size = 80 })
    ∷ []

abbrev created : Run (List RepCxlObject × RepCxl (Unit {0}) ℕ) → RepCxl (Unit {0}) ℕ
created panic = inst 0
created (ok (objs, r)) = r

abbrev with_two : RepCxl (Unit {0}) ℕ
unfolding create_objects init_state
with_two = created (create_objects 80 0 2 (init_state (inst 0)))

abbrev seen : ℕ → RepCxl (Unit {0}) ℕ
seen zero = inst 0
seen (suc t) = with_two

coordinator : is_coordinator (inst 0) ≡ true
unfolding is_coordinator get_coordinator
coordinator = refl

replica : is_coordinator (inst 1) ≡ false
unfolding is_coordinator get_coordinator
replica = refl

opened : open_objects 80 2 1 seen (inst 0) ≡ ok (some two_objects, with_two)
unfolding open_objects create_objects init_state new_object is_coordinator get_coordinator
    read_state_from_any new_state ObjectIndex.new alloc_object with_two after_alloc write_states
    write_state
opened = refl

first_looks :
    (t j : ℕ)
    → j < 2
    → (get_object j (seen t) ≡ ok none) ⊎ (get_object j (seen t) ≡ get_object j with_two)
unfolding get_object read_state_from_any lookup_object new_state ObjectIndex.new
first_looks zero zero lt = inl refl
first_looks zero (suc zero) lt = inl refl
first_looks zero (suc (suc j)) lt = absurd (omega (arith, lt))
first_looks (suc t) j lt = inr refl

later_looks : (t j : ℕ) → j < 2 → 1 ≤ t → get_object j (seen t) ≡ get_object j with_two
later_looks zero j lt le = absurd (omega (arith, le))
later_looks (suc t) j lt le = refl

rounds : round_up 80 64 ≡ ok 128
unfolding round_up
rounds = refl

open_objects-agree_example :
    open_objects 80 2 2 seen (inst 1) ≡ ok (some (map (with_size 128) two_objects), inst 1)
open_objects-agree_example =
    open_objects-agree 80 2 1 1 128 seen seen (inst 0) with_two (inst 1) two_objects (omega arith)
      (omega arith) (omega arith) (omega arith) rounds coordinator opened replica first_looks
      later_looks (omega arith)

percentile-ranks_example :
    (v : ℕ) × (percentile (λ n. n / 2) (40 ∷ 10 ∷ 20 ∷ 30 ∷ []) ≡ ok v)
    × (count (λ y. ltb y v) (40 ∷ 10 ∷ 20 ∷ 30 ∷ []) < 2)
    × (2 ≤ count (λ y. leb y v) (40 ∷ 10 ∷ 20 ∷ 30 ∷ []))
percentile-ranks_example =
    percentile-ranks (λ n. n / 2) 40 (10 ∷ 20 ∷ 30 ∷ []) (omega arith) (omega arith) (omega arith)
