-- ===== src/Tests/Index.antt =====
-- The allocator at concrete indexes.
use rep_cxl.Prelude.{
  ℕ, zero, suc, ◌+◌, ◌≤◌, ◌==◌, if◌then◌else◌, ◌≡◌, refl, ◌⊎◌, none, some, List, [], ◌∷◌, ◌++◌, map,
  replicate, arith,
}
use rep_cxl.Prelude.Run.{ok, panic}
use rep_cxl.ObjectIndex
use rep_cxl.ObjectIndex.{
  ObjectInfo, ObjectIndex, Slots, alloc_object, dealloc_object, alloc_result, lookup_object,
  lookup_slots, round_up, start_after, end_before,
}
use rep_cxl.ObjectIndex.Directory.{Action, alloc, dealloc, Trace, run, run-Trace}
use rep_cxl.ObjectIndex.Valid.{IsValid, new-IsValid}
use rep_cxl.ObjectIndex.Filled.{placed}
use rep_cxl.ObjectIndex.Alloc.{Rounded, alloc_object_lem}
use rep_cxl.ObjectIndex.Dealloc.{dealloc_object_lem, dealloc_object-alloc_object}
use rep_cxl.ObjectIndex.Packed.{Packed, Unused, Refused, alloc_object-Packed}
use rep_cxl.ObjectIndex.Panics.{alloc_object-panics}

abbrev index_of : ℕ → List ObjectInfo → ℕ → ObjectIndex
index_of used objs free = record {
  total_size = 1024;
  allocated_size = used;
  chunk_size = 64;
  object_index = map some objs ++ replicate free none;
}

abbrev empty_index : ObjectIndex
empty_index = index_of 0 [] 1000

empty-IsValid : IsValid empty_index
unfolding ObjectIndex.new
empty-IsValid = new-IsValid 1024 64 (omega arith) (omega arith)

abbrev seven : ObjectInfo
seven = record { id = 7; offset = 0; size = 128 }

abbrev eight : ObjectInfo
eight = record { id = 8; offset = 128; size = 64 }

abbrev one_object : ObjectIndex
one_object = index_of 128 (seven ∷ []) 999

abbrev two_objects : ObjectIndex
two_objects = index_of 192 (seven ∷ eight ∷ []) 998

first_call : alloc_object empty_index 7 100 ≡ ok (some 0, one_object)
unfolding alloc_object
first_call = refl

second_call : alloc_object one_object 8 64 ≡ ok (some 128, two_objects)
unfolding alloc_object
second_call = refl

alloc_object_lem_example :
    IsValid one_object
    × ((r : ℕ) × Rounded 100 64 r
        × (128 ≡ 0 + r)
        × ((j : ℕ)
            → lookup_object one_object j
              ≡ (if 7 == j then some (placed 7 0 r) else lookup_object empty_index j)))
alloc_object_lem_example =
    alloc_object_lem empty_index one_object 7 100 0 empty-IsValid (omega arith) (omega arith)
      first_call

one-IsValid : IsValid one_object
one-IsValid = alloc_object_lem_example.0

two-IsValid : IsValid two_objects
two-IsValid =
    (alloc_object_lem one_object two_objects 8 64 128 one-IsValid (omega arith) (omega arith)
      second_call).0

dealloc_object_lem_example :
    IsValid (dealloc_object two_objects 7)
    × ((j : ℕ)
        → lookup_object (dealloc_object two_objects 7) j
          ≡ (if 7 == j then none else lookup_object two_objects j))
    × ((dealloc_object two_objects 7).allocated_size ≤ 1024)
dealloc_object_lem_example = dealloc_object_lem two_objects 7 two-IsValid

dealloc_object-alloc_object_example : dealloc_object two_objects 8 ≡ one_object
dealloc_object-alloc_object_example =
    dealloc_object-alloc_object one_object two_objects 8 64 128 one-IsValid (omega arith)
      (omega arith) second_call

Unused-replicate : (n : ℕ) → Unused (replicate n none)
Unused-replicate zero = tt
Unused-replicate (suc n) = Unused-replicate n

alloc_object-Packed_example :
    (r : ℕ) × (ix' : ObjectIndex) × Rounded 64 64 r
    × Packed 0 ix'.object_index
    × ((alloc_object one_object 8 64 ≡ ok (some 128, ix'))
        ⊎ ((alloc_object one_object 8 64 ≡ ok (none, one_object))
            × (ix' ≡ one_object)
            × Refused one_object 8 r))
alloc_object-Packed_example =
    alloc_object-Packed one_object 8 64 one-IsValid (refl, Unused-replicate 998) (omega arith)
      (omega arith)

-- What is left when of three objects of 64 bytes the first two were removed.
abbrev holes : ObjectIndex
holes = record empty_index {
  allocated_size = 64;
  object_index =
      none ∷ none ∷ some (record { id = 3; offset = 128; size = 64 }) ∷ replicate 997 none;
}

alloc_object-panics_example : alloc_object holes 4 192 ≡ panic
unfolding round_up lookup_object start_after end_before
alloc_object-panics_example =
    alloc_object-panics holes 4 192 192 0 []
      (some (record { id = 3; offset = 128; size = 64 }) ∷ replicate 997 none) refl refl
      (omega arith) refl refl (omega arith)

-- An allocation and a deallocation behind it.
abbrev two_actions : List Action
two_actions = alloc 8 64 ∷ dealloc 7 ∷ []

two_actions-run :
    run two_actions one_object ≡ ok (some 128 ∷ none ∷ [], dealloc_object two_objects 7)
unfolding run
two_actions-run = rw second_call refl

run-Trace_example :
    IsValid (dealloc_object two_objects 7)
    × Trace 1024 64
        (lookup_object one_object)
        two_actions
        (some 128 ∷ none ∷ [])
        (lookup_object (dealloc_object two_objects 7))
run-Trace_example =
    run-Trace two_actions one_object (dealloc_object two_objects 7) (some 128 ∷ none ∷ [])
      one-IsValid (omega arith) (omega arith, (tt, tt)) two_actions-run
