-- ===== src/ObjectIndex.antt =====
-- src/shmem/object_index.rs: the allocator of objects in a memory node. The array
-- `object_index: [Option<ObjectInfo>; MAX_OBJECTS]` is a list, which `new` makes of that length.
mod Fit
pub mod Filled
pub mod Valid
pub mod Alloc
pub mod Dealloc
pub mod Panics
pub mod Packed
pub mod Directory
use rep_cxl.Prelude.{
  ℕ, ◌/◌, ◌==◌, ltb, leb, if◌then◌else◌, Bool, true, false, Option, none, some, List, [], ◌∷◌,
  replicate,
}
use rep_cxl.Prelude.Run.{Run, ok, panic, assert, ◌>>=◌, ◌>>◌}
use rep_cxl.Prelude.Words.{add64, sub64, mul64}

abbrev pub max_objects : ℕ
max_objects = 1000

pub record ObjectInfo : Type 0 where
  pub id : ℕ
  pub offset : ℕ
  pub size : ℕ

abbrev pub Slots : Type 0
Slots = List (Option ObjectInfo)

pub record ObjectIndex : Type 0 where
  pub total_size : ℕ
  pub allocated_size : ℕ
  pub chunk_size : ℕ
  pub object_index : Slots

unfoldable pub new : ℕ → ℕ → ObjectIndex
new total_size chunk_size = record {
  total_size = total_size;
  allocated_size = 0;
  chunk_size = chunk_size;
  object_index = replicate max_objects none;
}

unfoldable pub lookup_slots : ℕ → Slots → Option ObjectInfo
lookup_slots id [] = none
lookup_slots id (none ∷ rest) = lookup_slots id rest
lookup_slots id (some obj ∷ rest) = if obj.id == id then some obj else lookup_slots id rest

unfoldable pub lookup_object : ObjectIndex → ℕ → Option ObjectInfo
unfolding lookup_slots
lookup_object ix id = lookup_slots id ix.object_index

-- `(size + chunk_size - 1) / chunk_size * chunk_size`; a division by zero panics.
unfoldable pub round_up : ℕ → ℕ → Run ℕ
unfolding add64 sub64 mul64
round_up size chunk_size = do
  assert (ltb 0 chunk_size)
  ok (mul64 (sub64 (add64 size chunk_size) 1 / chunk_size) chunk_size)

-- What stands before a slot: nothing, or the slot with the index before it.
pub data Previous : Type 0 where
  beginning : Previous
  slot : Option ObjectInfo → Previous

-- `start`; the `expect` panics at an empty slot.
unfoldable pub start_after : Previous → Run ℕ
unfolding add64
start_after beginning = ok 0
start_after (slot none) = panic
start_after (slot (some e)) = ok (add64 e.offset e.size)

-- `end`: the offset of the next object in the array, or the total size
unfoldable pub end_before : ℕ → Slots → ℕ
end_before total [] = total
end_before total (none ∷ rest) = end_before total rest
end_before total (some obj ∷ rest) = obj.offset

abbrev pub keep_slot : Option ObjectInfo → Option (ℕ × Slots) → Option (ℕ × Slots)
keep_slot e none = none
keep_slot e (some (start, rest)) = some (start, e ∷ rest)

-- The loop over the slots: the offset of the new object and the slots with it, or `none`.
unfoldable pub first_fit : ℕ → ℕ → ℕ → Previous → Slots → Run (Option (ℕ × Slots))
unfolding start_after end_before add64
first_fit id size total before [] = ok none
first_fit id size total before (some e ∷ rest) = do
  found ← first_fit id size total (slot (some e)) rest
  ok (keep_slot (some e) found)
first_fit id size total before (none ∷ rest) =
    let later = (do found ← first_fit id size total (slot none) rest; ok (keep_slot none found)) in
    do
      start ← start_after before
      if leb (add64 start size) (end_before total rest)
          then ok (some (start, some (record { id = id; offset = start; size = size }) ∷ rest))
          else later

abbrev pub is_some {ℓ} : {A : Type ℓ} → Option A → Bool
is_some none = false
is_some (some a) = true

abbrev pub alloc_result : ObjectIndex → ℕ → Option (ℕ × Slots) → Option ℕ × ObjectIndex
alloc_result ix size none = (none, ix)
alloc_result ix size (some (start, slots)) =
    (some start, record ix { object_index = slots; allocated_size = add64 ix.allocated_size size })

unfoldable pub alloc_object : ObjectIndex → ℕ → ℕ → Run (Option ℕ × ObjectIndex)
unfolding round_up first_fit lookup_object
alloc_object ix id size = do
  rounded ← round_up size ix.chunk_size
  if ltb ix.total_size (add64 ix.allocated_size rounded)
      then ok (none, ix)
      else if is_some (lookup_object ix id)
      then ok (none, ix)
      else do
        found ← first_fit id rounded ix.total_size beginning ix.object_index
        ok (alloc_result ix rounded found)

-- The closure of `for_each`, which lowers `allocated_size` at each object that it frees.
unfoldable pub free_slots : ℕ → ℕ → Slots → ℕ × Slots
unfolding sub64
free_slots id allocated [] = (allocated, [])
free_slots id allocated (none ∷ rest) =
    let (left, slots) = free_slots id allocated rest in (left, none ∷ slots)
free_slots id allocated (some obj ∷ rest) =
    let (left, slots) =
      free_slots id (if obj.id == id then sub64 allocated obj.size else allocated) rest in
    (left, (if obj.id == id then none else some obj) ∷ slots)

unfoldable pub dealloc_object : ObjectIndex → ℕ → ObjectIndex
unfolding free_slots
dealloc_object ix id =
    let (left, slots) = free_slots id ix.allocated_size ix.object_index in
    record ix { allocated_size = left; object_index = slots }
