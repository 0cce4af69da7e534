-- ===== src/ObjectIndex/Dealloc.antt =====
-- `dealloc_object`: it frees the object with its identifier, and undoes an allocation.
use mathlib.Core.Path.{◌∙◌}
use rep_cxl.Prelude.{
  ℕ, suc, ◌+◌, ◌^◌, ◌≤◌, ◌<◌, ◌==◌, ==_iff, ◌≡◌, refl, ap, inl, inr, Bool-cases, none, some, [],
  ◌∷◌, length, if◌then◌else◌, arith,
}
use rep_cxl.Prelude.Words.{word, add64, sub64, sub64_exact}
use rep_cxl.ObjectIndex.{
  ObjectIndex, Slots, Previous, lookup_slots, lookup_object, free_slots, dealloc_object,
  alloc_object,
}
use rep_cxl.Prelude.Run.{ok}
use rep_cxl.ObjectIndex.Fit.{FirstFit, skip_used, skip_hole, take}
use rep_cxl.ObjectIndex.Valid.{Laid, Distinct, used, IsValid, Laid-used, Laid-weaken}
use rep_cxl.ObjectIndex.Filled.{fresh_tail}
use rep_cxl.ObjectIndex.Alloc.{alloc_object-Placement, exact}

free_slots-lookup :
    (id n j : ℕ) (slots : Slots)
    → lookup_slots j (free_slots id n slots).1 ≡ (if id == j then none else lookup_slots j slots)
unfolding free_slots lookup_slots
free_slots-lookup id n j [] = ground arith
free_slots-lookup id n j (none ∷ rest) = free_slots-lookup id n j rest
free_slots-lookup id n j (some e ∷ rest) = elim (Bool-cases (e.id == id)) [
  | inl here ↦ rw here (ground (arith, here, free_slots-lookup id (sub64 n e.size) j rest))
  | inr other ↦ rw other (ground (arith, other, free_slots-lookup id n j rest))
]

free_slots-length : (id n : ℕ) (slots : Slots) → length (free_slots id n slots).1 ≡ length slots
unfolding free_slots
free_slots-length id n [] = refl
free_slots-length id n (none ∷ rest) = ap suc (free_slots-length id n rest)
free_slots-length id n (some e ∷ rest) =
    ap suc (free_slots-length id (if e.id == id then sub64 n e.size else n) rest)

free_slots-Laid :
    (id n lo total : ℕ) (slots : Slots)
    → Laid lo total slots
    → Laid lo total (free_slots id n slots).1
unfolding free_slots
free_slots-Laid id n lo total [] h = h
free_slots-Laid id n lo total (none ∷ rest) h = free_slots-Laid id n lo total rest h
free_slots-Laid id n lo total (some e ∷ rest) h = elim (Bool-cases (e.id == id)) [
  | inl here ↦ rw here (
      Laid-weaken lo (e.offset + e.size) total (free_slots id (sub64 n e.size) rest).1 (omega arith)
        (free_slots-Laid id (sub64 n e.size) (e.offset + e.size) total rest h.1))
  | inr other ↦ rw other (h.0, free_slots-Laid id n (e.offset + e.size) total rest h.1)
]

free_slots-Distinct :
    (id n : ℕ) (slots : Slots) → Distinct slots → Distinct (free_slots id n slots).1
unfolding free_slots
free_slots-Distinct id n [] h = tt
free_slots-Distinct id n (none ∷ rest) h = free_slots-Distinct id n rest h
free_slots-Distinct id n (some e ∷ rest) h = elim (Bool-cases (e.id == id)) [
  | inl here ↦ rw here (free_slots-Distinct id (sub64 n e.size) rest h.1)
  | inr other ↦
      rw other (ground (arith, free_slots-lookup id n e.id rest), free_slots-Distinct id n rest h.1)
]

free_slots-used :
    (id n k : ℕ) (slots : Slots)
    → n ≡ used slots + k
    → n < word
    → (free_slots id n slots).0 ≡ used (free_slots id n slots).1 + k
unfolding free_slots
free_slots-used id n k [] h small = omega arith
free_slots-used id n k (none ∷ rest) h small = free_slots-used id n k rest h small
free_slots-used id n k (some e ∷ rest) h small = elim (Bool-cases (e.id == id)) [
  | inl here ↦
      let less = sub64_exact n e.size (omega arith) small in
      rw here
        (free_slots-used id (sub64 n e.size) k rest (omega (arith, less)) (omega (arith, less)))
  | inr other ↦ rw other (omega (arith, free_slots-used id n (e.size + k) rest (omega arith) small))
]

-- From a valid index, `dealloc_object` leaves a valid index, in which the identifier has no object
-- and every other identifier has the object that it had; the space in use never grows past the
-- total size.
pub dealloc_object_lem :
    (ix : ObjectIndex) (id : ℕ)
    → IsValid ix
    → IsValid (dealloc_object ix id)
      × ((j : ℕ)
          → lookup_object (dealloc_object ix id) j ≡ (if id == j then none else lookup_object ix j))
      × ((dealloc_object ix id).allocated_size ≤ ix.total_size)
unfolding dealloc_object lookup_object
dealloc_object_lem ix id v =
    let slots = ix.object_index in
    let n = ix.allocated_size in
    let full = Laid-used 0 ix.total_size slots v.laid in
    let laid = free_slots-Laid id n 0 ix.total_size slots v.laid in
    let left =
      free_slots-used id n 0 slots (omega (arith, v.counted))
        (omega (arith, full, v.bounded, v.counted)) in
    (
      record {
        laid = laid;
        distinct = free_slots-Distinct id n slots v.distinct;
        counted = omega (arith, left);
        chunked = v.chunked;
        bounded = v.bounded;
        sized = free_slots-length id n slots ∙ v.sized;
      },
      (λ j. free_slots-lookup id n j slots),
      omega (arith, left, Laid-used 0 ix.total_size (free_slots id n slots).1 laid),
    )

free_slots-fresh :
    (id n : ℕ) (slots : Slots) → lookup_slots id slots ≡ none → free_slots id n slots ≡ (n, slots)
unfolding free_slots lookup_slots
free_slots-fresh id n [] h = refl
free_slots-fresh id n (none ∷ rest) h = rw (free_slots-fresh id n rest h)
free_slots-fresh id n (some e ∷ rest) h =
    let (other, tail) = fresh_tail id e rest h in rw (other, free_slots-fresh id n rest tail)

free_slots-FirstFit :
    {id size total : ℕ} {before : Previous} {slots out : Slots} {s : ℕ} (n : ℕ)
    → FirstFit id size total before slots s out
    → lookup_slots id slots ≡ none
    → free_slots id n out ≡ (sub64 n size, slots)
unfolding free_slots lookup_slots
free_slots-FirstFit {id} n (skip_used {e} {rest} f) fresh =
    let (other, tail) = fresh_tail id e rest fresh in rw (other, free_slots-FirstFit n f tail)
free_slots-FirstFit n (skip_hole f) fresh = rw (free_slots-FirstFit n f fresh)
free_slots-FirstFit {id} {size} n (take {rest} start room) fresh =
    rw ((==_iff id id).1 refl, free_slots-fresh id (sub64 n size) rest fresh)

-- From a valid index, and with sizes below 2 ^ 62, deallocating an object that was just allocated
-- gives back the index as it was, slot by slot.
pub dealloc_object-alloc_object :
    (ix ix' : ObjectIndex) (id size s : ℕ)
    → IsValid ix
    → size < 2 ^ 62
    → ix.chunk_size < 2 ^ 62
    → alloc_object ix id size ≡ ok (some s, ix')
    → dealloc_object ix' id ≡ ix
unfolding dealloc_object
dealloc_object-alloc_object ix ix' id size s v small chunk h =
    let p = alloc_object-Placement ix id size h in
    let sum = exact v small chunk p in
    let full = Laid-used 0 ix.total_size ix.object_index v.laid in
    let less =
      sub64_exact (add64 ix.allocated_size p.rounded) p.rounded (omega (arith, sum))
        (omega (arith, p.room, v.bounded)) in
    rw (p.result, free_slots-FirstFit (add64 ix.allocated_size p.rounded) p.fit p.fresh)
      (ground (arith, less, sum))
