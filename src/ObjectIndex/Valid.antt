-- ===== src/ObjectIndex/Valid.antt =====
-- The invariant of the allocator: objects stand in the array in the order of their offsets, none
-- overlaps another or passes the total size, no identifier occurs twice, and the sizes add up.
use rep_cxl.Prelude.{
  ℕ, zero, suc, ◌+◌, ◌^◌, ◌≤◌, ◌<◌, ◌==◌, ==_iff, ◌≡◌, ◌≢◌, refl, ◌⊎◌, inl, inr, Bool-cases, Option,
  none, some, [], ◌∷◌, length, replicate, length-replicate, arith,
}
use rep_cxl.ObjectIndex.{
  ObjectInfo, ObjectIndex, Slots, max_objects, new, lookup_slots, lookup_object, end_before,
}

abbrev pub Laid : ℕ → ℕ → Slots → Type 0
Laid lo total [] = lo ≤ total
Laid lo total (none ∷ rest) = Laid lo total rest
Laid lo total (some e ∷ rest) = (lo ≤ e.offset) × Laid (e.offset + e.size) total rest

abbrev pub Distinct : Slots → Type 0
Distinct [] = Unit
Distinct (none ∷ rest) = Distinct rest
Distinct (some e ∷ rest) = (lookup_slots e.id rest ≡ none) × Distinct rest

abbrev pub used : Slots → ℕ
used [] = 0
used (none ∷ rest) = used rest
used (some e ∷ rest) = e.size + used rest

pub record IsValid (ix : ObjectIndex) : Type 0 where
  pub laid : Laid 0 ix.total_size ix.object_index
  pub distinct : Distinct ix.object_index
  pub counted : used ix.object_index ≡ ix.allocated_size
  pub chunked : 0 < ix.chunk_size
  pub bounded : ix.total_size < 2 ^ 63
  pub sized : length ix.object_index ≡ max_objects

pub Laid-le : (lo total : ℕ) (slots : Slots) → Laid lo total slots → lo ≤ total
Laid-le lo total [] h = h
Laid-le lo total (none ∷ rest) h = Laid-le lo total rest h
Laid-le lo total (some e ∷ rest) h = omega (arith, Laid-le (e.offset + e.size) total rest h.1)

pub Laid-used : (lo total : ℕ) (slots : Slots) → Laid lo total slots → lo + used slots ≤ total
Laid-used lo total [] h = omega arith
Laid-used lo total (none ∷ rest) h = Laid-used lo total rest h
Laid-used lo total (some e ∷ rest) h = omega (arith, Laid-used (e.offset + e.size) total rest h.1)

-- What lies before the next object may be taken.
pub Laid-end_before :
    (lo hi total : ℕ) (slots : Slots)
    → Laid lo total slots
    → hi ≤ end_before total slots
    → Laid hi total slots
unfolding end_before
Laid-end_before lo hi total [] h k = k
Laid-end_before lo hi total (none ∷ rest) h k = Laid-end_before lo hi total rest h k
Laid-end_before lo hi total (some e ∷ rest) h k = (k, h.1)

pub Laid-weaken :
    (lo hi total : ℕ) (slots : Slots) → lo ≤ hi → Laid hi total slots → Laid lo total slots
Laid-weaken lo hi total [] le h = omega arith
Laid-weaken lo hi total (none ∷ rest) le h = Laid-weaken lo hi total rest le h
Laid-weaken lo hi total (some e ∷ rest) le h = (omega arith, h.1)

Laid-empty : (n total : ℕ) → Laid 0 total (replicate n none)
Laid-empty zero total = omega arith
Laid-empty (suc n) total = Laid-empty n total

Distinct-empty : (n : ℕ) → Distinct (replicate n none)
Distinct-empty zero = tt
Distinct-empty (suc n) = Distinct-empty n

used-empty : (n : ℕ) → used (replicate n none) ≡ 0
used-empty zero = refl
used-empty (suc n) = used-empty n

pub new-IsValid : (total chunk : ℕ) → total < 2 ^ 63 → 0 < chunk → IsValid (new total chunk)
unfolding new
new-IsValid total chunk h k = record {
  laid = Laid-empty max_objects total;
  distinct = Distinct-empty max_objects;
  counted = used-empty max_objects;
  chunked = k;
  bounded = h;
  sized = length-replicate {A = Option ObjectInfo} max_objects none;
}

-- An object that is found lies behind `lo` and ends by the total size.
pub lookup_within :
    (lo total id : ℕ) (slots : Slots) {e : ObjectInfo}
    → Laid lo total slots
    → lookup_slots id slots ≡ some e
    → (lo ≤ e.offset) × (e.offset + e.size ≤ total)
unfolding lookup_slots
lookup_within lo total id [] h k = cc
lookup_within lo total id (none ∷ rest) h k = lookup_within lo total id rest h k
lookup_within lo total id (some f ∷ rest) {e} h k = elim (Bool-cases (f.id == id)) [
  | inl here ↦ ground (arith, here, k, Laid-le (f.offset + f.size) total rest h.1)
  | inr there ↦
      let deep = lookup_within (f.offset + f.size) total id rest {e = e} h.1 (rw there at k) in
      omega (arith, deep)
]

pub lookup-id :
    (id : ℕ) (slots : Slots) {e : ObjectInfo} → lookup_slots id slots ≡ some e → e.id ≡ id
unfolding lookup_slots
lookup-id id [] k = cc
lookup-id id (none ∷ rest) k = lookup-id id rest k
lookup-id id (some f ∷ rest) {e} k = ground (arith, lookup-id id rest {e = e})

abbrev pub Apart : ObjectInfo → ObjectInfo → Type 0
Apart a b = (a.offset + a.size ≤ b.offset) ⊎ (b.offset + b.size ≤ a.offset)

Apart-slots :
    (lo total a b : ℕ) (slots : Slots) {e f : ObjectInfo}
    → Laid lo total slots
    → a ≢ b
    → lookup_slots a slots ≡ some e
    → lookup_slots b slots ≡ some f
    → Apart e f
unfolding lookup_slots
Apart-slots lo total a b [] h ne p q = cc
Apart-slots lo total a b (none ∷ rest) h ne p q = Apart-slots lo total a b rest h ne p q
Apart-slots lo total a b (some g ∷ rest) {e} {f} h ne p q =
    let hi : ℕ = g.offset + g.size in
    elim (Bool-cases (g.id == a)) [
      | inl isa ↦ elim (Bool-cases (g.id == b)) [
        | inl isb ↦ absurd (ne (omega (arith, (==_iff g.id a).0 isa, (==_iff g.id b).0 isb)))
        | inr nob ↦
            let within = lookup_within hi total b rest {e = f} h.1 (rw nob at q) in
            inl (ground (arith, isa, p, within))
      ]
      | inr noa ↦ elim (Bool-cases (g.id == b)) [
        | inl isb ↦
            let within = lookup_within hi total a rest {e = e} h.1 (rw noa at p) in
            inr (ground (arith, isb, q, within))
        | inr nob ↦ Apart-slots hi total a b rest h.1 ne (rw noa at p) (rw nob at q)
      ]
    ]

-- In a valid index two objects with different identifiers occupy disjoint ranges of the node, and
-- both end within its total size.
pub objects-Apart :
    (ix : ObjectIndex) (a b : ℕ) {e f : ObjectInfo}
    → IsValid ix
    → a ≢ b
    → lookup_object ix a ≡ some e
    → lookup_object ix b ≡ some f
    → Apart e f × (e.offset + e.size ≤ ix.total_size) × (f.offset + f.size ≤ ix.total_size)
unfolding lookup_object
objects-Apart ix a b v ne p q = (
  Apart-slots 0 ix.total_size a b ix.object_index v.laid ne p q,
  (lookup_within 0 ix.total_size a ix.object_index v.laid p).1,
  (lookup_within 0 ix.total_size b ix.object_index v.laid q).1,
)
