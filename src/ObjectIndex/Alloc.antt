-- ===== src/ObjectIndex/Alloc.antt =====
-- `alloc_object`: what a successful allocation changes, and that it keeps the invariant.
use native.Mathlib.Nat.{mul-mod_left}
use mathlib.Core.Path.{subst, ◌∙◌}
use rep_cxl.Prelude.{
  ℕ, ◌+◌, ◌*◌, ◌-◌, ◌/◌, ◌%◌, ◌^◌, ◌≤◌, ◌<◌, ◌==◌, ltb, ltb→le, ◌≡◌, refl, sym, ap, inl, inr,
  Bool-cases, Option, none, some, Option-cases, if◌then◌else◌, arith,
}
use rep_cxl.Prelude.Run.{ok, >>=-eq-ok}
use rep_cxl.Prelude.Words.{add64, add64_exact, sub64, mul64}
use rep_cxl.ObjectIndex.{
  ObjectIndex, Slots, beginning, round_up, lookup_slots, lookup_object, first_fit, alloc_object,
  alloc_result,
}
use rep_cxl.ObjectIndex.Fit.{FirstFit, first_fit-FirstFit}
use rep_cxl.ObjectIndex.Valid.{IsValid, Laid-used}
use rep_cxl.ObjectIndex.Filled.{
  FirstFit-Laid, FirstFit-used, FirstFit-length, FirstFit-lookup, FirstFit-Distinct, placed,
}

pub round_up_lem :
    (size chunk : ℕ)
    → size < 2 ^ 63
    → chunk < 2 ^ 63
    → 0 < chunk
    → round_up size chunk ≡ ok ((size + chunk - 1) / chunk * chunk)
unfolding round_up add64 sub64 mul64
round_up_lem size chunk h k pos = ground arith

-- The rounded size is a multiple of the chunk, and less than one chunk above what was asked.
abbrev pub Rounded : ℕ → ℕ → ℕ → Type 0
Rounded size chunk r = (size ≤ r) × (r < size + chunk) × (r % chunk ≡ 0)

pub round_up-Rounded :
    (size chunk : ℕ) {r : ℕ}
    → size < 2 ^ 63
    → chunk < 2 ^ 63
    → 0 < chunk
    → round_up size chunk ≡ ok r
    → Rounded size chunk r
round_up-Rounded size chunk {r} h k pos e =
    ground (arith, round_up_lem size chunk h k pos, mul-mod_left ((size + chunk - 1) / chunk) chunk)

-- A completed call: refused with the index as it was, or the derivation of a placement.
pub record Placement (ix : ObjectIndex) (id size : ℕ) (start : ℕ) (ix' : ObjectIndex) : Type 0 where
  pub rounded : ℕ
  pub slots : Slots
  pub rounds : round_up size ix.chunk_size ≡ ok rounded
  pub room : add64 ix.allocated_size rounded ≤ ix.total_size
  pub fresh : lookup_slots id ix.object_index ≡ none
  pub fit : FirstFit id rounded ix.total_size beginning ix.object_index start slots
  pub result :
      ix' ≡ record ix { object_index = slots; allocated_size = add64 ix.allocated_size rounded }

placement :
    (ix : ObjectIndex) (id size rounded : ℕ) {s : ℕ} {ix' : ObjectIndex}
    → round_up size ix.chunk_size ≡ ok rounded
    → add64 ix.allocated_size rounded ≤ ix.total_size
    → lookup_slots id ix.object_index ≡ none
    → (found : Option (ℕ × Slots))
    → first_fit id rounded ix.total_size beginning ix.object_index ≡ ok found
    → alloc_result ix rounded found ≡ (some s, ix')
    → Placement ix id size s ix'
placement ix id size rounded er room fresh none ef h = absurd (cc)
placement ix id size rounded {s} er room fresh (some (s', slots)) ef h = record {
  rounded = rounded;
  slots = slots;
  rounds = er;
  room = room;
  fresh = fresh;
  fit =
      first_fit-FirstFit id rounded ix.total_size beginning ix.object_index (ground (arith, ef, h));
  result = cc;
}

pub alloc_object-Placement :
    (ix : ObjectIndex) (id size : ℕ) {s : ℕ} {ix' : ObjectIndex}
    → alloc_object ix id size ≡ ok (some s, ix')
    → Placement ix id size s ix'
unfolding alloc_object
alloc_object-Placement ix id size {s} {ix'} h =
    let (r, er, h1) = >>=-eq-ok (round_up size ix.chunk_size) _ h in
    elim (Bool-cases (ltb ix.total_size (add64 ix.allocated_size r))) [
      | inl full ↦ absurd (ground (arith, full, h1))
      | inr room ↦ elim (Option-cases (lookup_slots id ix.object_index)) [
        | inr there ↦ absurd (ground (arith, room, there, h1))
        | inl fresh ↦
            let (found, ef, h2) =
              >>=-eq-ok (first_fit id r ix.total_size beginning ix.object_index) _
                (rw (room, fresh) at h1) in
            placement ix id size r er (ltb→le _ _ room) fresh found ef (ground (arith, h2))
      ]
    ]

none-unchanged :
    (ix : ObjectIndex) (r : ℕ) (found : Option (ℕ × Slots)) {ix' : ObjectIndex}
    → alloc_result ix r found ≡ (none, ix')
    → ix' ≡ ix
none-unchanged ix r none h = cc
none-unchanged ix r (some (s, slots)) h = cc

-- A refused allocation leaves the index as it was.
pub alloc_object-none :
    (ix : ObjectIndex) (id size : ℕ) {ix' : ObjectIndex}
    → alloc_object ix id size ≡ ok (none, ix')
    → ix' ≡ ix
unfolding alloc_object
alloc_object-none ix id size {ix'} h =
    let (r, er, h1) = >>=-eq-ok (round_up size ix.chunk_size) _ h in
    elim (Bool-cases (ltb ix.total_size (add64 ix.allocated_size r))) [
      | inl full ↦ ground (arith, full, h1)
      | inr room ↦ elim (Option-cases (lookup_slots id ix.object_index)) [
        | inr there ↦ ground (arith, room, there, h1)
        | inl fresh ↦
            let (found, ef, h2) =
              >>=-eq-ok (first_fit id r ix.total_size beginning ix.object_index) _
                (rw (room, fresh) at h1) in
            none-unchanged ix r found (ground (arith, h2))
      ]
    ]

-- The index after a placement is valid, and its lookups are the old ones and the new object.
module _ {ix ix' : ObjectIndex} {id size s : ℕ} (v : IsValid ix) (small : size < 2 ^ 62)
    (chunk : ix.chunk_size < 2 ^ 62) (p : Placement ix id size s ix') where
  rounding : Rounded size ix.chunk_size p.rounded
  rounding = round_up-Rounded size ix.chunk_size (omega arith) (omega arith) v.chunked p.rounds

  pub exact : add64 ix.allocated_size p.rounded ≡ ix.allocated_size + p.rounded
  exact = add64_exact ix.allocated_size p.rounded (
      omega
        (arith, rounding, v.bounded, v.counted, Laid-used 0 ix.total_size ix.object_index v.laid))

  pub Placement-IsValid : IsValid ix'
  Placement-IsValid = subst IsValid (sym p.result) (record {
    laid = FirstFit-Laid 0 p.fit v.bounded (omega (arith, exact, p.room)) refl v.laid;
    distinct = FirstFit-Distinct p.fit p.fresh v.distinct;
    counted = omega (arith, FirstFit-used p.fit, exact, v.counted);
    chunked = v.chunked;
    bounded = v.bounded;
    sized = FirstFit-length p.fit ∙ v.sized;
  })

  pub Placement-lookup :
      (j : ℕ)
      → lookup_object ix' j ≡ (if id == j then some (placed id s p.rounded) else lookup_object ix j)
  unfolding lookup_object
  Placement-lookup j = rw p.result (FirstFit-lookup j p.fit p.fresh)

-- From a valid index, and with sizes below 2 ^ 62 (so that no sum wraps): an allocation that
-- returns an offset leaves a valid index, in which the identifier has an object at that offset of
-- the size asked for, rounded up to the next multiple of the chunk size, the space in use has grown
-- by that size, and every other identifier has the object that it had.
pub alloc_object_lem :
    (ix ix' : ObjectIndex) (id size s : ℕ)
    → IsValid ix
    → size < 2 ^ 62
    → ix.chunk_size < 2 ^ 62
    → alloc_object ix id size ≡ ok (some s, ix')
    → IsValid ix'
      × ((r : ℕ) × Rounded size ix.chunk_size r
          × (ix'.allocated_size ≡ ix.allocated_size + r)
          × ((j : ℕ)
              → lookup_object ix' j
                ≡ (if id == j then some (placed id s r) else lookup_object ix j)))
alloc_object_lem ix ix' id size s v small chunk h =
    let p = alloc_object-Placement ix id size h in
    (
      Placement-IsValid v small chunk p,
      (
        p.rounded,
        rounding v small chunk p,
        ap (λ (i : ObjectIndex). i.allocated_size) p.result ∙ exact v small chunk p,
        Placement-lookup v small chunk p,
      ),
    )
