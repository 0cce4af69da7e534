-- ===== src/ObjectIndex/Packed.antt =====
-- An index from which nothing was ever freed: its objects stand one behind the other in the first
-- slots. `alloc_object` never panics there, and puts the new object behind the last one.
use native.Mathlib.Nat.{add-zero}
use mathlib.Core.Path.{subst}
use mathlib.Core.Option.{some-injective}
use rep_cxl.Prelude.{
  ℕ, ◌+◌, ◌-◌, ◌*◌, ◌/◌, ◌^◌, ◌≤◌, ◌<◌, ltb, ltb→lt, ltb→le, ◌≡◌, refl, sym, Bool-cases, ◌⊎◌, inl,
  inr, true, false, Option, none, some, Option-cases, [], ◌∷◌, arith,
}
use rep_cxl.Prelude.Run.{ok}
use rep_cxl.Prelude.Words.{add64, add64_exact}
use rep_cxl.ObjectIndex.{
  ObjectInfo, ObjectIndex, Slots, Previous, beginning, slot, start_after, end_before, keep_slot,
  round_up, lookup_object, first_fit, alloc_object, alloc_result, is_some,
}
use rep_cxl.ObjectIndex.Valid.{used, IsValid, Laid-used}
use rep_cxl.ObjectIndex.Filled.{placed}
use rep_cxl.ObjectIndex.Alloc.{Rounded, round_up_lem, round_up-Rounded}

abbrev pub Unused : Slots → Type 0
Unused [] = Unit
Unused (none ∷ rest) = Unused rest
Unused (some e ∷ rest) = ⊥

abbrev pub Packed : ℕ → Slots → Type 0
Packed lo [] = Unit
Packed lo (none ∷ rest) = Unused rest
Packed lo (some e ∷ rest) = (e.offset ≡ lo) × Packed (lo + e.size) rest

-- The slots with `e` in the first hole, if there is a hole.
abbrev pub fill : ObjectInfo → Slots → Option Slots
fill e [] = none
fill e (none ∷ rest) = some (some e ∷ rest)
fill e (some f ∷ rest) = elim (fill e rest) [ none ↦ none | some out ↦ some (some f ∷ out) ]

abbrev pub at_offset : ℕ → Option Slots → Option (ℕ × Slots)
at_offset s none = none
at_offset s (some out) = some (s, out)

end_before-Unused : (total : ℕ) (slots : Slots) → Unused slots → end_before total slots ≡ total
unfolding end_before
end_before-Unused total [] h = refl
end_before-Unused total (none ∷ rest) h = end_before-Unused total rest h
end_before-Unused total (some e ∷ rest) h = absurd h

used-Unused : (slots : Slots) → Unused slots → used slots ≡ 0
used-Unused [] h = refl
used-Unused (none ∷ rest) h = used-Unused rest h
used-Unused (some e ∷ rest) h = absurd h

keep-at_offset :
    (e : ObjectInfo) (n : ℕ) (o : Option Slots)
    → keep_slot (some e) (at_offset n o)
      ≡ at_offset n (elim o [ none ↦ none | some out ↦ some (some e ∷ out) ])
keep-at_offset e n none = refl
keep-at_offset e n (some out) = refl

first_fit-Packed :
    (id size total lo : ℕ) (before : Previous) (slots : Slots)
    → total < 2 ^ 63
    → start_after before ≡ ok lo
    → Packed lo slots
    → lo + used slots + size ≤ total
    → first_fit id size total before slots
      ≡ ok (at_offset (lo + used slots) (fill (placed id (lo + used slots) size) slots))
unfolding first_fit
first_fit-Packed id size total lo before [] small at h room = refl
first_fit-Packed id size total lo before (none ∷ rest) small at h room =
    let whole = end_before-Unused total rest h in
    let idle = used-Unused rest h in
    rw (idle, add-zero, at) (ground (arith, whole, idle, add64_exact lo size))
first_fit-Packed id size total lo before (some e ∷ rest) small at h room =
    let regroup : lo + e.size + used rest ≡ lo + (e.size + used rest) = omega arith in
    let here : start_after (slot (some e)) ≡ ok (lo + e.size) =
      rw (h.0, add64_exact lo e.size (omega arith)) in
    let rest_fit =
      first_fit-Packed id size total (lo + e.size) (slot (some e)) rest small here h.1
        (omega arith) in
    rw (rest_fit, regroup, keep-at_offset)

Unused-Packed : (lo : ℕ) (slots : Slots) → Unused slots → Packed lo slots
Unused-Packed lo [] h = tt
Unused-Packed lo (none ∷ rest) h = h
Unused-Packed lo (some e ∷ rest) h = absurd h

Packed-fill :
    (lo size id n : ℕ) (slots : Slots) {out : Slots}
    → n ≡ lo + used slots
    → Packed lo slots
    → fill (placed id n size) slots ≡ some out
    → Packed lo out
Packed-fill lo size id n [] e h k = cc
Packed-fill lo size id n (none ∷ rest) e h k =
    let idle = used-Unused rest h in
    subst (Packed lo) (some-injective _ _ k) (omega (arith, idle), Unused-Packed (lo + size) rest h)
Packed-fill lo size id n (some f ∷ rest) {out} e h k =
    elim (Option-cases (fill (placed id n size) rest)) [
      | inl full ↦ absurd (ground (arith, full, k))
      | inr (deep, eq) ↦
          subst (Packed lo) (some-injective _ _ (rw eq at k))
            (h.0, Packed-fill (lo + f.size) size id n rest (omega arith) h.1 eq)
    ]

-- Why a packed index refuses a request that takes `r` bytes.
abbrev pub Refused : ObjectIndex → ℕ → ℕ → Type 0
Refused ix id r =
    (ix.total_size < ix.allocated_size + r)
    ⊎ (is_some (lookup_object ix id) ≡ true)
    ⊎ (fill (placed id ix.allocated_size r) ix.object_index ≡ none)

start_after-beginning : start_after beginning ≡ ok 0
unfolding start_after
start_after-beginning = refl

module _ (ix : ObjectIndex) (id size r : ℕ) (rounds : round_up size ix.chunk_size ≡ ok r)
    (sum : add64 ix.allocated_size r ≡ ix.allocated_size + r) where
  alloc-over :
      ltb ix.total_size (ix.allocated_size + r) ≡ true → alloc_object ix id size ≡ ok (none, ix)
  unfolding alloc_object
  alloc-over over = rw (rounds, sum, over)

  module _ (room : ltb ix.total_size (ix.allocated_size + r) ≡ false) where
    alloc-taken : is_some (lookup_object ix id) ≡ true → alloc_object ix id size ≡ ok (none, ix)
    unfolding alloc_object
    alloc-taken taken = rw (rounds, sum, room, taken)

    alloc-free :
        {found : Option (ℕ × Slots)}
        → is_some (lookup_object ix id) ≡ false
        → first_fit id r ix.total_size beginning ix.object_index ≡ ok found
        → alloc_object ix id size ≡ ok (alloc_result ix r found)
    unfolding alloc_object
    alloc-free fresh fits = rw (rounds, sum, room, fresh, fits)

-- From a valid index from which nothing was freed, and with sizes below 2 ^ 62, `alloc_object` does
-- not panic: it returns the space in use as the offset and leaves such an index again, or it
-- refuses and leaves the index as it was, and then the rounded size does not fit, the identifier is
-- taken, or every slot is in use.
pub alloc_object-Packed :
    (ix : ObjectIndex) (id size : ℕ)
    → IsValid ix
    → Packed 0 ix.object_index
    → size < 2 ^ 62
    → ix.chunk_size < 2 ^ 62
    → (r : ℕ) × (ix' : ObjectIndex) × Rounded size ix.chunk_size r
      × Packed 0 ix'.object_index
      × ((alloc_object ix id size ≡ ok (some ix.allocated_size, ix'))
          ⊎ ((alloc_object ix id size ≡ ok (none, ix)) × (ix' ≡ ix) × Refused ix id r))
alloc_object-Packed ix id size v packed small chunk =
    let r = (size + ix.chunk_size - 1) / ix.chunk_size * ix.chunk_size in
    let rounds = round_up_lem size ix.chunk_size (omega arith) (omega arith) v.chunked in
    let near = round_up-Rounded size ix.chunk_size (omega arith) (omega arith) v.chunked rounds in
    let full = Laid-used 0 ix.total_size ix.object_index v.laid in
    let sum = add64_exact ix.allocated_size r (omega (arith, near, full, v.counted, v.bounded)) in
    elim (Bool-cases (ltb ix.total_size (ix.allocated_size + r))) [
      | inl over ↦ (
        r,
        ix,
        near,
        packed,
        inr (alloc-over ix id size r rounds sum over, refl, inl (ltb→lt _ _ over)),
      )
      | inr room ↦ elim (Bool-cases (is_some (lookup_object ix id))) [
        | inl taken ↦ (
          r,
          ix,
          near,
          packed,
          inr (alloc-taken ix id size r rounds sum room taken, refl, inr (inl taken)),
        )
        | inr fresh ↦
            let whole : 0 + used ix.object_index ≡ ix.allocated_size = omega (arith, v.counted) in
            let fits =
              first_fit-Packed id r ix.total_size 0 beginning ix.object_index v.bounded
                start_after-beginning packed (omega (arith, v.counted, ltb→le _ _ room)) in
            let done = alloc-free ix id size r rounds sum room fresh (rw whole at fits) in
            elim (Option-cases (fill (placed id ix.allocated_size r) ix.object_index)) [
              | inl none_left ↦
                  (r, ix, near, packed, inr (rw none_left at done, refl, inr (inr none_left)))
              | inr (out, filled) ↦ (
                r,
                record ix { object_index = out; allocated_size = add64 ix.allocated_size r },
                near,
                Packed-fill 0 r id ix.allocated_size ix.object_index (sym whole) packed filled,
                inl (rw filled at done),
              )
            ]
      ]
    ]
