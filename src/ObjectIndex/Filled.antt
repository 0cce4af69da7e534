-- ===== src/ObjectIndex/Filled.antt =====
-- What the first fit of `alloc_object` leaves in the slots.
use rep_cxl.Prelude.{
  ℕ, suc, ◌+◌, ◌^◌, ◌≤◌, ◌<◌, ◌==◌, ◌≡◌, refl, ap, false, none, some, ◌∷◌, length, if◌then◌else◌,
  arith,
}
use rep_cxl.Prelude.Run.{ok}
use rep_cxl.Prelude.Words.{word, add64_exact}
use rep_cxl.ObjectIndex.{ObjectInfo, Slots, Previous, beginning, slot, start_after, lookup_slots}
use rep_cxl.ObjectIndex.Fit.{FirstFit, skip_used, skip_hole, take}
use rep_cxl.ObjectIndex.Valid.{Laid, Distinct, used, Laid-le, Laid-end_before}

-- The number behind the object that stands before a slot.
abbrev Follows : Previous → ℕ → Type 0
Follows beginning lo = lo ≡ 0
Follows (slot none) lo = Unit
Follows (slot (some e)) lo = lo ≡ e.offset + e.size

start_after-Follows :
    (before : Previous) (lo : ℕ) {s : ℕ}
    → lo < word
    → Follows before lo
    → start_after before ≡ ok s
    → s ≡ lo
unfolding start_after
start_after-Follows beginning lo small h k = ground arith
start_after-Follows (slot none) lo small h k = cc
start_after-Follows (slot (some e)) lo small h k = ground (arith, add64_exact e.offset e.size)

pub FirstFit-Laid :
    {id size total : ℕ} {before : Previous} {slots out : Slots} {s : ℕ} (lo : ℕ)
    → FirstFit id size total before slots s out
    → total < 2 ^ 63
    → size ≤ total
    → Follows before lo
    → Laid lo total slots
    → Laid lo total out
FirstFit-Laid lo (skip_used {e} f) small fits at h =
    (h.0, FirstFit-Laid (e.offset + e.size) f small fits refl h.1)
FirstFit-Laid lo (skip_hole f) small fits at h = FirstFit-Laid lo f small fits tt h
FirstFit-Laid {size} {total} {before} lo (take {rest} {s} start room) small fits at h =
    let below = Laid-le lo total rest h in
    let here = start_after-Follows before lo (omega arith) at start in
    (
      omega arith,
      Laid-end_before lo (s + size) total rest h (omega (arith, add64_exact s size (omega arith))),
    )

pub FirstFit-used :
    {id size total : ℕ} {before : Previous} {slots out : Slots} {s : ℕ}
    → FirstFit id size total before slots s out
    → used out ≡ used slots + size
FirstFit-used (skip_used f) = omega (arith, FirstFit-used f)
FirstFit-used (skip_hole f) = FirstFit-used f
FirstFit-used (take start room) = omega arith

pub FirstFit-length :
    {id size total : ℕ} {before : Previous} {slots out : Slots} {s : ℕ}
    → FirstFit id size total before slots s out
    → length out ≡ length slots
FirstFit-length (skip_used f) = ap suc (FirstFit-length f)
FirstFit-length (skip_hole f) = ap suc (FirstFit-length f)
FirstFit-length (take start room) = refl

abbrev pub placed : ℕ → ℕ → ℕ → ObjectInfo
placed id s size = record { id = id; offset = s; size = size }

pub fresh_tail :
    (id : ℕ) (e : ObjectInfo) (rest : Slots)
    → lookup_slots id (some e ∷ rest) ≡ none
    → ((e.id == id) ≡ false) × (lookup_slots id rest ≡ none)
unfolding lookup_slots
fresh_tail id e rest h = ground arith

pub FirstFit-lookup :
    {id size total : ℕ} {before : Previous} {slots out : Slots} {s : ℕ} (j : ℕ)
    → FirstFit id size total before slots s out
    → lookup_slots id slots ≡ none
    → lookup_slots j out ≡ (if id == j then some (placed id s size) else lookup_slots j slots)
unfolding lookup_slots
FirstFit-lookup {id} j (skip_used {e} {rest} f) fresh =
    let (other, tail) = fresh_tail id e rest fresh in ground (arith, FirstFit-lookup j f tail)
FirstFit-lookup j (skip_hole f) fresh = FirstFit-lookup j f fresh
FirstFit-lookup j (take start room) fresh = refl

pub FirstFit-Distinct :
    {id size total : ℕ} {before : Previous} {slots out : Slots} {s : ℕ}
    → FirstFit id size total before slots s out
    → lookup_slots id slots ≡ none
    → Distinct slots
    → Distinct out
unfolding lookup_slots
FirstFit-Distinct {id} (skip_used {e} {rest} f) fresh d =
    let (other, tail) = fresh_tail id e rest fresh in
    (ground (arith, FirstFit-lookup e.id f tail), FirstFit-Distinct f tail d.1)
FirstFit-Distinct (skip_hole f) fresh d = FirstFit-Distinct f fresh d
FirstFit-Distinct (take start room) fresh d = (fresh, d)
