-- ===== src/ObjectIndex/Fit.antt =====
-- The successful runs of `first_fit`, as derivations.
use mathlib.Core.Path.{subst, subst₂}
use rep_cxl.Prelude.{
  sym, ℕ, ◌≤◌, ◌≡◌, leb, leb→le, Bool-cases, Option, none, some, [], ◌∷◌, inl, inr, arith,
}
use rep_cxl.Prelude.Run.{Run, ok, panic, ◌>>=◌, >>=-eq-ok}
use rep_cxl.Prelude.Words.{add64}
use rep_cxl.ObjectIndex.{
  ObjectInfo, Slots, Previous, slot, start_after, end_before, first_fit, keep_slot,
}

pub data FirstFit (id size total : ℕ) : Previous → Slots → ℕ → Slots → Type 0 where
  skip_used :
      {before : Previous} {e : ObjectInfo} {rest : Slots} {s : ℕ} {out : Slots}
      → FirstFit id size total (slot (some e)) rest s out
      → FirstFit id size total before (some e ∷ rest) s (some e ∷ out)
  skip_hole :
      {before : Previous} {rest : Slots} {s : ℕ} {out : Slots}
      → FirstFit id size total (slot none) rest s out
      → FirstFit id size total before (none ∷ rest) s (none ∷ out)
  take :
      {before : Previous} {rest : Slots} {s : ℕ}
      → start_after before ≡ ok s
      → add64 s size ≤ end_before total rest
      → FirstFit id size total before
          (none ∷ rest)
          s
          (some (record { id = id; offset = s; size = size }) ∷ rest)

keep_slot-eq :
    (x : Option ObjectInfo) (m : Run (Option (ℕ × Slots))) {s : ℕ} {out : Slots}
    → (m >>= λ found. ok (keep_slot x found)) ≡ ok (some (s, out))
    → (out' : Slots) × (m ≡ ok (some (s, out'))) × (out ≡ x ∷ out')
keep_slot-eq x (ok none) h = cc
keep_slot-eq x (ok (some (s', out'))) h = (out', cc, cc)
keep_slot-eq x panic h = cc

moved :
    {id size total : ℕ} {before : Previous} {slots : Slots} {s s' : ℕ} {out out' : Slots}
    → FirstFit id size total before slots s out
    → s ≡ s'
    → out ≡ out'
    → FirstFit id size total before slots s' out'
moved {id} {size} {total} {before} {slots} f p q =
    subst₂ (FirstFit id size total before slots) p q f

pub first_fit-FirstFit :
    (id size total : ℕ) (before : Previous) (slots : Slots) {s : ℕ} {out : Slots}
    → first_fit id size total before slots ≡ ok (some (s, out))
    → FirstFit id size total before slots s out
unfolding first_fit
first_fit-FirstFit id size total before [] h = cc
first_fit-FirstFit id size total before (some e ∷ rest) {s} h =
    let (out', found, shape) =
      keep_slot-eq (some e) (first_fit id size total (slot (some e)) rest) h in
    subst (FirstFit id size total before (some e ∷ rest) s) (sym shape)
      (skip_used (first_fit-FirstFit id size total (slot (some e)) rest found))
first_fit-FirstFit id size total before (none ∷ rest) {s} h =
    let (a, at, found) = >>=-eq-ok (start_after before) _ h in
    elim (Bool-cases (leb (add64 a size) (end_before total rest))) [
      | inl fits ↦
          moved (take at (leb→le _ _ fits)) (ground (arith, fits, found))
            (ground (arith, fits, found))
      | inr full ↦
          let (out', deeper, shape) =
            keep_slot-eq none (first_fit id size total (slot none) rest) (rw full at found) in
          subst (FirstFit id size total before (none ∷ rest) s) (sym shape)
            (skip_hole (first_fit-FirstFit id size total (slot none) rest deeper))
    ]
