-- ===== src/Wcc/Object/Unbeaten.antt =====
-- When `is_last` of `ObjectWcc` answers true: no entry beats the process.
use rep_cxl.Prelude.{
  ℕ, zero, suc, ◌+◌, ◌≤◌, ◌<◌, le→ltb, ◌≡◌, refl, sym, ◌⊎◌, inl, inr, true, false, Bool-cases, some,
  List, [], ◌∷◌, get_elem?, arith,
}
use native.Mathlib.Nat.{add-zero}
use mathlib.Core.Path.{◌∙◌}
use mathlib.Core.Bool.{false≢true}
use mathlib.Core.Option.{some-injective}
use rep_cxl.Wcc.{max_processes}
use rep_cxl.Wcc.Object.{Entry, ObjectWcc, beats, no_winner, is_last}

-- The entry of process `i` takes the object from a process that wrote in `round`.
abbrev pub Beats : ℕ → ℕ → ℕ → ℕ → ℕ → Entry → Type 0
Beats oid current round pid i e =
    (e.oid ≡ oid) × (((e.round < current) × (round < e.round)) ⊎ ((e.round ≡ round) × (pid < i)))

beats-Beats :
    (oid current round pid i : ℕ) (e : Entry)
    → beats oid current round pid i e ≡ true
    → Beats oid current round pid i e
beats-Beats oid current round pid i e h = ground arith

Beats-beats :
    (oid current round pid i : ℕ) (e : Entry)
    → Beats oid current round pid i e
    → beats oid current round pid i e ≡ true
Beats-beats oid current round pid i e (same, inl later) = ground arith
Beats-beats oid current round pid i e (same, inr larger) = ground arith

module _ (oid current round pid : ℕ) where
  -- No entry of the list, whose first is that of process `i`, beats the process.
  abbrev pub Unbeaten : ℕ → List Entry → Type 0
  Unbeaten i es =
      (k : ℕ) (e : Entry) → get_elem? es k ≡ some e → ¬ (Beats oid current round pid (i + k) e)

  no_winner-cons :
      (i : ℕ) (x : Entry) (es : List Entry)
      → no_winner oid current round pid i (x ∷ es) ≡ true
      → (beats oid current round pid i x ≡ false)
        × (no_winner oid current round pid (suc i) es ≡ true)
  unfolding no_winner
  no_winner-cons i x es h = ground arith

  no_winner-Unbeaten :
      (i : ℕ) (es : List Entry) → no_winner oid current round pid i es ≡ true → Unbeaten i es
  no_winner-Unbeaten i [] h k e at b = cc
  no_winner-Unbeaten i (x ∷ es) h zero e at b =
      let same : x ≡ e = some-injective _ _ at in
      let hit : Beats oid current round pid i x = rw (same, ← add-zero i) b in
      false≢true (sym (no_winner-cons i x es h).0 ∙ Beats-beats oid current round pid i x hit)
  no_winner-Unbeaten i (x ∷ es) h (suc k) e at b =
      let next : suc i + k ≡ i + suc k = omega arith in
      no_winner-Unbeaten (suc i) es (no_winner-cons i x es h).1 k e at (rw next b)

  Unbeaten-no_winner :
      (i : ℕ) (es : List Entry) → Unbeaten i es → no_winner oid current round pid i es ≡ true
  unfolding no_winner
  Unbeaten-no_winner i [] h = refl
  Unbeaten-no_winner i (x ∷ es) h = elim (Bool-cases (beats oid current round pid i x)) [
    | inl b ↦ absurd (h 0 x refl (rw add-zero (beats-Beats oid current round pid i x b)))
    | inr b ↦ rw b (
        Unbeaten-no_winner (suc i) es
          (λ k e at. let next : suc i + k ≡ i + suc k = omega arith in rw next (h (suc k) e at)))
  ]

module _ (w : ObjectWcc) (oid current round pid : ℕ) where
  pub is_last-Unbeaten :
      is_last w oid current round pid ≡ true → Unbeaten oid current round pid 0 w.p_round
  unfolding is_last
  is_last-Unbeaten h = no_winner-Unbeaten oid current round pid 0 w.p_round (ground arith)

  pub Unbeaten-is_last :
      pid ≤ max_processes
      → Unbeaten oid current round pid 0 w.p_round
      → is_last w oid current round pid ≡ true
  unfolding is_last
  Unbeaten-is_last small h =
      rw (le→ltb max_processes pid small) (Unbeaten-no_winner oid current round pid 0 w.p_round h)
