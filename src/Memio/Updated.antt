-- ===== src/Memio/Updated.antt =====
-- The nodes of src/shmem.rs after the state of one of them was updated, and nodes that are ready for
-- an access at an offset.
use rep_cxl.Prelude.{
  ℕ, ◌<◌, ◌==◌, ◌≡◌, refl, inl, inr, Bool-cases, some, List, [], ◌∷◌, length, map, All, Bool, arith,
}
use rep_cxl.Shmem.{SharedState, MemoryNode, min_by_id, update_at}
use rep_cxl.Memio.Replicas.{Ready, InRange, NoFailure}

module _ {ℓ} {T : Type ℓ} where
  pub objects-update_at :
      (other id : ℕ) (f : SharedState → SharedState) (ns : List (MemoryNode T))
      → map (λ n. n.objects other) (update_at id f ns) ≡ map (λ n. n.objects other) ns
  unfolding update_at
  objects-update_at other id f [] = refl
  objects-update_at other id f (n ∷ ns) = let rest = objects-update_at other id f ns in ground arith

  pub length-update_at :
      (id : ℕ) (f : SharedState → SharedState) (ns : List (MemoryNode T))
      → length (update_at id f ns) ≡ length ns
  unfolding update_at
  length-update_at id f [] = refl
  length-update_at id f (n ∷ ns) = let rest = length-update_at id f ns in ground arith

  pub min_by_id-some :
      (ns : List (MemoryNode T)) {m : MemoryNode T} → min_by_id ns ≡ some m → 0 < length ns
  unfolding min_by_id
  min_by_id-some [] h = absurd (cc)
  min_by_id-some (n ∷ ns) h = omega arith

module _ {ℓ} {T : Type ℓ} (fails : ℕ → Bool) (offset : ℕ) where
  pub Ready-update_at :
      (id : ℕ) (f : SharedState → SharedState) (ns : List (MemoryNode T))
      → All (Ready fails offset) ns
      → All (Ready fails offset) (update_at id f ns)
  unfolding update_at
  Ready-update_at id f [] h = tt
  Ready-update_at id f (n ∷ ns) h = elim (Bool-cases (n.id == id)) [
    | inl here ↦ rw here h
    | inr there ↦ rw there (h.0, Ready-update_at id f ns h.1)
  ]

  pub Ready-InRange :
      (ns : List (MemoryNode T)) → All (Ready fails offset) ns → InRange fails offset ns
  Ready-InRange [] h = tt
  Ready-InRange (n ∷ ns) h = (h.0.0, Ready-InRange ns h.1)

  pub Ready-NoFailure :
      (ns : List (MemoryNode T)) → All (Ready fails offset) ns → NoFailure fails offset ns
  Ready-NoFailure [] h = tt
  Ready-NoFailure (n ∷ ns) h = (h.0.1, Ready-NoFailure ns h.1)
