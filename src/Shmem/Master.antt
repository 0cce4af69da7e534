-- ===== src/Shmem/Master.antt =====
-- The master node after a change of its state, and after writes of objects.
use rep_cxl.Prelude.{
  ℕ, ltb, ◌==◌, ==_iff, ◌≡◌, refl, inl, inr, Bool, true, false, Bool-cases, Option, none, some,
  Option-cases, List, [], ◌∷◌, arith,
}
use mathlib.Core.Path.{subst}
use mathlib.Core.Option.{some-injective}
use rep_cxl.Prelude.Run.{ok, >>=-eq-ok}
use rep_cxl.Shmem.{SharedState, ObjectMemoryEntry, MemoryNode, store, min_by_id, lower, update_at}
use rep_cxl.Memio.{MemResult, safe_write, mem_writeall}

module _ {ℓ} {T : Type ℓ} where
  abbrev pub with_state : (SharedState → SharedState) → MemoryNode T → MemoryNode T
  with_state f n = record n { state = f n.state }

  abbrev Updated : (SharedState → SharedState) → List (MemoryNode T) → MemoryNode T → Type ℓ
  Updated f ns m = min_by_id (update_at m.id f ns) ≡ some (with_state f m)

  -- A change of the state of the master leaves it the master.
  pub min_by_id-update_at :
      (f : SharedState → SharedState) (ns : List (MemoryNode T)) (m : MemoryNode T)
      → min_by_id ns ≡ some m
      → min_by_id (update_at m.id f ns) ≡ some (with_state f m)
  unfolding min_by_id update_at
  min_by_id-update_at f [] m h = cc
  min_by_id-update_at f (n ∷ ns) m h = elim (Option-cases (min_by_id ns)) [
    | inl alone ↦
        let same : n ≡ m = some-injective _ _ (rw alone at h) in
        subst (Updated f (n ∷ ns)) same (rw ((==_iff n.id n.id).1 refl, alone) refl)
    | inr (k, found) ↦ elim (Bool-cases (ltb k.id n.id)) [
      | inl low ↦
          let same : k ≡ m = some-injective _ _ (rw (found, low) at h) in
          let other : (n.id == k.id) ≡ false = ground (arith, low) in
          subst (Updated f (n ∷ ns)) same (rw (other, min_by_id-update_at f ns k found, low) refl)
      | inr high ↦
          let same : n ≡ m = some-injective _ _ (rw (found, high) at h) in
          subst (Updated f (n ∷ ns)) same (rw ((==_iff n.id n.id).1 refl, found, high) refl)
    ]
  ]

  -- The nodes have the same numbers and states.
  abbrev pub SameStates : List (MemoryNode T) → List (MemoryNode T) → Type 0
  SameStates [] [] = Unit
  SameStates [] (m ∷ ms) = ⊥
  SameStates (n ∷ ns) [] = ⊥
  SameStates (n ∷ ns) (m ∷ ms) = (m.id ≡ n.id) × (m.state ≡ n.state) × SameStates ns ms

  SameStates-refl : (ns : List (MemoryNode T)) → SameStates ns ns
  SameStates-refl [] = tt
  SameStates-refl (n ∷ ns) = (refl, refl, SameStates-refl ns)

  abbrev pub Like : Option (MemoryNode T) → Option (MemoryNode T) → Type 0
  Like none none = Unit
  Like none (some b) = ⊥
  Like (some a) none = ⊥
  Like (some a) (some b) = (b.id ≡ a.id) × (b.state ≡ a.state)

  min_by_id-SameStates :
      (ns ms : List (MemoryNode T)) → SameStates ns ms → Like (min_by_id ns) (min_by_id ms)
  unfolding min_by_id
  min_by_id-SameStates [] [] h = tt
  min_by_id-SameStates [] (m ∷ ms) h = absurd h
  min_by_id-SameStates (n ∷ ns) [] h = absurd h
  min_by_id-SameStates (n ∷ ns) (m ∷ ms) h =
      pick n m (min_by_id ns) (min_by_id ms) h.0 h.1 (min_by_id-SameStates ns ms h.2)
    where
      pick :
          (n m : MemoryNode T) (a b : Option (MemoryNode T))
          → m.id ≡ n.id
          → m.state ≡ n.state
          → Like a b
          → Like (some (lower n a)) (some (lower m b))
      pick n m none none i s l = (i, s)
      pick n m none (some b) i s l = absurd l
      pick n m (some a) none i s l = absurd l
      pick n m (some a) (some b) i s l = elim (Bool-cases (ltb a.id n.id)) [
        | inl low ↦ let low' : ltb b.id m.id ≡ true = rw (l.0, i) low in rw (low, low') l
        | inr high ↦ let high' : ltb b.id m.id ≡ false = rw (l.0, i) high in rw (high, high') (i, s)
      ]

  mem_writeall-SameStates :
      (fails : ℕ → Bool) (offset : ℕ) (ome : ObjectMemoryEntry T) (ns : List (MemoryNode T))
      {r : MemResult (Unit {0})} {ms : List (MemoryNode T)}
      → mem_writeall fails offset ome ns ≡ ok (r, ms)
      → SameStates ns ms
  unfolding mem_writeall safe_write store
  mem_writeall-SameStates fails offset ome [] {ms} h =
      let same : [] ≡ ms = cc in subst (SameStates []) same tt
  mem_writeall-SameStates fails offset ome (n ∷ ns) {r} {ms} h =
      elim (Bool-cases (ltb offset n.size)) [
        | inr outside ↦ absurd (let no = rw outside at h in cc)
        | inl inside ↦ elim (Bool-cases (fails n.id)) [
          | inl fault ↦
              let stopped = rw (inside, fault) at h in
              let same : n ∷ ns ≡ ms = cc in
              subst (SameStates (n ∷ ns)) same (SameStates-refl (n ∷ ns))
          | inr fine ↦
              let ((r', ms'), rest, end) =
                >>=-eq-ok (mem_writeall fails offset ome ns) _ (rw (inside, fine) at h) in
              let same : store offset ome n ∷ ms' ≡ ms = cc in
              subst (SameStates (n ∷ ns)) same
                (refl, refl, mem_writeall-SameStates fails offset ome ns rest)
        ]
      ]

  -- A write of an object leaves the master's state.
  pub mem_writeall-master :
      (fails : ℕ → Bool) (offset : ℕ) (ome : ObjectMemoryEntry T) (ns : List (MemoryNode T))
      {r : MemResult (Unit {0})} {ms : List (MemoryNode T)} {m : MemoryNode T}
      → min_by_id ns ≡ some m
      → mem_writeall fails offset ome ns ≡ ok (r, ms)
      → (k : MemoryNode T) × (min_by_id ms ≡ some k) × (k.state ≡ m.state)
  mem_writeall-master fails offset ome ns {ms} {m} first h =
      let like : Like (some m) (min_by_id ms) =
        subst (λ a. Like a (min_by_id ms)) first
          (min_by_id-SameStates ns ms (mem_writeall-SameStates fails offset ome ns h)) in
      elim (Option-cases (min_by_id ms)) [
        | inl lost ↦ absurd (subst (Like (some m)) lost like)
        | inr (k, found) ↦ (k, found, (subst (Like (some m)) found like).1)
      ]
