-- ===== src/Bench/Found.antt =====
-- The replicas of src/bin/rep_bench.rs get the objects that its coordinator made.
use Prim.Native.Nat.{ℕ, zero, suc, ◌+◌, ◌^◌, ◌≤◌, ◌<◌}
use rep_cxl.Prelude.{
  ==_iff, ◌≡◌, ◌≢◌, refl, sym, ap, ◌∙◌, ◌⊎◌, inl, inr, true, false, Option, none, some, List, [],
  ◌∷◌, map, length, arith,
}
use rep_cxl.Prelude.Run.{ok, >>=-eq-ok}
use rep_cxl.ObjectIndex.{ObjectIndex, new, round_up}
use rep_cxl.ObjectIndex.Valid.{IsValid, new-IsValid}
use rep_cxl.ObjectIndex.Alloc.{alloc_object-Placement, Placement-lookup, Placement-IsValid}
use rep_cxl.Shmem.{new_state}
use rep_cxl.RepCxl.{
  RepCxl, RepCxlObject, object_of, new_object, get_object, found_object, is_coordinator, init_state,
  write_states,
}
use rep_cxl.RepCxl.Objects.{Indexed, Indexed-write_state, new_object-Made, Made-found, ==-false}
use rep_cxl.Bench.{expect, create_objects, find_object, find_objects, open_objects}

-- The object as `get_object` gives it: with the size that was set aside for it.
abbrev pub with_size : ℕ → RepCxlObject → RepCxlObject
with_size rounded obj =
    object_of (record { id = obj.info.id; offset = obj.info.offset; size = rounded })

expect-ok :
    (made : Option RepCxlObject) {obj : RepCxlObject} → expect made ≡ ok obj → made ≡ some obj
expect-ok none h = cc
expect-ok (some o) h = cc

module _ {ℓ} {F : Type 0} {T : Type ℓ} where
  -- A run that made one object more than `left` made the first and then the rest.
  create_objects-first :
      (size i left : ℕ) (r r' : RepCxl F T) (objs : List RepCxlObject)
      → create_objects size i (suc left) r ≡ ok (objs, r')
      → (obj : RepCxlObject) × (r1 : RepCxl F T) × (rest : List RepCxlObject) × (new_object size i r
          ≡ ok (some obj, r1))
        × (create_objects size (suc i) left r1 ≡ ok (rest, r'))
        × (objs ≡ obj ∷ rest)
  unfolding create_objects
  create_objects-first size i left r r' objs h =
      let ((made, r1), e1, h1) = >>=-eq-ok (new_object size i r) _ h in
      let (obj, e2, h2) = >>=-eq-ok (expect made) _ h1 in
      let ((rest, r2), e3, h3) = >>=-eq-ok (create_objects size (suc i) left r1) _ h2 in
      let end : r2 ≡ r' = cc in
      (
        obj,
        r1,
        rest,
        e1 ∙ ap (λ m. ok (m, r1)) (expect-ok made e2),
        e3 ∙ ap (λ x. ok (rest, x)) end,
        cc,
      )

  -- The objects `i`, `i + 1`, ... are found in `r` as the list has them.
  abbrev Located : ℕ → ℕ → List RepCxlObject → RepCxl F T → Type 0
  Located rounded i [] r = Unit
  Located rounded i (obj ∷ objs) r =
      (get_object i r ≡ ok (some (with_size rounded obj))) × Located rounded (suc i) objs r

  -- All nodes hold one valid index with the chunk size `chunk`.
  abbrev Kept : ℕ → RepCxl F T → Type 0
  Kept chunk r =
      (ix : ObjectIndex) × Indexed ix r.view.memory_nodes × IsValid ix × (ix.chunk_size ≡ chunk)

  module _ (size chunk rounded : ℕ) (small : size < 2 ^ 62) (low : chunk < 2 ^ 62)
      (rounds : round_up size chunk ≡ ok rounded) where
    new_object-Kept :
        (id : ℕ) (r r' : RepCxl F T) (obj : RepCxlObject)
        → Kept chunk r
        → new_object size id r ≡ ok (some obj, r')
        → Kept chunk r'
          × (get_object id r' ≡ ok (some (with_size rounded obj)))
          × ((j : ℕ) → id ≢ j → get_object j r' ≡ get_object j r)
    new_object-Kept id r r' obj (ix, held, v, chunks) made =
        let (coord, room, fits, m) = new_object-Made size id r obj r' made in
        let (allocated, held', now, before) = Made-found ix held m in
        let p = alloc_object-Placement ix id size allocated in
        let fine : ix.chunk_size < 2 ^ 62 = rw chunks low in
        let same : p.rounded ≡ rounded =
          (let e : ok p.rounded ≡ ok rounded = sym p.rounds ∙ rw chunks rounds in cc) in
        let found = Placement-lookup v small fine p in
        (
          (
            m.index,
            held',
            Placement-IsValid v small fine p,
            ap (λ (i : ObjectIndex). i.chunk_size) p.result ∙ chunks,
          ),
          now id ∙ rw (found id, (==_iff id id).1 refl, m.made, same) refl,
          λ j other.
              now j
              ∙ ap (λ o. ok (found_object j o)) (found j ∙ rw (==-false id j other) refl)
              ∙ sym (before j),
        )

    create_objects-Located :
        (left i : ℕ) (r r' : RepCxl F T) (objs : List RepCxlObject)
        → Kept chunk r
        → create_objects size i left r ≡ ok (objs, r')
        → Located rounded i objs r'
          × (length objs ≡ left)
          × ((j : ℕ) → j < i → get_object j r' ≡ get_object j r)
    unfolding create_objects
    create_objects-Located zero i r r' objs kept h =
        let none_left : objs ≡ [] = cc in
        let same : r' ≡ r = cc in rw (none_left, same) (tt, refl, λ j lt. refl)
    create_objects-Located (suc left) i r r' objs kept h =
        let (obj, r1, rest, made, others, all) = create_objects-first size i left r r' objs h in
        let (kept1, here, apart) = new_object-Kept i r r1 obj kept made in
        let (located, long, before) = create_objects-Located left (suc i) r1 r' rest kept1 others in
        rw all (
          (before i (omega arith) ∙ here, located),
          ap suc long,
          λ j lt. before j (omega arith) ∙ apart j (λ e. omega (arith, e, lt)),
        )

    module _ (seen : ℕ → RepCxl F T) (r' : RepCxl F T) (count k : ℕ)
        (early : (t j : ℕ)
          → j < count
          → (get_object j (seen t) ≡ ok none) ⊎ (get_object j (seen t) ≡ get_object j r'))
        (late : (t j : ℕ) → j < count → k ≤ t → get_object j (seen t) ≡ get_object j r') where
      find_object-found :
          (i t fuel : ℕ) (obj : RepCxlObject)
          → i < count
          → k ≤ t + fuel
          → get_object i r' ≡ ok (some obj)
          → (t' : ℕ) × (find_object seen i t (suc fuel) ≡ ok (some (obj, t')))
      unfolding find_object
      find_object-found i t zero obj lt enough there =
          (suc t, rw (late t i lt (omega arith), there) refl)
      find_object-found i t (suc fuel) obj lt enough there = elim (early t i lt) [
        | inl missing ↦
            let (t', e) = find_object-found i (suc t) fuel obj lt (omega arith) there in
            (t', rw missing e)
        | inr same ↦ (suc t, rw (same, there) refl)
      ]

      find_objects-found :
          (left i t fuel : ℕ) (objs : List RepCxlObject)
          → i + left ≤ count
          → k ≤ fuel
          → Located rounded i objs r'
          → length objs ≡ left
          → find_objects seen (suc fuel) i t left ≡ ok (some (map (with_size rounded) objs))
      unfolding find_objects
      find_objects-found zero i t fuel [] room enough there long = refl
      find_objects-found zero i t fuel (obj ∷ objs) room enough there long = absurd (omega arith)
      find_objects-found (suc left) i t fuel [] room enough there long = absurd (omega arith)
      find_objects-found (suc left) i t fuel (obj ∷ objs) room enough (here, rest) long =
          let (t', found) =
            find_object-found i t fuel (with_size rounded obj) (omega arith) (omega arith) here in
          let others =
            find_objects-found left (suc i) t' fuel objs (omega arith) enough rest (omega arith) in
          rw (found, others) refl

module _ {ℓ} {F : Type 0} {T : Type ℓ} where
  coordinator_objects :
      (size count fuel : ℕ) (seen : ℕ → RepCxl F T) (r r' : RepCxl F T) (objs : List RepCxlObject)
      → is_coordinator r ≡ true
      → open_objects size count fuel seen r ≡ ok (some objs, r')
      → create_objects size 0 count (init_state r) ≡ ok (objs, r')
  unfolding open_objects
  coordinator_objects size count fuel seen r r' objs coord h =
      let ((objs', r2), e, h1) =
        >>=-eq-ok (create_objects size 0 count (init_state r)) _ (rw coord at h) in
      let same : (objs', r2) ≡ (objs, r') =
        (let p : objs' ≡ objs = cc in let q : r2 ≡ r' = cc in rw (p, q) refl) in
      e ∙ ap ok same

  init_state-Kept :
      (r : RepCxl F T)
      → is_coordinator r ≡ true
      → r.config.mem_size < 2 ^ 63
      → 0 < r.config.chunk_size
      → Kept r.config.chunk_size (init_state r)
  unfolding init_state write_states new_state new
  init_state-Kept r coord fits pos = rw coord (
    (new_state r.config.mem_size r.config.chunk_size).object_index,
    Indexed-write_state (new_state r.config.mem_size r.config.chunk_size) r.view.memory_nodes,
    new-IsValid r.config.mem_size r.config.chunk_size fits pos,
    refl,
  )

  -- If the coordinator, with a total size below 2 ^ 63, a positive chunk size and both sizes below
  -- 2 ^ 62, created `count` objects and left the instance `r'`, and a replica, whenever it looks, finds
  -- each object not yet or as it is in `r'`, and from time `k` on as it is there: then the replica
  -- gets, within more than `k` tries for each, exactly the objects that the coordinator created, in
  -- order and at their offsets, with the sizes rounded up to whole chunks.
  pub open_objects-agree :
      (size count k fuel rounded : ℕ) (never seen : ℕ → RepCxl F T) (r r' q : RepCxl F T)
      (objs : List RepCxlObject)
      → r.config.mem_size < 2 ^ 63
      → 0 < r.config.chunk_size
      → r.config.chunk_size < 2 ^ 62
      → size < 2 ^ 62
      → round_up size r.config.chunk_size ≡ ok rounded
      → is_coordinator r ≡ true
      → open_objects size count fuel never r ≡ ok (some objs, r')
      → is_coordinator q ≡ false
      → ((t j : ℕ)
          → j < count
          → (get_object j (seen t) ≡ ok none) ⊎ (get_object j (seen t) ≡ get_object j r'))
      → ((t j : ℕ) → j < count → k ≤ t → get_object j (seen t) ≡ get_object j r')
      → k ≤ fuel
      → open_objects size count (suc fuel) seen q ≡ ok (some (map (with_size rounded) objs), q)
  unfolding open_objects
  open_objects-agree size count k fuel rounded never seen r r' q objs total pos chunk small rounds
        coord opened replica early late enough =
      let (located, long, before) =
        create_objects-Located size r.config.chunk_size rounded small chunk rounds count 0
          (init_state r) r' objs (init_state-Kept r coord total pos)
          (coordinator_objects size count fuel never r r' objs coord opened) in
      let found =
        find_objects-found size r.config.chunk_size rounded small chunk rounds seen r' count k early
          late count 0 0 fuel objs (omega arith) enough located long in
      rw (replica, found) refl
