-- ===== src/RepCxl/Objects.antt =====
-- Creating, finding and removing objects, on all memory nodes at once.
use rep_cxl.Prelude.{
  ℕ, ◌^◌, ◌<◌, leb, ◌==◌, ==_iff, ◌≡◌, ◌≢◌, refl, sym, ap, ◌∙◌, inl, inr, true, false, Bool-cases,
  Option, none, some, List, [], ◌∷◌, map, All, arith,
}
use mathlib.Core.Path.{subst}
use mathlib.Core.Option.{some-injective}
use rep_cxl.Prelude.Run.{ok, >>=-eq-ok}
use rep_cxl.ObjectIndex.{ObjectIndex, max_objects, alloc_object, dealloc_object, lookup_object}
use rep_cxl.ObjectIndex.Valid.{IsValid}
use rep_cxl.ObjectIndex.Alloc.{Rounded, alloc_object_lem}
use rep_cxl.ObjectIndex.Dealloc.{dealloc_object_lem}
use rep_cxl.Shmem.{SharedState, MemoryNode, write_state}
use rep_cxl.RepCxl.{
  RepCxl, RepCxlObject, is_coordinator, read_state_from_any, after_alloc, write_states, object_of,
  new_object, remove_object, get_object, found_object,
}

pub ==-false : (a b : ℕ) → a ≢ b → (a == b) ≡ false
==-false a b h = ground arith

module _ {ℓ} {T : Type ℓ} where
  -- The index of every node.
  abbrev pub Indexed : ObjectIndex → List (MemoryNode T) → Type 0
  Indexed ix = All (λ n. n.state.object_index ≡ ix)

  pub Indexed-write_state :
      (state : SharedState) (ns : List (MemoryNode T))
      → Indexed state.object_index (map (write_state state) ns)
  unfolding write_state
  Indexed-write_state state [] = tt
  Indexed-write_state state (n ∷ ns) = (refl, Indexed-write_state state ns)

  read_state-Indexed :
      (ix : ObjectIndex) (ns : List (MemoryNode T)) {state : SharedState}
      → Indexed ix ns
      → read_state_from_any ns ≡ ok state
      → state.object_index ≡ ix
  unfolding read_state_from_any
  read_state-Indexed ix [] h e = cc
  read_state-Indexed ix (n ∷ ns) h e = let first = h.0 in ground arith

  -- The nodes are still there after the state was written.
  read_state-written :
      (state : SharedState) (ns : List (MemoryNode T)) {old : SharedState}
      → read_state_from_any ns ≡ ok old
      → read_state_from_any (map (write_state state) ns) ≡ ok state
  unfolding read_state_from_any write_state
  read_state-written state [] e = cc
  read_state-written state (n ∷ ns) e = refl

module _ {ℓ} {F : Type 0} {T : Type ℓ} where
  -- A call that made an object read the state, and the allocator gave an offset.
  pub record Made (size id : ℕ) (r : RepCxl F T) (obj : RepCxlObject) (r' : RepCxl F T)
      : Type ℓ where
    pub state : SharedState
    pub offset : ℕ
    pub index : ObjectIndex
    pub seen : read_state_from_any r.view.memory_nodes ≡ ok state
    pub allocated : alloc_object state.object_index id size ≡ ok (some offset, index)
    pub made : obj ≡ object_of (record { id = id; offset = offset; size = size })
    pub after : r' ≡ (after_alloc id size state (some offset, index) r).1

  allocated-Made :
      (size id : ℕ) (r : RepCxl F T) (state : SharedState) (obj : RepCxlObject) (r' : RepCxl F T)
      → read_state_from_any r.view.memory_nodes ≡ ok state
      → (found : Option ℕ × ObjectIndex) → alloc_object state.object_index id size ≡ ok found
      → after_alloc id size state found r ≡ (some obj, r')
      → Made size id r obj r'
  unfolding after_alloc
  allocated-Made size id r state obj r' seen (none, index) e h =
      absurd (let at : none ≡ some obj = ap (λ p. p.0) h in cc)
  allocated-Made size id r state obj r' seen (some offset, index) e h = record {
    state = state;
    offset = offset;
    index = index;
    seen = seen;
    allocated = e;
    made = sym (some-injective _ _ (ap (λ p. p.0) h));
    after = sym (ap (λ p. p.1) h);
  }

  pub new_object-Made :
      (size id : ℕ) (r : RepCxl F T) (obj : RepCxlObject) (r' : RepCxl F T)
      → new_object size id r ≡ ok (some obj, r')
      → (is_coordinator r ≡ true)
        × (r.num_of_objects < max_objects)
        × (id < max_objects)
        × Made size id r obj r'
  unfolding new_object
  new_object-Made size id r obj r' h = elim (Bool-cases (leb max_objects r.num_of_objects)) [
    | inl full ↦ absurd (let no = rw full at h in cc)
    | inr room ↦ elim (Bool-cases (leb max_objects id)) [
      | inl large ↦ absurd (let no = rw (room, large) at h in cc)
      | inr small ↦ elim (Bool-cases (is_coordinator r)) [
        | inr other ↦ absurd (let no = rw (room, small, other) at h in cc)
        | inl coord ↦
            let (state, seen, h1) =
              >>=-eq-ok (read_state_from_any r.view.memory_nodes) _
                (rw (room, small, coord) at h) in
            let (found, e, h2) = >>=-eq-ok (alloc_object state.object_index id size) _ h1 in
            (
              coord,
              ground (arith, room),
              ground (arith, small),
              allocated-Made size id r state obj r' seen found e (cc),
            )
      ]
    ]
  ]

  pub Made-found :
      {size id : ℕ} {r : RepCxl F T} {obj : RepCxlObject} {r' : RepCxl F T} (ix : ObjectIndex)
      → Indexed ix r.view.memory_nodes
      → (m : Made size id r obj r')
      → (alloc_object ix id size ≡ ok (some m.offset, m.index))
        × Indexed m.index r'.view.memory_nodes
        × ((j : ℕ) → get_object j r' ≡ ok (found_object j (lookup_object m.index j)))
        × ((j : ℕ) → get_object j r ≡ ok (found_object j (lookup_object ix j)))
  unfolding get_object after_alloc write_states
  Made-found {size} {id} {r} {r'} ix h m =
      let same = read_state-Indexed ix r.view.memory_nodes h m.seen in
      let state' : SharedState = record m.state { object_index = m.index } in
      (
        subst (λ i. alloc_object i id size ≡ ok (some m.offset, m.index)) same m.allocated,
        subst (λ x. Indexed m.index x.view.memory_nodes) (sym m.after)
            (Indexed-write_state state' r.view.memory_nodes),
        λ j.
            subst (λ x. get_object j x ≡ ok (found_object j (lookup_object m.index j)))
              (sym m.after) (rw (read_state-written state' r.view.memory_nodes m.seen) refl),
        λ j. rw (m.seen, same) refl,
      )

  -- From nodes that all hold the valid index `ix`, and with sizes below 2 ^ 62: a call of
  -- `new_object` that returns an object was made by the coordinator; then all nodes hold one and the
  -- same valid index, the object is found at the offset it was returned with and with its size
  -- rounded up to the next multiple of the chunk size, and all other objects are found as before.
  pub new_object-get_object :
      (size id : ℕ) (r r' : RepCxl F T) (obj : RepCxlObject) (ix : ObjectIndex)
      → Indexed ix r.view.memory_nodes
      → IsValid ix
      → size < 2 ^ 62
      → ix.chunk_size < 2 ^ 62
      → new_object size id r ≡ ok (some obj, r')
      → (is_coordinator r ≡ true)
        × ((ix' : ObjectIndex) × Indexed ix' r'.view.memory_nodes × IsValid ix')
        × ((rounded : ℕ) × Rounded size ix.chunk_size rounded
            × (get_object id r'
                ≡ ok (
                    some
                      (object_of (record { id = id; offset = obj.info.offset; size = rounded })))))
        × ((j : ℕ) → id ≢ j → get_object j r' ≡ get_object j r)
  new_object-get_object size id r r' obj ix h v small chunk made =
      let (coord, room, low, m) = new_object-Made size id r obj r' made in
      let (allocated, held, now, before) = Made-found ix h m in
      let (valid, (rounded, round, grown, found)) =
        alloc_object_lem ix m.index id size m.offset v small chunk allocated in
      (
        coord,
        (m.index, held, valid),
        (rounded, round, now id ∙ rw (found id, (==_iff id id).1 refl, m.made) refl),
        λ j other.
            now j
            ∙ ap (λ o. ok (found_object j o)) (found j ∙ rw (==-false id j other) refl)
            ∙ sym (before j),
      )

  -- From nodes that all hold the valid index `ix`: after the coordinator's `remove_object` all nodes
  -- hold one and the same valid index, the object is not found, and all others are found as before.
  pub remove_object-get_object :
      (id : ℕ) (r r' : RepCxl F T) (ix : ObjectIndex)
      → is_coordinator r ≡ true
      → Indexed ix r.view.memory_nodes
      → IsValid ix
      → remove_object id r ≡ ok r'
      → ((ix' : ObjectIndex) × Indexed ix' r'.view.memory_nodes × IsValid ix')
        × (get_object id r' ≡ ok none)
        × ((j : ℕ) → id ≢ j → get_object j r' ≡ get_object j r)
  unfolding remove_object get_object write_states
  remove_object-get_object id r r' ix coord h v removed =
      let (state, seen, e) =
        >>=-eq-ok (read_state_from_any r.view.memory_nodes) _ (rw coord at removed) in
      let same = read_state-Indexed ix r.view.memory_nodes h seen in
      let index = dealloc_object state.object_index id in
      let state' : SharedState = record state { object_index = index } in
      let after : record r { view = write_states state' r.view } ≡ r' = cc in
      let (valid, found, low) = dealloc_object_lem ix id v in
      let now : (j : ℕ) → get_object j r' ≡ ok (found_object j (lookup_object index j)) = λ j.
        subst (λ x. get_object j x ≡ ok (found_object j (lookup_object index j))) after
          (rw (read_state-written state' r.view.memory_nodes seen) refl) in
      (
        (
          index,
          subst (λ x. Indexed index x.view.memory_nodes) after
              (Indexed-write_state state' r.view.memory_nodes),
          subst (λ i. IsValid (dealloc_object i id)) (sym same) valid,
        ),
        now id ∙ rw (same, found id, (==_iff id id).1 refl) refl,
        λ j other. now j ∙ rw (seen, same, found j, ==-false id j other) refl,
      )
