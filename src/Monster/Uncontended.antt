-- ===== src/Monster/Uncontended.antt =====
-- A write by `monster_write` of src/algorithms/monster.rs that no other process contends: three
-- rounds, and the answer.
use rep_cxl.Prelude.{
  ℕ, ◌<◌, ◌≡◌, ◌≢◌, refl, sym, ap, ◌∙◌, true, some, List, ◌∷◌, length, map, get_elem?, All, Bool,
  ℕ_discrete, arith,
}
use mathlib.Core.Path.{subst}
use mathlib.Core.Option.{some-injective}
use rep_cxl.Prelude.Run.{ok}
use rep_cxl.Wcc.{max_processes}
use rep_cxl.Wcc.Object
use rep_cxl.Wcc.Object.{Entry, ObjectWcc}
use rep_cxl.Wcc.Object.Unbeaten.{Unbeaten, Unbeaten-is_last}
use rep_cxl.Shmem.{ObjectMemoryEntry, MemoryNode, min_by_id}
use rep_cxl.Shmem.Master.{min_by_id-update_at}
use rep_cxl.Memio.Replicas.{
  Ready, AllHold, mem_writeall_all, store_first, store_first-AllHold, store_first-Ready,
  store_first-other, length-store_first, store_first_any,
}
use rep_cxl.Memio.Updated.{
  objects-update_at, length-update_at, min_by_id-some, Ready-update_at, Ready-InRange,
  Ready-NoFailure,
}
use rep_cxl.Monster.{
  MonsterState, MonsterStats, Tick, Vars, WriteResult, goes_on, returns, Call, initial, begin_round,
  own_wid, with_overtime_replicate,
}
use rep_cxl.Monster.Classic.{
  after_try, after_check, record_attempt, monster_arm, monster_round, monster_loop,
}
use rep_cxl.Monster.Writers.Attempt.{attempt_own, attempt_other}

-- The attempts on the object by other processes than `p` are all older than `round`.
abbrev pub Alone : ObjectWcc → ℕ → ℕ → ℕ → Type 0
Alone w p oid round =
    (k : ℕ) (e : Entry) → get_elem? w.p_round k ≡ some e → k ≢ p → e.oid ≡ oid → e.round < round

module _ (w : ObjectWcc) (p oid round later : ℕ) (small : p < max_processes)
    (size : length w.p_round ≡ max_processes) (alone : Alone w p oid round) where
  alone-Unbeaten : Unbeaten oid later round p 0 (Object.write w oid round p).p_round
  alone-Unbeaten k e at (same, how) = elim (ℕ_discrete p k) [
    | yes here ↦
        let mine =
          subst
            (λ j.
              get_elem? (Object.write w oid round p).p_round j
              ≡ some (record { oid = oid; round = round }))
            here (attempt_own w p oid round small size) in
        let equal : round ≡ e.round = ap (λ z. z.round) (some-injective _ _ (sym mine ∙ at)) in
        ground (arith, equal, how)
    | no there ↦
        let old =
          alone k e (sym (attempt_other w p oid round small size k there) ∙ at) (λ z. there (sym z))
            same in
        ground (arith, old, how)
  ]

  alone-is_last : Object.is_last (Object.write w oid round p) oid later round p ≡ true
  alone-is_last =
      Unbeaten-is_last (Object.write w oid round p) oid later round p (omega arith) alone-Unbeaten

module _ {ℓ} {T : Type ℓ} (c : Call T) (t1 t2 t3 : Tick) (ns : List (MemoryNode T))
    (m : MemoryNode T) (master : min_by_id ns ≡ some m) where
  -- The entry that the write leaves.
  abbrev pub entry_of : ObjectMemoryEntry T
  entry_of = record { wid = own_wid c t1; value = c.value }

  first_round :
      (v : Vars)
      → v.state ≡ MonsterState.try
      → monster_round c t1 v ns
        ≡ ok (goes_on (after_try c t1 (begin_round c.obj_info.id t1 v)), record_attempt c t1 m ns)
  unfolding monster_round monster_arm
  first_round v start = rw (master, start) refl

  abbrev updated : MemoryNode T
  updated = record m {
    state = record m.state {
      owcc = Object.write m.state.owcc c.obj_info.id t1.round_num c.self_id;
    };
  }

  master_after : min_by_id (record_attempt c t1 m ns) ≡ some updated
  unfolding record_attempt
  master_after = min_by_id-update_at _ ns m master

  second_round :
      (v : Vars)
      → v.state ≡ MonsterState.check
      → v.wid ≡ own_wid c t1
      → c.self_id < max_processes
      → length m.state.owcc.p_round ≡ max_processes
      → Alone m.state.owcc c.self_id c.obj_info.id t1.round_num
      → monster_round c t2 v (record_attempt c t1 m ns)
        ≡ ok (
          goes_on (after_check c t2 (begin_round c.obj_info.id t2 v) true),
          record_attempt c t1 m ns,
        )
  unfolding monster_round monster_arm begin_round
  second_round v at named small size alone =
      let won =
        alone-is_last m.state.owcc c.self_id c.obj_info.id t1.round_num t2.round_num small size
          alone in
      rw (master_after, at, named, won) refl

  third_round :
      (v : Vars)
      → v.state ≡ MonsterState.replicate
      → v.wid ≡ own_wid c t1
      → All (Ready t3.fails c.obj_info.offset) ns
      → monster_round c t3 v (record_attempt c t1 m ns)
        ≡ ok (
          returns WriteResult.written
              (with_overtime_replicate c t3 (begin_round c.obj_info.id t3 v)),
          store_first t3.fails c.obj_info.offset entry_of
              (length (record_attempt c t1 m ns))
              (record_attempt c t1 m ns),
        )
  unfolding monster_round monster_arm begin_round record_attempt
  third_round v at named ready =
      let kept = Ready-update_at t3.fails c.obj_info.offset m.id _ ns ready in
      let stored =
        mem_writeall_all t3.fails c.obj_info.offset entry_of (record_attempt c t1 m ns)
          (Ready-InRange _ _ _ kept) (Ready-NoFailure _ _ _ kept) in
      rw (master_after, at, named, stored) refl

  -- The nodes after the write: the attempt is recorded, and the entry stored.
  pub nodes_after : List (MemoryNode T)
  unfolding record_attempt
  nodes_after =
      store_first t3.fails c.obj_info.offset entry_of (length (record_attempt c t1 m ns))
        (record_attempt c t1 m ns)

  -- The three rounds, with the nodes that they leave.
  pub monster_loop-nodes_after :
      (rest : List Tick) (stats : MonsterStats) (logging : Bool)
      → c.self_id < max_processes
      → length m.state.owcc.p_round ≡ max_processes
      → Alone m.state.owcc c.self_id c.obj_info.id t1.round_num
      → All (Ready t3.fails c.obj_info.offset) ns
      → (v : Vars) × (monster_loop c (t1 ∷ t2 ∷ t3 ∷ rest) (initial stats logging) ns
          ≡ ok (returns WriteResult.written v, nodes_after))
  unfolding monster_loop after_try after_check begin_round nodes_after
  monster_loop-nodes_after rest stats logging small size alone ready =
      let v1 = after_try c t1 (begin_round c.obj_info.id t1 (initial stats logging)) in
      let v2 = after_check c t2 (begin_round c.obj_info.id t2 v1) true in
      let e1 = first_round (initial stats logging) refl in
      let e2 = second_round v1 refl refl small size alone in
      let e3 = third_round v2 refl refl ready in
      (with_overtime_replicate c t3 (begin_round c.obj_info.id t3 v2), rw (e1, e2, e3) refl)

  -- A write of a process below the maximum, from the start of its loop: if the checker at the master
  -- has a place for every process and the attempts of the others on the object are older than the
  -- first round, and in the third round no node fails and all accept the offset, then the loop
  -- returns in its third round with success, and every node holds the value under the identifier of
  -- the first round.
  pub monster_loop-uncontended :
      (rest : List Tick) (stats : MonsterStats) (logging : Bool)
      → c.self_id < max_processes
      → length m.state.owcc.p_round ≡ max_processes
      → Alone m.state.owcc c.self_id c.obj_info.id t1.round_num
      → All (Ready t3.fails c.obj_info.offset) ns
      → (v : Vars) × (ns' : List (MemoryNode T)) × (monster_loop c
            (t1 ∷ t2 ∷ t3 ∷ rest)
            (initial stats logging)
            ns
          ≡ ok (returns WriteResult.written v, ns'))
        × AllHold t3.fails c.obj_info.offset entry_of ns'
  unfolding nodes_after
  monster_loop-uncontended rest stats logging small size alone ready =
      let (v, done) = monster_loop-nodes_after rest stats logging small size alone ready in
      (
        v,
        nodes_after,
        done,
        store_first-AllHold t3.fails c.obj_info.offset entry_of (record_attempt c t1 m ns),
      )

  -- The nodes after the write hold the entry, still accept the offset, and have what they had at
  -- all other offsets. The failures are those of a later access.
  pub nodes_after_lem :
      (fails : ℕ → Bool)
      → All (Ready fails c.obj_info.offset) ns
      → (0 < length nodes_after)
        × All (Ready fails c.obj_info.offset) nodes_after
        × AllHold fails c.obj_info.offset entry_of nodes_after
        × ((other : ℕ)
            → other ≢ c.obj_info.offset
            → map (λ n. n.objects other) nodes_after ≡ map (λ n. n.objects other) ns)
  unfolding nodes_after record_attempt
  nodes_after_lem fails ready =
      let kept = Ready-update_at fails c.obj_info.offset m.id _ ns ready in
      (
        (let some_node = min_by_id-some ns master in
            let same =
              length-store_first t3.fails c.obj_info.offset entry_of
                (length (record_attempt c t1 m ns)) (record_attempt c t1 m ns) in
            let recorded : length (record_attempt c t1 m ns) ≡ length ns =
              length-update_at m.id _ ns in
            omega arith),
        rw
            (store_first_any t3.fails fails c.obj_info.offset entry_of
              (length (record_attempt c t1 m ns)) (record_attempt c t1 m ns))
            (store_first-Ready fails c.obj_info.offset entry_of (length (record_attempt c t1 m ns))
              (record_attempt c t1 m ns) kept),
        store_first-AllHold t3.fails c.obj_info.offset entry_of (record_attempt c t1 m ns),
        λ other apart.
            store_first-other t3.fails c.obj_info.offset entry_of _ other (record_attempt c t1 m ns)
              apart
            ∙ objects-update_at other m.id _ ns,
      )
