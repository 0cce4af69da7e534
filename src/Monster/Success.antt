-- ===== src/Monster/Success.antt =====
-- What the nodes hold when `monster_write` of src/algorithms/monster.rs has returned success.
use rep_cxl.Prelude.{
  ℕ, ltb, ◌≡◌, refl, sym, ap, ◌∙◌, inl, inr, Bool, false, Bool-cases, List, [], ◌∷◌, map, All,
  arith,
}
use mathlib.Core.Path.{subst, subst₂}
use rep_cxl.Prelude.Run.{Run, ok, >>=-eq-ok}
use rep_cxl.Request
use rep_cxl.Request.{Wid}
use rep_cxl.Shmem.{ObjectMemoryEntry, MemoryNode, store, min_by_id}
use rep_cxl.Memio.{MemResult, done, memory_error, mem_writeall, mem_readall}
use rep_cxl.Memio.Replicas.{AllHold, store_self}
use rep_cxl.Monster.{
  MonsterState, try, retry, check, replicate, wait, post_conflict_check, Tick, Vars, WriteResult,
  Next, goes_on, returns, Call, begin_round, any_smaller, after_post_conflict, write_result, unwrap,
}
use rep_cxl.Monster.Classic.{monster_arm, monster_round, monster_loop}

not_lt_self : (w : Wid) → Request.lt w w ≡ false
unfolding Request.lt
not_lt_self w = ground arith

module _ {ℓ} {T : Type ℓ} (fails : ℕ → Bool) (offset : ℕ) where
  writeall-done :
      (ome : ObjectMemoryEntry T) (ns : List (MemoryNode T)) {ns' : List (MemoryNode T)}
      → mem_writeall fails offset ome ns ≡ ok (done tt, ns')
      → AllHold fails offset ome ns'
  unfolding mem_writeall store
  writeall-done ome [] {ns'} h =
      let same : [] ≡ ns' = cc in subst (AllHold fails offset ome) same tt
  writeall-done ome (n ∷ ns) {ns'} h = elim (Bool-cases (ltb offset n.size)) [
    | inr out ↦ absurd (let stuck = rw out at h in cc)
    | inl inside ↦ elim (Bool-cases (fails n.id)) [
      | inl fault ↦ absurd (let stuck = rw (inside, fault) at h in cc)
      | inr fine ↦
          let ((r, ms), rest, end) =
            >>=-eq-ok (mem_writeall fails offset ome ns) _ (rw (inside, fine) at h) in
          let right : r ≡ done tt = cc in
          let same : store offset ome n ∷ ms ≡ ns' = cc in
          let held = writeall-done ome ns (rest ∙ ap (λ z. ok (z, ms)) right) in
          subst (AllHold fails offset ome) same (store_self fails offset ome n, held)
    ]
  ]

  readall-done :
      (ns : List (MemoryNode T)) {es : List (ObjectMemoryEntry T)}
      → mem_readall fails offset ns ≡ ok (done es)
      → es ≡ map (λ n. n.objects offset) ns
  unfolding mem_readall
  readall-done [] {es} h = let same : [] ≡ es = cc in sym same
  readall-done (n ∷ ns) {es} h = elim (Bool-cases (ltb offset n.size)) [
    | inr out ↦ absurd (let stuck = rw out at h in cc)
    | inl inside ↦ elim (Bool-cases (fails n.id)) [
      | inl fault ↦ absurd (let stuck = rw (inside, fault) at h in cc)
      | inr fine ↦
          let (r, rest, end) = >>=-eq-ok (mem_readall fails offset ns) _ (rw (inside, fine) at h) in
          tail r rest (λ fs. readall-done ns {es = fs}) end
    ]
  ]
    where
      tail :
          (r : MemResult (List (ObjectMemoryEntry T)))
          → mem_readall fails offset ns ≡ ok r
          → ((fs : List (ObjectMemoryEntry T))
              → mem_readall fails offset ns ≡ ok (done fs)
              → fs ≡ map (λ x. x.objects offset) ns)
          → ◌≡◌ {A = Run (MemResult (List (ObjectMemoryEntry T)))}
              (ok (elim r [
                | memory_error k ↦ memory_error k
                | done fs ↦ done (n.objects offset ∷ fs)
              ]))
              (ok (done es))
          → es ≡ map (λ x. x.objects offset) (n ∷ ns)
      tail (memory_error k) rest deep end = absurd (cc)
      tail (done fs) rest deep end =
          let same : n.objects offset ∷ fs ≡ es = cc in
          sym same ∙ ap (λ l. n.objects offset ∷ l) (deep fs rest)

module _ {ℓ} {T : Type ℓ} where
  -- On every node the entry at the offset is not smaller than the identifier.
  abbrev pub NoneSmaller : ℕ → Wid → List (MemoryNode T) → Type 0
  NoneSmaller offset wid = All (λ n. Request.lt (n.objects offset).wid wid ≡ false)

  AllHold-NoneSmaller :
      (fails : ℕ → Bool) (offset : ℕ) (wid : Wid) (value : T) (ns : List (MemoryNode T))
      → AllHold fails offset (record { wid = wid; value = value }) ns
      → NoneSmaller offset wid ns
  AllHold-NoneSmaller fails offset wid value [] h = tt
  AllHold-NoneSmaller fails offset wid value (n ∷ ns) h =
      (rw h.0 (not_lt_self wid), AllHold-NoneSmaller fails offset wid value ns h.1)

  any_smaller-NoneSmaller :
      (offset : ℕ) (wid : Wid) (ns : List (MemoryNode T))
      → any_smaller wid (map (λ n. n.objects offset) ns) ≡ false
      → NoneSmaller offset wid ns
  unfolding any_smaller
  any_smaller-NoneSmaller offset wid [] h = tt
  any_smaller-NoneSmaller offset wid (n ∷ ns) h =
      elim (Bool-cases (Request.lt (n.objects offset).wid wid)) [
        | inl below ↦ absurd (let found = rw below at h in cc)
        | inr fine ↦ (fine, any_smaller-NoneSmaller offset wid ns (rw fine at h))
      ]

  -- What the answer of a round says of the nodes: after a success none has a smaller entry.
  abbrev Won : Call T → Next → List (MemoryNode T) → Type 0
  Won c (goes_on v) ns = Unit
  Won c (returns WriteResult.written v) ns = NoneSmaller c.obj_info.offset v.wid ns
  Won c (returns r v) ns = Unit

  Won-given :
      (c : Call T) (x next : Next) (xs ns' : List (MemoryNode T))
      → ◌≡◌ {A = Run (Next × List (MemoryNode T))} (ok (x, xs)) (ok (next, ns'))
      → Won c x xs
      → Won c next ns'
  Won-given c x next xs ns' h o =
      let answer : x ≡ next = cc in let left : xs ≡ ns' = cc in subst₂ (Won c) answer left o

  module _ (c : Call T) (t : Tick) (m : MemoryNode T) (v : Vars) (ns : List (MemoryNode T)) where
    Won-write :
        (v' : Vars) (r : MemResult (Unit {0})) (xs : List (MemoryNode T))
        → v'.wid ≡ v.wid
        → mem_writeall t.fails c.obj_info.offset (record { wid = v.wid; value = c.value }) ns
          ≡ ok (r, xs)
        → Won c (returns (write_result r) v') xs
    Won-write v' (memory_error k) xs same stored = tt
    Won-write v' (done u) xs same stored = rw same (
        AllHold-NoneSmaller t.fails c.obj_info.offset v.wid c.value xs
          (writeall-done t.fails c.obj_info.offset _ ns stored))

    Won-post :
        (r : MemResult (List (ObjectMemoryEntry T)))
        → mem_readall t.fails c.obj_info.offset ns ≡ ok r
        → Won c (after_post_conflict v r) ns
    unfolding after_post_conflict
    Won-post (memory_error k) seen = tt
    Won-post (done omes) seen = elim (Bool-cases (any_smaller v.wid omes)) [
      | inl older ↦ rw older tt
      | inr newest ↦
          let all_seen = readall-done t.fails c.obj_info.offset ns seen in
          rw newest (any_smaller-NoneSmaller c.obj_info.offset v.wid ns (rw all_seen at newest))
    ]

    arm-Won :
        (s : MonsterState) {next : Next} {ns' : List (MemoryNode T)}
        → monster_arm c t m s v ns ≡ ok (next, ns')
        → Won c next ns'
    unfolding monster_arm
    arm-Won try {next} {ns'} h = Won-given c _ next _ ns' h tt
    arm-Won retry {next} {ns'} h = Won-given c _ next _ ns' h tt
    arm-Won check {next} {ns'} h = Won-given c _ next _ ns' h tt
    arm-Won replicate {next} {ns'} h =
        let ((r, ms), stored, rest) = >>=-eq-ok (mem_writeall t.fails c.obj_info.offset _ ns) _ h in
        Won-given c _ next _ ns' rest (Won-write _ r ms refl stored)
    arm-Won wait {next} {ns'} h = Won-given c _ next _ ns' h tt
    arm-Won post_conflict_check {next} {ns'} h =
        let (r, seen, rest) = >>=-eq-ok (mem_readall t.fails c.obj_info.offset ns) _ h in
        Won-given c _ next _ ns' rest (Won-post r seen)

  round-Won :
      (c : Call T) (t : Tick) (v : Vars) (ns : List (MemoryNode T)) {next : Next}
      {ns' : List (MemoryNode T)}
      → monster_round c t v ns ≡ ok (next, ns')
      → Won c next ns'
  unfolding monster_round
  round-Won c t v ns h =
      let (m, master, arm) = >>=-eq-ok (unwrap (min_by_id ns)) _ h in
      arm-Won c t m (begin_round c.obj_info.id t v) ns v.state arm

  loop-Won :
      (c : Call T) (ts : List Tick) (v' : Vars) (ns' : List (MemoryNode T)) (next : Next)
      (ms : List (MemoryNode T))
      → Won c next ms
      → ((v : Vars)
          → monster_loop c ts v ms ≡ ok (returns WriteResult.written v', ns')
          → NoneSmaller c.obj_info.offset v'.wid ns')
      → ◌≡◌ {A = Run (Next × List (MemoryNode T))}
          (elim next [ goes_on v ↦ monster_loop c ts v ms | returns r v ↦ ok (returns r v, ms) ])
          (ok (returns WriteResult.written v', ns'))
      → NoneSmaller c.obj_info.offset v'.wid ns'
  loop-Won c ts v' ns' (goes_on v) ms won rest h = rest v h
  loop-Won c ts v' ns' (returns r v) ms won rest h = Won-given c _ _ ms ns' h won

  -- When the loop of `monster_write` returns success, then on every node the entry of the object has
  -- an identifier that is not smaller than the one with which the write returned: the write's own,
  -- or one of a write that is ordered after it.
  pub monster_loop-written :
      (c : Call T) (ts : List Tick) (v : Vars) (ns : List (MemoryNode T)) {v' : Vars}
      {ns' : List (MemoryNode T)}
      → monster_loop c ts v ns ≡ ok (returns WriteResult.written v', ns')
      → NoneSmaller c.obj_info.offset v'.wid ns'
  unfolding monster_loop
  monster_loop-written c [] v ns h = absurd (cc)
  monster_loop-written c (t ∷ ts) v ns {v'} {ns'} h =
      let ((next, ms), first, rest) = >>=-eq-ok (monster_round c t v ns) _ h in
      loop-Won c ts v' ns' next ms (round-Won c t v ns first)
        (λ u. monster_loop-written c ts u ms {v' = v'} {ns' = ns'}) rest
