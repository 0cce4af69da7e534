-- ===== src/RepCxl/Published.antt =====
-- An object that `new_object_with_val` of src/lib.rs made, as another process finds and reads it.
use Prim.Native.Nat.{◌^◌}
use rep_cxl.Prelude.{
  ℕ, zero, suc, ◌<◌, ◌≡◌, refl, sym, ap, ◌∙◌, Bool, false, Option, none, some, List, [], ◌∷◌,
  length, All, arith,
}
use mathlib.Core.Path.{subst}
use mathlib.Core.Option.{some-injective}
use rep_cxl.Prelude.Run.{ok, panic, ok_parts, >>=-eq-ok}
use rep_cxl.ObjectIndex.{ObjectIndex}
use rep_cxl.ObjectIndex.Valid.{IsValid}
use rep_cxl.Request.{read_safe}
use rep_cxl.Shmem.{ObjectMemoryEntry, MemoryNode, store}
use rep_cxl.Memio.{MemResult, done, memory_error, mem_writeall, new_nowid}
use rep_cxl.Memio.Replicas.{
  Ready, NoFailure, store_first, store_first-Ready, store_first-AllHold, AllHold,
}
use rep_cxl.Memio.Written.{mem_writeall-done}
use rep_cxl.Monster.Read.{got, Ends, monster_read-AllHold}
use rep_cxl.RepCxl.{
  RepCxl, RepCxlObject, object_of, read_state_from_any, fill_object, keep_if_done, new_object,
  new_object_with_val, get_object,
}
use rep_cxl.RepCxl.Objects.{Indexed, new_object-get_object}
use rep_cxl.RepCxl.Access.{ReadCall, read_object}
use rep_cxl.Algorithms.{read_env}
use rep_cxl.RepCxl.ReadBack.{resting, read_object-safe, read_once-monster}

module _ {ℓ} {T : Type ℓ} where
  read_state-store_first :
      (fails : ℕ → Bool) (offset : ℕ) (ome : ObjectMemoryEntry T) (k : ℕ) (ns : List (MemoryNode T))
      → read_state_from_any (store_first fails offset ome k ns) ≡ read_state_from_any ns
  unfolding read_state_from_any store
  read_state-store_first fails offset ome zero ns = refl
  read_state-store_first fails offset ome (suc k) [] = refl
  read_state-store_first fails offset ome (suc k) (n ∷ ns) = refl

  Ready-for :
      (fails read_fails : ℕ → Bool) (offset : ℕ) (ns : List (MemoryNode T))
      → All (Ready fails offset) ns
      → NoFailure read_fails offset ns
      → All (Ready read_fails offset) ns
  Ready-for fails read_fails offset [] ready fine = tt
  Ready-for fails read_fails offset (n ∷ ns) ready fine =
      ((ready.0.0, fine.0), Ready-for fails read_fails offset ns ready.1 fine.1)

  state_there : (ns : List (MemoryNode T)) → ¬ (read_state_from_any ns ≡ panic) → 0 < length ns
  unfolding read_state_from_any
  state_there [] h = absurd (h refl)
  state_there (n ∷ ns) h = omega arith

  stored :
      (fails : ℕ → Bool) (o obj : RepCxlObject) (ome : ObjectMemoryEntry T)
      (res : MemResult (Unit {0})) (before after : List (MemoryNode T))
      → mem_writeall fails o.info.offset ome before ≡ ok (res, after)
      → keep_if_done o res ≡ some obj
      → (o ≡ obj)
        × All (Ready fails o.info.offset) before
        × (after ≡ store_first fails o.info.offset ome (length before) before)
  stored fails o obj ome (memory_error k) before after e kept = absurd (cc)
  stored fails o obj ome (done u) before after e kept =
      let (ready, nodes) = mem_writeall-done fails o.info.offset ome before after e in
      (some-injective _ _ kept, ready, nodes)

module _ {ℓ} {F : Type 0} {T : Type ℓ} where
  get_object-nodes :
      (id : ℕ) (r q : RepCxl F T)
      → read_state_from_any q.view.memory_nodes ≡ read_state_from_any r.view.memory_nodes
      → get_object id q ≡ get_object id r
  unfolding get_object
  get_object-nodes id r q same = rw same refl

  get_object-some :
      (id : ℕ) (r : RepCxl F T) {obj : RepCxlObject}
      → get_object id r ≡ ok (some obj)
      → 0 < length r.view.memory_nodes
  unfolding get_object
  get_object-some id r found =
      state_there r.view.memory_nodes (λ gone. let stuck = rw gone at found in cc)

  -- A call that gave an object made it, and then wrote the value on all nodes.
  record Filled (fails : ℕ → Bool) (size id : ℕ) (value : T) (r : RepCxl F T) (obj : RepCxlObject)
      (r' : RepCxl F T) : Type ℓ where
    r1 : RepCxl F T
    made : new_object size id r ≡ ok (some obj, r1)
    ready : All (Ready fails obj.info.offset) r1.view.memory_nodes
    nodes :
        r'.view.memory_nodes
        ≡ store_first fails obj.info.offset
            (new_nowid value)
            (length r1.view.memory_nodes)
            r1.view.memory_nodes

  filled :
      (fails : ℕ → Bool) (size id : ℕ) (value : T) (r r1 r' : RepCxl F T) (obj : RepCxlObject)
      (made : Option RepCxlObject)
      → new_object size id r ≡ ok (made, r1)
      → fill_object fails value (made, r1) ≡ ok (some obj, r')
      → Filled fails size id value r obj r'
  unfolding fill_object
  filled fails size id value r r1 r' obj none e h = absurd (let wrong = (ok_parts _ _ h).0 in cc)
  filled fails size id value r r1 r' obj (some o) e h =
      let ((res, ns), e2, h2) =
        >>=-eq-ok (mem_writeall fails o.info.offset (new_nowid value) r1.view.memory_nodes) _ h in
      let (kept, out) = ok_parts _ _ h2 in
      let (same, ready, nodes) =
        stored fails o obj (new_nowid value) res r1.view.memory_nodes ns e2 kept in
      subst (λ x. Filled fails size id value r x r') same
        (record {
          r1 = r1;
          made = e;
          ready = ready;
          nodes = ap (λ (x : RepCxl F T). x.view.memory_nodes) (sym out) ∙ nodes;
        })

  new_object_with_val-Filled :
      (fails : ℕ → Bool) (size id : ℕ) (value : T) (r r' : RepCxl F T) (obj : RepCxlObject)
      → new_object_with_val fails size id value r ≡ ok (some obj, r')
      → Filled fails size id value r obj r'
  unfolding new_object_with_val
  new_object_with_val-Filled fails size id value r r' obj h =
      let ((made, r1), e, h1) = >>=-eq-ok (new_object size id r) _ h in
      filled fails size id value r r1 r' obj made e h1

  -- If all nodes held one valid index, with sizes below 2 ^ 62, and `new_object_with_val` returned
  -- an object: an instance that sees the nodes as they are then, with "monster", without a
  -- pipeline or a failing node, and whose first wait for the read offset, if it has one, ends,
  -- finds an object of that number at the offset that was returned, and `read_object` of what it
  -- found is safe with the value, however many retries it may make, if no one writes. The wait
  -- ends if the ratio of its sleep and the offset are between 0 and 1, the offset is not below
  -- that ratio, the round time is positive, and the clock reaches the point in the round within
  -- the fuel.
  pub read_object-new_object_with_val :
      (size id : ℕ) (value : T) (r r' q : RepCxl F T) (obj : RepCxlObject) (ix : ObjectIndex)
      (fails read_fails : ℕ → Bool) (same : T → T → Bool) (calls : ℕ → ReadCall F T)
      → Indexed ix r.view.memory_nodes
      → IsValid ix
      → size < 2 ^ 62
      → ix.chunk_size < 2 ^ 62
      → new_object_with_val fails size id value r ≡ ok (some obj, r')
      → q.view.memory_nodes ≡ r'.view.memory_nodes
      → q.config.pipeline ≡ false
      → q.algorithm_ctx.algorithm ≡ "monster"
      → Ends (read_env q.algorithm_ctx) (calls 0).meets.0
      → All (λ n. read_fails n.id ≡ false) q.view.memory_nodes
      → (found : RepCxlObject) × (get_object id q ≡ ok (some found))
        × (found.info.offset ≡ obj.info.offset)
        × (read_object same read_fails (resting calls q.view.memory_nodes) found q
            ≡ ok (got (read_safe value), q))
  unfolding new_nowid
  read_object-new_object_with_val size id value r r' q obj ix fails read_fails same calls held v
        small chunk made sees unqueued reader ends fine =
      let f = new_object_with_val-Filled fails size id value r r' obj made in
      let (coord, kept, (rounded, near, there), others) =
        new_object-get_object size id r f.r1 obj ix held v small chunk f.made in
      let found = object_of (record { id = id; offset = obj.info.offset; size = rounded }) in
      let nodes = sees ∙ f.nodes in
      let states =
        ap read_state_from_any nodes
        ∙ read_state-store_first fails obj.info.offset (new_nowid value) _ f.r1.view.memory_nodes in
      let at_q = get_object-nodes id f.r1 q states ∙ there in
      let ready =
        subst (λ ns. All (Ready fails obj.info.offset) ns) (sym nodes)
          (store_first-Ready fails obj.info.offset (new_nowid value) _ f.r1.view.memory_nodes
            f.ready) in
      let holds =
        subst (λ ns. AllHold fails obj.info.offset (new_nowid value) ns) (sym nodes)
          (store_first-AllHold fails obj.info.offset (new_nowid value) f.r1.view.memory_nodes) in
      let answer =
        monster_read-AllHold (read_env q.algorithm_ctx) (calls 0).meets.0 read_fails obj.info.offset
          (new_nowid value) q.view.memory_nodes ends (get_object-some id q at_q)
          (Ready-for fails read_fails obj.info.offset q.view.memory_nodes ready fine) holds in
      (
        found,
        at_q,
        refl,
        read_object-safe same read_fails (resting calls q.view.memory_nodes) found q value (
            read_once-monster same read_fails (resting calls q.view.memory_nodes 0) found q unqueued
              reader answer),
      )
