-- ===== src/Memio/Replicas.antt =====
-- What `mem_writeall` leaves on the nodes, and what `mem_readends` shows of a write in progress.
use rep_cxl.Prelude.{
  ℕ, zero, suc, ◌≤◌, ◌<◌, lt→ltb, ◌==◌, if◌then◌else◌, ◌≡◌, ◌≢◌, refl, ap, ◌∙◌, inl, inr, Bool,
  true, false, Bool-cases, some, List, [], ◌∷◌, All, length, get_elem?, map, arith, dec_lt,
}
use rep_cxl.Prelude.Run.{ok}
use rep_cxl.Shmem.{ObjectMemoryEntry, MemoryNode, store}
use rep_cxl.Memio.{MemResult, done, memory_error, at_rest, mem_writeall, mem_readends, last_node}
use mathlib.Core.Path.{subst}

module _ {ℓ} {T : Type ℓ} (fails : ℕ → Bool) (offset : ℕ) where
  -- Every node accepts the offset.
  abbrev pub InRange : List (MemoryNode T) → Type 0
  InRange = All (λ n. offset < n.size)

  abbrev pub NoFailure : List (MemoryNode T) → Type 0
  NoFailure = All (λ n. fails n.id ≡ false)

  -- The nodes after the first `k` of them were written.
  abbrev pub store_first : ObjectMemoryEntry T → ℕ → List (MemoryNode T) → List (MemoryNode T)
  store_first ome zero ns = ns
  store_first ome (suc k) [] = []
  store_first ome (suc k) (n ∷ ns) = store offset ome n ∷ store_first ome k ns

  abbrev pub first : ℕ → List (MemoryNode T) → List (MemoryNode T)
  first zero ns = []
  first (suc k) [] = []
  first (suc k) (n ∷ ns) = n ∷ first k ns

  -- How a write ended that stored `k` entries: on all nodes, or at the first that fails.
  abbrev pub Ended : ℕ → List (MemoryNode T) → MemResult (Unit {0}) → Type 0
  Ended k ns (done u) = (k ≡ length ns) × NoFailure ns
  Ended k ns (memory_error id) =
      (get_elem? (map (λ n. n.id) ns) k ≡ some id) × (fails id ≡ true) × NoFailure (first k ns)

  Ended-suc :
      (n : MemoryNode T) (ns : List (MemoryNode T)) (k : ℕ) (r : MemResult (Unit {0}))
      → fails n.id ≡ false
      → Ended k ns r
      → Ended (suc k) (n ∷ ns) r
  Ended-suc n ns k (done u) fine end = (ap suc end.0, (fine, end.1))
  Ended-suc n ns k (memory_error id) fine (at, fault, before) = (at, fault, (fine, before))

  -- If every node accepts the offset, `mem_writeall` returns: it has written the first `k` nodes and
  -- no other, and none of these fails; either `k` is the number of nodes, or the error names the node
  -- behind them, which fails.
  pub mem_writeall_lem :
      (ome : ObjectMemoryEntry T) (ns : List (MemoryNode T))
      → InRange ns
      → (k : ℕ) × (r : MemResult (Unit {0})) × (mem_writeall fails offset ome ns
          ≡ ok (r, store_first ome k ns))
        × Ended k ns r
  unfolding mem_writeall
  mem_writeall_lem ome [] h = (0, done tt, refl, (refl, tt))
  mem_writeall_lem ome (n ∷ ns) h =
      let (k, r, e, end) = mem_writeall_lem ome ns h.1 in
      elim (Bool-cases (fails n.id)) [
        | inl fault ↦
            (0, memory_error n.id, rw (lt→ltb offset n.size h.0, fault), (refl, fault, tt))
        | inr fine ↦ (suc k, r, rw (lt→ltb offset n.size h.0, fine, e), Ended-suc n ns k r fine end)
      ]

  -- Without a failure every node is written.
  pub mem_writeall_all :
      (ome : ObjectMemoryEntry T) (ns : List (MemoryNode T))
      → InRange ns
      → NoFailure ns
      → mem_writeall fails offset ome ns ≡ ok (done tt, store_first ome (length ns) ns)
  unfolding mem_writeall
  mem_writeall_all ome [] h f = refl
  mem_writeall_all ome (n ∷ ns) h f =
      rw (lt→ltb offset n.size h.0, f.0, mem_writeall_all ome ns h.1 f.1)

  -- Every node holds the entry.
  abbrev pub AllHold : ObjectMemoryEntry T → List (MemoryNode T) → Type ℓ
  AllHold ome = All (λ n. n.objects offset ≡ ome)

  pub store_first-AllHold :
      (ome : ObjectMemoryEntry T) (ns : List (MemoryNode T))
      → AllHold ome (store_first ome (length ns) ns)
  unfolding store
  store_first-AllHold ome [] = tt
  store_first-AllHold ome (n ∷ ns) = (ground arith, store_first-AllHold ome ns)

  pub store_self :
      (ome : ObjectMemoryEntry T) (n : MemoryNode T) → (store offset ome n).objects offset ≡ ome
  unfolding store
  store_self ome n = ground arith

  -- The last node of a row that has `P`, whose first `k` nodes were written.
  pub last-All :
      (P : MemoryNode T → Type ℓ) (m : MemoryNode T) (ns : List (MemoryNode T))
      → P m
      → All P ns
      → P (last_node m ns)
  last-All P m [] h k = h
  last-All P m (n ∷ ns) h k = last-All P n ns k.0 k.1

  module _ (new old : ObjectMemoryEntry T) where
    last_old :
        (k : ℕ) (m : MemoryNode T) (ns : List (MemoryNode T))
        → AllHold old ns
        → k < length ns
        → (last_node m (store_first new k ns)).objects offset ≡ old
    last_old k m [] h lt = absurd (omega arith)
    last_old zero m (n ∷ ns) h lt = last-All (λ n. n.objects offset ≡ old) n ns h.0 h.1
    last_old (suc k) m (n ∷ ns) h lt = last_old k (store offset new n) ns h.1 (omega arith)

    last_new :
        (m : MemoryNode T) (ns : List (MemoryNode T))
        → m.objects offset ≡ new
        → (last_node m (store_first new (length ns) ns)).objects offset ≡ new
    last_new m ns h =
        last-All (λ n. n.objects offset ≡ new) m (store_first new (length ns) ns) h
          (store_first-AllHold new ns)

  -- The nodes after a write still accept the offset and keep their numbers.
  abbrev pub Ready : MemoryNode T → Type 0
  Ready n = (offset < n.size) × (fails n.id ≡ false)

  pub store_first-Ready :
      (ome : ObjectMemoryEntry T) (k : ℕ) (ns : List (MemoryNode T))
      → All Ready ns
      → All Ready (store_first ome k ns)
  unfolding store
  store_first-Ready ome zero ns h = h
  store_first-Ready ome (suc k) [] h = tt
  store_first-Ready ome (suc k) (n ∷ ns) h = (h.0, store_first-Ready ome k ns h.1)

  last-Ready :
      (m : MemoryNode T) (ns : List (MemoryNode T))
      → Ready m
      → All Ready ns
      → Ready (last_node m ns)
  last-Ready m [] h k = h
  last-Ready m (n ∷ ns) h k = last-Ready n ns k.0 k.1

  pub readends_lem :
      (n : MemoryNode T) (ns later : List (MemoryNode T))
      → All Ready (n ∷ ns)
      → All Ready later
      → mem_readends fails offset (n ∷ ns, later)
        ≡ ok (done (n.objects offset, (last_node (last_node n ns) later).objects offset))
  unfolding mem_readends
  readends_lem n ns later h k =
      let end = last-Ready n ns h.0 h.1 in
      let end' = last-Ready (last_node n ns) later end k in
      rw (lt→ltb offset n.size h.0.0, lt→ltb offset (last_node n ns).size end.0, h.0.1, end'.1)

  -- The first node when a write has reached the first `k` of them, and the last.
  store_first-head :
      (new old : ObjectMemoryEntry T) (k : ℕ) (n : MemoryNode T) (ns : List (MemoryNode T))
      → n.objects offset ≡ old
      → (m : MemoryNode T) × (ms : List (MemoryNode T)) × (store_first new k (n ∷ ns) ≡ m ∷ ms)
        × (m.objects offset ≡ (if k == 0 then old else new))
  store_first-head new old zero n ns held = (n, ns, refl, held)
  store_first-head new old (suc k) n ns held =
      (store offset new n, store_first new k ns, refl, store_self new n ∙ ground arith)

  store_first-last :
      (new old : ObjectMemoryEntry T) (k : ℕ) (before n : MemoryNode T) (ns : List (MemoryNode T))
      → k ≤ length (n ∷ ns)
      → AllHold old (n ∷ ns)
      → (last_node before (store_first new k (n ∷ ns))).objects offset
        ≡ (if k == length (n ∷ ns) then new else old)
  store_first-last new old zero before n ns le held =
      last-All (λ n. n.objects offset ≡ old) n ns held.0 held.1 ∙ ground arith
  store_first-last new old (suc k) before n ns le held = elim (dec_lt k (length ns)) [
    | yes more ↦ last_old new old k (store offset new n) ns held.1 more ∙ ground arith
    | no all_done ↦
        let every : k ≡ length ns = omega arith in
        rw every (last_new new old (store offset new n) ns (store_self new n) ∙ ground arith)
  ]

  -- While a write of `new` over `old` has reached the first `k` of the nodes when the first is read,
  -- and the first `later` of them when the last is read, and no node fails: `mem_readends` shows `old`
  -- at the first exactly if `k` is 0, and `new` at the last exactly if `later` is all of them.
  pub mem_readends-store_first :
      (new old : ObjectMemoryEntry T) (k later : ℕ) (ns : List (MemoryNode T))
      → 0 < length ns
      → later ≤ length ns
      → All Ready ns
      → AllHold old ns
      → mem_readends fails offset (store_first new k ns, store_first new later ns)
        ≡ ok (done (if k == 0 then old else new, if later == length ns then new else old))
  mem_readends-store_first new old k later [] some_node le h held = absurd (omega arith)
  mem_readends-store_first new old k later (n ∷ ns) some_node le h held =
      let (m, ms, nodes, head) = store_first-head new old k n ns held.0 in
      let ready = subst (All Ready) nodes (store_first-Ready new k (n ∷ ns) h) in
      let ends =
        readends_lem m ms (store_first new later (n ∷ ns)) ready
          (store_first-Ready new later (n ∷ ns) h) in
      let last = store_first-last new old later (last_node m ms) n ns le held in
      ap (λ xs. mem_readends fails offset (xs, store_first new later (n ∷ ns))) nodes
      ∙ ends
      ∙ ap
          (λ x. ok (
            done (x, (last_node (last_node m ms) (store_first new later (n ∷ ns))).objects offset)))
          head
      ∙ ap (λ x. ok (done (if k == 0 then old else new, x))) last

  -- When all nodes hold the entry and none fails, both ends show it.
  pub mem_readends-AllHold :
      (ome : ObjectMemoryEntry T) (ns : List (MemoryNode T))
      → 0 < length ns
      → All Ready ns
      → AllHold ome ns
      → mem_readends fails offset (at_rest ns) ≡ ok (done (ome, ome))
  mem_readends-AllHold ome [] some_node h held = absurd (omega arith)
  mem_readends-AllHold ome (n ∷ ns) some_node h held =
      let end = last-All (λ n'. n'.objects offset ≡ ome) n ns held.0 held.1 in
      rw (readends_lem n ns (n ∷ ns) h h, held.0, end) refl

  -- A write of one offset leaves the entries at all others.
  pub store_first-other :
      (ome : ObjectMemoryEntry T) (k other : ℕ) (ns : List (MemoryNode T))
      → other ≢ offset
      → map (λ n. n.objects other) (store_first ome k ns) ≡ map (λ n. n.objects other) ns
  unfolding store
  store_first-other ome zero other ns apart = refl
  store_first-other ome (suc k) other [] apart = refl
  store_first-other ome (suc k) other (n ∷ ns) apart =
      let rest = store_first-other ome k other ns apart in
      let far : (other == offset) ≡ false = ground (arith, apart) in rw (far, rest) refl

  pub length-store_first :
      (ome : ObjectMemoryEntry T) (k : ℕ) (ns : List (MemoryNode T))
      → length (store_first ome k ns) ≡ length ns
  length-store_first ome zero ns = refl
  length-store_first ome (suc k) [] = refl
  length-store_first ome (suc k) (n ∷ ns) = ap suc (length-store_first ome k ns)

-- What was written does not depend on which nodes fail.
pub store_first_any {ℓ} :
    {T : Type ℓ} (fails fails' : ℕ → Bool) (offset : ℕ) (ome : ObjectMemoryEntry T) (k : ℕ)
    (ns : List (MemoryNode T))
    → store_first fails offset ome k ns ≡ store_first fails' offset ome k ns
store_first_any fails fails' offset ome zero ns = refl
store_first_any fails fails' offset ome (suc k) [] = refl
store_first_any fails fails' offset ome (suc k) (n ∷ ns) =
    ap (λ rest. store offset ome n ∷ rest) (store_first_any fails fails' offset ome k ns)
