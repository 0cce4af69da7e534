-- ===== src/Memio/Readone.antt =====
-- `_mem_readone` of src/safe_memio.rs beside `mem_readall`.
use rep_cxl.Prelude.{
  ℕ, zero, suc, ◌<◌, ltb, ◌≡◌, refl, sym, ap, ◌∙◌, Bool, true, false, Bool-cases, inl, inr, some,
  List, [], ◌∷◌, length, get_elem?, arith,
}
use rep_cxl.Prelude.Run.{ok, >>=-eq-ok}
use rep_cxl.Shmem.{ObjectMemoryEntry, MemoryNode}
use rep_cxl.Memio.{MemResult, done, memory_error, after_read, safe_read, mem_readall, mem_readone}

module _ {ℓ} {T : Type ℓ} (fails : ℕ → Bool) (offset : ℕ) where
  more_entries :
      (e : ObjectMemoryEntry T) (r : MemResult (List (ObjectMemoryEntry T)))
      (es : List (ObjectMemoryEntry T))
      → after_read (done e) (ok r) ≡ ok (done es)
      → (others : List (ObjectMemoryEntry T)) × (r ≡ done others) × (es ≡ e ∷ others)
  more_entries e (memory_error k) es h = absurd (cc)
  more_entries e (done others) es h = (others, refl, sym (cc))

  readall_parts :
      (n : MemoryNode T) (ns : List (MemoryNode T)) (es : List (ObjectMemoryEntry T))
      → mem_readall fails offset (n ∷ ns) ≡ ok (done es)
      → (ltb offset n.size ≡ true)
        × (fails n.id ≡ false)
        × ((others : List (ObjectMemoryEntry T)) × (mem_readall fails offset ns ≡ ok (done others))
            × (es ≡ n.objects offset ∷ others))
  unfolding mem_readall safe_read
  readall_parts n ns es h = elim (Bool-cases (ltb offset n.size)) [
    | inr out ↦ absurd (let stuck = rw out at h in cc)
    | inl room ↦ elim (Bool-cases (fails n.id)) [
      | inl fault ↦ absurd (let stuck = rw (room, fault) at h in cc)
      | inr fine ↦
          let later = rw (room, fine) at h in
          let (r, e, next) = >>=-eq-ok (mem_readall fails offset ns) _ later in
          let (others, same, all) = more_entries (n.objects offset) r es next in
          (room, fine, (others, e ∙ ap ok same, all))
    ]
  ]

  -- A read of all nodes that succeeds has what a read of any one of them gives.
  pub mem_readone-mem_readall :
      (pick : ℕ) (ns : List (MemoryNode T)) (es : List (ObjectMemoryEntry T))
      → mem_readall fails offset ns ≡ ok (done es)
      → pick < length ns
      → (e : ObjectMemoryEntry T) × (get_elem? es pick ≡ some e)
        × (mem_readone fails pick offset ns ≡ ok (done e))
  unfolding mem_readone safe_read
  mem_readone-mem_readall pick [] es h lt = absurd (omega arith)
  mem_readone-mem_readall zero (n ∷ ns) es h lt =
      let (room, fine, (others, rest, all)) = readall_parts n ns es h in
      (n.objects offset, rw all refl, rw (room, fine) refl)
  mem_readone-mem_readall (suc pick) (n ∷ ns) es h lt =
      let (room, fine, (others, rest, all)) = readall_parts n ns es h in
      let (e, at, one) = mem_readone-mem_readall pick ns others rest (omega arith) in
      (e, rw all at, one)
