-- ===== src/Memio/Written.antt =====
-- What a `mem_writeall` that returned without an error has done.
use rep_cxl.Prelude.{
  ℕ, ltb, ltb→lt, ◌≡◌, sym, ap, ◌∙◌, inl, inr, Bool, Bool-cases, List, [], ◌∷◌, All, length,
}
use rep_cxl.Prelude.Run.{ok, ok_parts, >>=-eq-ok}
use rep_cxl.Shmem.{ObjectMemoryEntry, MemoryNode, store}
use rep_cxl.Memio.{done, mem_writeall}
use rep_cxl.Memio.Replicas.{Ready, store_first}

module _ {ℓ} {T : Type ℓ} (fails : ℕ → Bool) (offset : ℕ) (ome : ObjectMemoryEntry T) where
  -- It found no node that fails or refuses the offset, and wrote them all.
  pub mem_writeall-done :
      (ns ns' : List (MemoryNode T))
      → mem_writeall fails offset ome ns ≡ ok (done tt, ns')
      → All (Ready fails offset) ns × (ns' ≡ store_first fails offset ome (length ns) ns)
  unfolding mem_writeall
  mem_writeall-done [] ns' h = (tt, sym (ok_parts _ _ h).1)
  mem_writeall-done (n ∷ ns) ns' h = elim (Bool-cases (ltb offset n.size)) [
    | inr out ↦ absurd (let no_result = rw out at h in cc)
    | inl within ↦ elim (Bool-cases (fails n.id)) [
      | inl fault ↦
          absurd (let wrong = ok_parts _ _ (rw (within, fault) at h) in let bad = wrong.0 in cc)
      | inr fine ↦
          let ((r, ns1), e, h2) =
            >>=-eq-ok (mem_writeall fails offset ome ns) _ (rw (within, fine) at h) in
          let (finished, out) = ok_parts _ _ h2 in
          let (ready, written) = mem_writeall-done ns ns1 (e ∙ ap (λ x. ok (x, ns1)) finished) in
          (
            ((ltb→lt offset n.size within, fine), ready),
            sym out ∙ ap (λ rest. store offset ome n ∷ rest) written,
          )
    ]
  ]
