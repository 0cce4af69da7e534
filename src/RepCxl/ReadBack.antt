-- ===== src/RepCxl/ReadBack.antt =====
-- A write by `write_object` of src/lib.rs and the reads behind it, by any process.
use rep_cxl.Prelude.{ℕ, ◌≡◌, refl, Bool, false, some, List}
use rep_cxl.Prelude.Run.{ok}
use rep_cxl.Request.{read_safe}
use rep_cxl.Shmem.{MemoryNode, min_by_id}
use rep_cxl.Memio.{at_rest}
use rep_cxl.Monster.{Tick}
use rep_cxl.Monster.Read.{ReadResult, got, monster_read}
use rep_cxl.Monster.Uncontended.{nodes_after}
use rep_cxl.Algorithms
use rep_cxl.Algorithms.{AlgorithmCallContext, read_env}
use rep_cxl.RepCxl.{RepCxl, RepCxlObject}
use rep_cxl.RepCxl.Access.{ReadCall, read_once, read_object}
use rep_cxl.RepCxl.Retries.{retry_dirty-settled}

module _ {ℓ} {F : Type 0} {T : Type ℓ} where
  -- The reads of `calls`, with nodes that no one writes.
  abbrev pub resting : (ℕ → ReadCall F T) → List (MemoryNode T) → ℕ → ReadCall F T
  resting calls ns k = record (calls k) { meets = ((calls k).meets.0, at_rest ns) }

  -- A read that is safe at once is answered whatever the number of retries.
  pub read_object-safe :
      (same : T → T → Bool) (fails : ℕ → Bool) (calls : ℕ → ReadCall F T) (obj : RepCxlObject)
      (q : RepCxl F T) (value : T)
      → read_once same fails obj (calls 0) q ≡ ok (got (read_safe value), q)
      → read_object same fails calls obj q ≡ ok (got (read_safe value), q)
  unfolding read_object
  read_object-safe same fails calls obj q value first = rw first (
      retry_dirty-settled (λ n. read_once same fails obj (calls n)) 1 q.config.read_retries
        (got (read_safe value)) q (λ d. d))

  pub read_once-monster :
      (same : T → T → Bool) (fails : ℕ → Bool) (c : ReadCall F T) (obj : RepCxlObject)
      (q : RepCxl F T) {answer : ReadResult T}
      → q.config.pipeline ≡ false
      → q.algorithm_ctx.algorithm ≡ "monster"
      → monster_read (read_env q.algorithm_ctx) fails obj.info.offset c.meets ≡ ok answer
      → read_once same fails obj c q ≡ ok (answer, q)
  unfolding read_once Algorithms.read
  read_once-monster same fails c obj q direct named h = rw (direct, named, h) refl

  module _ (r : RepCxl F T) (t1 t2 t3 : Tick) (obj : RepCxlObject) (value : T) (m : MemoryNode T)
      (master : min_by_id r.view.memory_nodes ≡ some m) where
    -- The nodes behind the write.
    abbrev after_write : List (MemoryNode T)
    after_write =
        nodes_after (Algorithms.call r.algorithm_ctx r.view.self_id obj.info value) t1 t2 t3
          r.view.memory_nodes m master
