-- ===== src/Monster/Conflict.antt =====
-- The loser of a conflict in `monster_write` of src/algorithms/monster.rs.
use rep_cxl.Prelude.{
  ℕ, zero, suc, ◌<◌, ◌≡◌, refl, inl, inr, true, Bool-cases, some, List, [], ◌∷◌, get_elem?,
}
use mathlib.Core.Option.{some-injective}
use rep_cxl.Prelude.Run.{ok}
use rep_cxl.Request
use rep_cxl.Request.{Wid}
use rep_cxl.Request.Order.{lt_iff}
use rep_cxl.Shmem.{ObjectMemoryEntry, MemoryNode}
use rep_cxl.Memio.{done, mem_readall}
use rep_cxl.Monster.{MonsterState, Tick, Vars, goes_on, Call, any_smaller, after_post_conflict}
use rep_cxl.Monster.Classic.{monster_arm}

module _ {ℓ} {T : Type ℓ} where
  any_smaller-found :
      (wid : Wid) (omes : List (ObjectMemoryEntry T)) (k : ℕ) {e : ObjectMemoryEntry T}
      → get_elem? omes k ≡ some e
      → Request.lt e.wid wid ≡ true
      → any_smaller wid omes ≡ true
  unfolding any_smaller
  any_smaller-found wid [] k at low = cc
  any_smaller-found wid (o ∷ omes) zero at low =
      let same : o ≡ _ = some-injective _ _ at in rw (same, low) refl
  any_smaller-found wid (o ∷ omes) (suc k) at low = elim (Bool-cases (Request.lt o.wid wid)) [
    | inl here ↦ rw here refl
    | inr there ↦ rw there (any_smaller-found wid omes k at low)
  ]

  -- If one of the entries that the post-conflict check reads was written by a larger process with an
  -- identifier of the round of the process's own, the process retries, whatever the other entries
  -- are: also when the winner of the conflict has written every node.
  pub monster_arm-loser :
      (c : Call T) (t : Tick) (m : MemoryNode T) (v : Vars) (ns : List (MemoryNode T))
      (omes : List (ObjectMemoryEntry T)) (k : ℕ) (e : ObjectMemoryEntry T)
      → mem_readall t.fails c.obj_info.offset ns ≡ ok (done omes)
      → get_elem? omes k ≡ some e
      → e.wid.round_num ≡ v.wid.round_num
      → v.wid.process_id < e.wid.process_id
      → monster_arm c t m MonsterState.post_conflict_check v ns
        ≡ ok (goes_on (record v { state = MonsterState.retry }), ns)
  unfolding monster_arm after_post_conflict
  monster_arm-loser c t m v ns omes k e seen at same larger =
      let low = (lt_iff e.wid v.wid).1 (inr (same, larger)) in
      rw (seen, any_smaller-found v.wid omes k at low) refl
