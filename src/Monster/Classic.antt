-- ===== src/Monster/Classic.antt =====
-- `monster_write` of src/algorithms/monster.rs: conflicts are settled by `ObjectWCC`.
use rep_cxl.Prelude.{if◌then◌else◌, Bool, List, [], ◌∷◌}
use rep_cxl.Prelude.Run.{Run, ok, ◌>>=◌}
use rep_cxl.Prelude.Words.{add64}
use rep_cxl.Request
use rep_cxl.Request.{Wid}
use rep_cxl.Wcc.Object
use rep_cxl.Shmem.{MemoryNode, min_by_id, update_at}
use rep_cxl.Memio.{mem_writeall, mem_readall}
use rep_cxl.Monster.{
  MonsterState, try, retry, check, replicate, wait, post_conflict_check, Tick, Vars, Next, goes_on,
  returns, Call, begin_round, unwrap, overtime, count_if, own_wid, write_result,
  after_post_conflict, with_overtime_replicate, is_overtime,
}

module _ {ℓ} {T : Type ℓ} where
  -- The write of this process to the conflict checker, in the shared state of the master.
  unfoldable pub record_attempt :
      Call T → Tick → MemoryNode T → List (MemoryNode T) → List (MemoryNode T)
  unfolding update_at
  record_attempt c t master ns =
      update_at master.id
        (λ s. record s { owcc = Object.write s.owcc c.obj_info.id t.round_num c.self_id }) ns

  unfoldable pub after_try : Call T → Tick → Vars → Vars
  unfolding is_overtime add64
  after_try c t v = record v {
    state = MonsterState.check;
    wid = own_wid c t;
    stats = record v.stats { try_overtime = count_if (overtime c t) v.stats.try_overtime };
  }

  -- `is_last` on the checker of the master.
  abbrev pub wins : Call T → Tick → Wid → MemoryNode T → Bool
  wins c t wid master =
      Object.is_last master.state.owcc c.obj_info.id t.round_num wid.round_num wid.process_id

  unfoldable pub after_check : Call T → Tick → Vars → Bool → Vars
  unfolding is_overtime add64
  after_check c t v won = record v {
    state = if won then MonsterState.replicate else MonsterState.wait;
    stats = record v.stats { check_overtime = count_if (overtime c t) v.stats.check_overtime };
  }

  -- The `match` on the state.
  unfoldable pub monster_arm :
      Call T
      → Tick
      → MemoryNode T
      → MonsterState
      → Vars
      → List (MemoryNode T)
      → Run (Next × List (MemoryNode T))
  unfolding record_attempt is_overtime add64 Request.lt
  monster_arm c t master try v ns = ok (goes_on (after_try c t v), record_attempt c t master ns)
  monster_arm c t master retry v ns = ok (goes_on (after_try c t v), record_attempt c t master ns)
  monster_arm c t master check v ns = ok (goes_on (after_check c t v (wins c t v.wid master)), ns)
  monster_arm c t master replicate v ns = do
    (r, ns') ← mem_writeall t.fails c.obj_info.offset (record { wid = v.wid; value = c.value }) ns
    ok (returns (write_result r) (with_overtime_replicate c t v), ns')
  monster_arm c t master wait v ns = ok (
    goes_on (record v {
      state = MonsterState.post_conflict_check;
      stats = record v.stats { conflicts = add64 v.stats.conflicts 1 };
    }),
    ns,
  )
  monster_arm c t master post_conflict_check v ns = do
    r ← mem_readall t.fails c.obj_info.offset ns
    ok (after_post_conflict v r, ns)

  -- One round of `monster_write`; without a memory node the `unwrap` of the master panics.
  unfoldable pub monster_round :
      Call T → Tick → Vars → List (MemoryNode T) → Run (Next × List (MemoryNode T))
  unfolding monster_arm begin_round
  monster_round c t v ns = do
    master ← unwrap (min_by_id ns)
    monster_arm c t master v.state (begin_round c.obj_info.id t v) ns

  -- The loop over the rounds that are given: the answer, or the variables with which it would go on.
  unfoldable pub monster_loop :
      Call T → List Tick → Vars → List (MemoryNode T) → Run (Next × List (MemoryNode T))
  unfolding monster_round
  monster_loop c [] v ns = ok (goes_on v, ns)
  monster_loop c (t ∷ ts) v ns = do
    (next, ns') ← monster_round c t v ns
    elim next [ goes_on v' ↦ monster_loop c ts v' ns' | returns r v' ↦ ok (returns r v', ns') ]
