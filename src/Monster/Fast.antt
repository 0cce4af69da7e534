-- ===== src/Monster/Fast.antt =====
-- `fmonster_write` of src/algorithms/monster.rs: conflicts are settled by `FastWCC`.
use rep_cxl.Prelude.{ℕ, ◌==◌, if◌then◌else◌, Option, none, some, List, [], ◌∷◌}
use rep_cxl.Prelude.Run.{Run, ok, ◌>>=◌}
use rep_cxl.Prelude.Words.{add64}
use rep_cxl.Request
use rep_cxl.Wcc.Fast
use rep_cxl.Wcc.Fast.{FastWcc}
use rep_cxl.Shmem.{MemoryNode, min_by_id, update_at}
use rep_cxl.Memio.{mem_writeall, mem_readall}
use rep_cxl.Monster.{
  MonsterState, try, retry, check, replicate, wait, post_conflict_check, Tick, Vars, Next, goes_on,
  returns, Call, begin_round, unwrap, overtime, count_if, own_wid, write_result,
  after_post_conflict, with_overtime_replicate, is_overtime,
}

module _ {ℓ} {T : Type ℓ} where
  -- The nodes with a new conflict checker at the master.
  unfoldable pub set_fwcc : MemoryNode T → FastWcc → List (MemoryNode T) → List (MemoryNode T)
  unfolding update_at
  set_fwcc master f ns = update_at master.id (λ s. record s { fwcc = f }) ns

  abbrev pub tried : Call T → Tick → Vars → Vars
  unfolding is_overtime add64
  tried c t v = record v {
    state = MonsterState.check;
    wid = own_wid c t;
    stats = record v.stats { try_overtime = count_if (overtime c t) v.stats.try_overtime };
  }

  -- The variables after the check has moved on to `next`.
  unfoldable pub checked : Call T → Tick → Vars → MonsterState → ℕ → Vars
  unfolding is_overtime add64
  checked c t v next last_writer = record v {
    state = next;
    last_writer_pid = last_writer;
    stats = record v.stats { check_overtime = count_if (overtime c t) v.stats.check_overtime };
  }

  -- The `match` on the last writer.
  unfoldable pub check_arm :
      Call T
      → Tick
      → MemoryNode T
      → Option ℕ
      → Vars
      → List (MemoryNode T)
      → Run (Next × List (MemoryNode T))
  unfolding set_fwcc is_overtime add64 Fast.clear
  check_arm c t master none v ns = ok (goes_on (checked c t v post_conflict_check c.self_id), ns)
  check_arm c t master (some last_writer) v ns =
      if last_writer == c.self_id
      then (do
        f ← Fast.clear master.state.fwcc c.obj_info.id c.self_id
        ok (goes_on (checked c t v replicate v.last_writer_pid), set_fwcc master f ns))
      else ok (goes_on (checked c t v wait last_writer), ns)

  unfoldable pub fmonster_arm :
      Call T
      → Tick
      → MemoryNode T
      → MonsterState
      → Vars
      → List (MemoryNode T)
      → Run (Next × List (MemoryNode T))
  unfolding check_arm Request.lt
  fmonster_arm c t master try v ns = do
    f ← Fast.write master.state.fwcc c.obj_info.id c.self_id
    ok (goes_on (tried c t v), set_fwcc master f ns)
  fmonster_arm c t master retry v ns = do
    f ← Fast.replace master.state.fwcc c.obj_info.id c.self_id v.last_writer_pid
    ok (goes_on (tried c t v), set_fwcc master f ns)
  fmonster_arm c t master check v ns = do
    found ← Fast.last master.state.fwcc c.obj_info.id
    check_arm c t master found v ns
  fmonster_arm c t master replicate v ns = do
    (r, ns') ← mem_writeall t.fails c.obj_info.offset (record { wid = v.wid; value = c.value }) ns
    ok (returns (write_result r) (with_overtime_replicate c t v), ns')
  fmonster_arm c t master wait v ns = ok (
    goes_on (record v {
      state = MonsterState.post_conflict_check;
      stats = record v.stats { conflicts = add64 v.stats.conflicts 1 };
    }),
    ns,
  )
  fmonster_arm c t master post_conflict_check v ns = do
    r ← mem_readall t.fails c.obj_info.offset ns
    ok (after_post_conflict v r, ns)

  unfoldable pub fmonster_round :
      Call T → Tick → Vars → List (MemoryNode T) → Run (Next × List (MemoryNode T))
  unfolding fmonster_arm begin_round
  fmonster_round c t v ns = do
    master ← unwrap (min_by_id ns)
    fmonster_arm c t master v.state (begin_round c.obj_info.id t v) ns

  unfoldable pub fmonster_loop :
      Call T → List Tick → Vars → List (MemoryNode T) → Run (Next × List (MemoryNode T))
  unfolding fmonster_round
  fmonster_loop c [] v ns = ok (goes_on v, ns)
  fmonster_loop c (t ∷ ts) v ns = do
    (next, ns') ← fmonster_round c t v ns
    elim next [ goes_on v' ↦ fmonster_loop c ts v' ns' | returns r v' ↦ ok (returns r v', ns') ]
