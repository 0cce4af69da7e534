-- ===== src/Monster/Writers/Effect.antt =====
-- What one round of `monster_write` does to the conflict checker of the master, and to its own state.
use rep_cxl.Prelude.{◌≡◌, ◌≢◌, refl, sym, ap, ◌∙◌, inl, inr, true, false, Bool-cases, some, List}
use mathlib.Core.Path.{subst, subst₂}
use rep_cxl.Prelude.Run.{Run, ok, >>=-eq-ok}
use rep_cxl.Wcc.Object
use rep_cxl.Wcc.Object.{ObjectWcc}
use rep_cxl.Shmem.{MemoryNode, ObjectMemoryEntry, min_by_id}
use rep_cxl.Shmem.Master.{min_by_id-update_at, mem_writeall-master}
use rep_cxl.Memio.{MemResult, done, memory_error, mem_writeall, mem_readall}
use rep_cxl.Monster.{
  MonsterState, try, retry, check, replicate, wait, post_conflict_check, Tick, Vars, WriteResult,
  Next, goes_on, returns, Call, begin_round, any_smaller, after_post_conflict,
}
use rep_cxl.Monster.Classic.{
  after_try, after_check, record_attempt, wins, monster_arm, monster_round,
}

module _ {ℓ} {T : Type ℓ} where
  -- The checker at the master.
  abbrev pub Checker : List (MemoryNode T) → ObjectWcc → Type ℓ
  Checker ns w = (m : MemoryNode T) × (min_by_id ns ≡ some m) × (m.state.owcc ≡ w)

  pub data Effect (c : Call T) (t : Tick) (v : Vars) (w : ObjectWcc)
      : Next → ObjectWcc → Type 0 where
    tried :
        (v' : Vars)
        → v'.state ≡ MonsterState.check
        → v'.wid ≡ record { round_num = t.round_num; process_id = c.self_id }
        → Effect c t v w (goes_on v') (Object.write w c.obj_info.id t.round_num c.self_id)
    won :
        (v' : Vars)
        → v.state ≡ MonsterState.check
        → v'.state ≡ MonsterState.replicate
        → v'.wid ≡ v.wid
        → Object.is_last w c.obj_info.id t.round_num v.wid.round_num v.wid.process_id ≡ true
        → Effect c t v w (goes_on v') w
    rested :
        (v' : Vars)
        → v'.state ≢ MonsterState.check
        → v'.state ≢ MonsterState.replicate
        → Effect c t v w (goes_on v') w
    ended : (r : WriteResult) (v' : Vars) → Effect c t v w (returns r v') w

  module _ (c : Call T) (t : Tick) (m : MemoryNode T) (ns : List (MemoryNode T))
      (master : min_by_id ns ≡ some m) where
    -- What an arm gives: an effect, and the checker after it.
    abbrev Outcome : Vars → Next → List (MemoryNode T) → Type ℓ
    Outcome v next ns' = (w' : ObjectWcc) × Effect c t v m.state.owcc next w' × Checker ns' w'

    -- The answer of an arm, read as an outcome.
    given :
        (v : Vars) (x next : Next) (xs ns' : List (MemoryNode T))
        → ◌≡◌ {A = Run (Next × List (MemoryNode T))} (ok (x, xs)) (ok (next, ns'))
        → Outcome v x xs
        → Outcome v next ns'
    given v x next xs ns' h o =
        let answer : x ≡ next = cc in let left : xs ≡ ns' = cc in subst₂ (Outcome v) answer left o

    tried_effect : (v : Vars) → Outcome v (goes_on (after_try c t v)) (record_attempt c t m ns)
    unfolding after_try record_attempt
    tried_effect v = (
      Object.write m.state.owcc c.obj_info.id t.round_num c.self_id,
      tried (after_try c t v) refl refl,
      (_, min_by_id-update_at _ ns m master, refl),
    )

    check_effect :
        (v : Vars)
        → v.state ≡ MonsterState.check
        → Outcome v (goes_on (after_check c t v (wins c t v.wid m))) ns
    unfolding after_check
    check_effect v here = elim (Bool-cases (wins c t v.wid m)) [
      | inl yes_wins ↦
          let next : after_check c t v true ≡ after_check c t v (wins c t v.wid m) =
            ap (after_check c t v) (sym yes_wins) in
          (
            m.state.owcc,
            subst (λ u. Effect c t v m.state.owcc (goes_on u) m.state.owcc) next
                (won (after_check c t v true) here refl refl yes_wins),
            (m, master, refl),
          )
      | inr loses ↦
          let next : after_check c t v false ≡ after_check c t v (wins c t v.wid m) =
            ap (after_check c t v) (sym loses) in
          (
            m.state.owcc,
            subst (λ u. Effect c t v m.state.owcc (goes_on u) m.state.owcc) next
                (rested (after_check c t v false) (λ e. cc) (λ e. cc)),
            (m, master, refl),
          )
    ]

    post_effect :
        (v : Vars) (r : MemResult (List (ObjectMemoryEntry T)))
        → Outcome v (after_post_conflict v r) ns
    unfolding after_post_conflict
    post_effect v (memory_error k) = (m.state.owcc, ended _ _, (m, master, refl))
    post_effect v (done omes) = elim (Bool-cases (any_smaller v.wid omes)) [
      | inl older ↦ rw older (m.state.owcc, rested _ (λ e. cc) (λ e. cc), (m, master, refl))
      | inr newest ↦ rw newest (m.state.owcc, ended _ _, (m, master, refl))
    ]

    arm_effect :
        (s : MonsterState) (v : Vars) {next : Next} {ns' : List (MemoryNode T)}
        → v.state ≡ s
        → monster_arm c t m s v ns ≡ ok (next, ns')
        → Outcome v next ns'
    unfolding monster_arm
    arm_effect try v {next} {ns'} here h = given v _ next _ ns' h (tried_effect v)
    arm_effect retry v {next} {ns'} here h = given v _ next _ ns' h (tried_effect v)
    arm_effect check v {next} {ns'} here h = given v _ next _ ns' h (check_effect v here)
    arm_effect replicate v {next} {ns'} here h =
        let ((r, ms), stored, rest) = >>=-eq-ok (mem_writeall t.fails c.obj_info.offset _ ns) _ h in
        let (k, found, kept) = mem_writeall-master t.fails c.obj_info.offset _ ns master stored in
        given v _ next _ ns' rest (m.state.owcc, ended _ _, (k, found, ap (λ s. s.owcc) kept))
    arm_effect wait v {next} {ns'} here h =
        given v _ next _ ns' h (m.state.owcc, rested _ (λ e. cc) (λ e. cc), (m, master, refl))
    arm_effect post_conflict_check v {next} {ns'} here h =
        let (r, seen, rest) = >>=-eq-ok (mem_readall t.fails c.obj_info.offset ns) _ h in
        given v _ next _ ns' rest (post_effect v r)

  Effect-vars :
      (c : Call T) (t : Tick) (u v : Vars) (w : ObjectWcc) {next : Next} {w' : ObjectWcc}
      → u.state ≡ v.state
      → u.wid ≡ v.wid
      → Effect c t u w next w'
      → Effect c t v w next w'
  Effect-vars c t u v w s i (tried v' e f) = tried v' e f
  Effect-vars c t u v w s i (won v' e f g h) =
      won v' (sym s ∙ e) f (g ∙ i) (
        subst (λ x. Object.is_last w c.obj_info.id t.round_num x.round_num x.process_id ≡ true) i h)
  Effect-vars c t u v w s i (rested v' e f) = rested v' e f
  Effect-vars c t u v w s i (ended r v') = ended r v'

  -- The effect of a round, with the checker before and after it.
  pub round_effect :
      (c : Call T) (t : Tick) (v : Vars) (w : ObjectWcc) (ns : List (MemoryNode T)) {next : Next}
      {ns' : List (MemoryNode T)}
      → Checker ns w
      → monster_round c t v ns ≡ ok (next, ns')
      → (w' : ObjectWcc) × Effect c t v w next w' × Checker ns' w'
  unfolding monster_round begin_round
  round_effect c t v w ns {next} (m, master, same) h =
      let (w', effect, checker) =
        arm_effect c t m ns master v.state (begin_round c.obj_info.id t v) refl (rw master at h) in
      (
        w',
        subst (λ x. Effect c t v x next w') same
            (Effect-vars c t (begin_round c.obj_info.id t v) v m.state.owcc refl refl effect),
        checker,
      )
