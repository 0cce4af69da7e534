-- ===== src/Monster/Race.antt =====
-- Two candidates for one object that check in the same round in `fmonster_write` of
-- src/algorithms/monster.rs.
use rep_cxl.Prelude.{
  ℕ, ◌<◌, lt→ltb, ◌==◌, ==_iff, ◌≡◌, ◌≢◌, refl, sym, ◌∙◌, inl, inr, true, false, some, List, set,
  ℕ_discrete, get_elem?, get_elem?-lt, get_elem?-set_self, arith,
}
use mathlib.Core.Bool.{false≢true}
use rep_cxl.Prelude.Run.{ok}
use rep_cxl.ObjectIndex.{max_objects}
use rep_cxl.Wcc.{max_processes}
use rep_cxl.Wcc.Fast
use rep_cxl.Wcc.Fast.{FastWcc}
use rep_cxl.Wcc.Bitmap.{Bitmap, set_bit, smallest}
use rep_cxl.Wcc.Bitmap.Members.{IsValid, member, member-set_bit, set_bit-IsValid, smallest_lem}
use rep_cxl.Shmem.{MemoryNode, min_by_id}
use rep_cxl.Shmem.Master.{min_by_id-update_at}
use rep_cxl.Monster.{MonsterState, Tick, Vars, goes_on, Call, begin_round}
use rep_cxl.Monster.Fast.{set_fwcc, checked, check_arm, fmonster_arm, fmonster_round}

-- The process is a candidate and no smaller process is one.
pub record IsLeast (b : Bitmap) (p : ℕ) : Type 0 where
  pub candidate : member b p ≡ true
  pub least : (q : ℕ) → q < p → member b q ≡ false

IsLeast-smallest : (b : Bitmap) (p : ℕ) → IsValid b → IsLeast b p → smallest b ≡ some p
IsLeast-smallest b p valid l = elim (smallest_lem b valid) [
  | inl (nobody, clear) ↦ absurd (false≢true (sym (clear p) ∙ l.candidate))
  | inr (q, found, small, here, below) ↦
      let not_below : ¬ (q < p) = λ h. false≢true (sym (l.least q h) ∙ here) in
      let not_above : ¬ (p < q) = λ h. false≢true (sym (below p h) ∙ l.candidate) in
      let same : q ≡ p = omega (arith, not_below, not_above) in rw (found, same) refl
]

-- Once the least candidate is cleared the next one is the least.
IsLeast-set_bit :
    (b : Bitmap) (p q : ℕ)
    → IsValid b
    → p < max_processes
    → p ≢ q
    → member b q ≡ true
    → ((k : ℕ) → k < q → k ≢ p → member b k ≡ false)
    → IsLeast (set_bit b p false) q
IsLeast-set_bit b p q valid small apart second next = record {
  candidate = rw (member-set_bit b p false q valid small) (ground (arith, apart, second));
  least = λ k low. elim (ℕ_discrete p k) [
    | yes same ↦ rw (member-set_bit b p false k valid small) (ground (arith, same))
    | no other ↦
        let clear = next k low (λ e. other (sym e)) in
        rw (member-set_bit b p false k valid small) (ground (arith, other, clear))
  ];
}

found_least :
    (f : FastWcc) (oid p : ℕ) (b : Bitmap)
    → oid < max_objects
    → get_elem? f.obm oid ≡ some b
    → smallest b ≡ some p
    → Fast.last f oid ≡ ok (some p)
unfolding Fast.last
found_least f oid p b known here least =
    let seen : Fast.bitmap_at f oid ≡ ok b = rw (Fast.bitmap_at, here) refl in
    rw (lt→ltb oid max_objects known, seen, least) refl

clear_least :
    (f : FastWcc) (oid p : ℕ) (b : Bitmap)
    → oid < max_objects
    → p < max_processes
    → get_elem? f.obm oid ≡ some b
    → Fast.clear f oid p ≡ ok (record f { obm = set f.obm oid (set_bit b p false) })
unfolding Fast.clear
clear_least f oid p b known small here =
    let seen : Fast.bitmap_at f oid ≡ ok b = rw (Fast.bitmap_at, here) refl in
    rw (lt→ltb oid max_objects known, lt→ltb p max_processes small, seen) refl

module _ {ℓ} {T : Type ℓ} where
  -- The nodes after the candidate `p` for the object was cleared at the master.
  abbrev cleared : MemoryNode T → ℕ → ℕ → Bitmap → List (MemoryNode T) → List (MemoryNode T)
  cleared m oid p b ns =
      set_fwcc m (record m.state.fwcc { obm = set m.state.fwcc.obm oid (set_bit b p false) }) ns

  check_round :
      (c : Call T) (t : Tick) (v : Vars) (ns : List (MemoryNode T)) (m : MemoryNode T) (b : Bitmap)
      → min_by_id ns ≡ some m
      → v.state ≡ MonsterState.check
      → c.obj_info.id < max_objects
      → c.self_id < max_processes
      → get_elem? m.state.fwcc.obm c.obj_info.id ≡ some b
      → smallest b ≡ some c.self_id
      → fmonster_round c t v ns
        ≡ ok (
          goes_on (
              checked c t
                (begin_round c.obj_info.id t v)
                MonsterState.replicate
                (begin_round c.obj_info.id t v).last_writer_pid),
          cleared m c.obj_info.id c.self_id b ns,
        )
  unfolding fmonster_round fmonster_arm check_arm
  check_round c t v ns m b master at known small here least =
      let self : (c.self_id == c.self_id) ≡ true = (==_iff c.self_id c.self_id).1 refl in
      let found = found_least m.state.fwcc c.obj_info.id c.self_id b known here least in
      let freed = clear_least m.state.fwcc c.obj_info.id c.self_id b known small here in
      rw (master, at, found, self, freed) refl

  -- Let the candidates for an object at the master include process `p`, the least of them, and
  -- another process `q`, the least of the others. If `p` and then `q` take the check round of
  -- `fmonster_write`, in whatever rounds their clocks show, both go on to replicate.
  pub fmonster_round-both_replicate :
      (c d : Call T) (t u : Tick) (v w : Vars) (ns : List (MemoryNode T)) (m : MemoryNode T)
      (b : Bitmap)
      → min_by_id ns ≡ some m
      → v.state ≡ MonsterState.check
      → w.state ≡ MonsterState.check
      → c.obj_info.id < max_objects
      → d.obj_info.id ≡ c.obj_info.id
      → c.self_id < max_processes
      → d.self_id < max_processes
      → get_elem? m.state.fwcc.obm c.obj_info.id ≡ some b
      → IsValid b
      → IsLeast b c.self_id
      → c.self_id ≢ d.self_id
      → member b d.self_id ≡ true
      → ((k : ℕ) → k < d.self_id → k ≢ c.self_id → member b k ≡ false)
      → (v' : Vars) × (w' : Vars) × (ns' : List (MemoryNode T)) × (ns'' : List (MemoryNode T))
        × (fmonster_round c t v ns ≡ ok (goes_on v', ns'))
        × (fmonster_round d u w ns' ≡ ok (goes_on w', ns''))
        × (v'.state ≡ MonsterState.replicate)
        × (w'.state ≡ MonsterState.replicate)
  unfolding set_fwcc checked
  fmonster_round-both_replicate c d t u v w ns m b master at_c at_d known same small_c small_d here
        valid least apart second next =
      let oid = c.obj_info.id in
      let f = record m.state.fwcc { obm = set m.state.fwcc.obm oid (set_bit b c.self_id false) } in
      let m' : MemoryNode T = record m { state = record m.state { fwcc = f } } in
      let master' : min_by_id (cleared m oid c.self_id b ns) ≡ some m' =
        min_by_id-update_at (λ s. record s { fwcc = f }) ns m master in
      let stored : get_elem? f.obm d.obj_info.id ≡ some (set_bit b c.self_id false) = rw same (
        get_elem?-set_self m.state.fwcc.obm oid (set_bit b c.self_id false)
          (get_elem?-lt m.state.fwcc.obm oid here)) in
      let found =
        IsLeast-smallest (set_bit b c.self_id false) d.self_id
          (set_bit-IsValid b c.self_id false valid)
          (IsLeast-set_bit b c.self_id d.self_id valid small_c apart second next) in
      let first =
        check_round c t v ns m b master at_c known small_c here
          (IsLeast-smallest b c.self_id valid least) in
      let then =
        check_round d u w (cleared m oid c.self_id b ns) m' (set_bit b c.self_id false) master' at_d
          (rw same known) small_d stored found in
      (_, _, _, _, first, then, refl, refl)
