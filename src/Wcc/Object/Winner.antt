-- ===== src/Wcc/Object/Winner.antt =====
-- Who wins an object in `ObjectWcc`: the entry of the largest round that is over, and among these
-- the one of the largest process.
use rep_cxl.Prelude.{
  ℕ, ◌<◌, ◌≡◌, refl, sym, inl, inr, ◌↔◌, true, some, Option-cases, length, get_elem?, get_elem?-lt,
  arith, dec_lt,
}
use mathlib.Core.Path.{ap₂, ◌∙◌}
use rep_cxl.Wcc.{max_processes}
use rep_cxl.Wcc.Object.{ObjectWcc, is_last}
use rep_cxl.Wcc.Object.Unbeaten.{Unbeaten, is_last-Unbeaten, Unbeaten-is_last}
use rep_cxl.Wcc.Object.Leader.{leader, IsLeader, leader-none, leader-IsLeader}

module _ (w : ObjectWcc) (oid current round pid : ℕ)
    (own : get_elem? w.p_round pid ≡ some (record { oid = oid; round = round }))
    (over : round < current) where
  only_leader :
      (j r : ℕ)
      → IsLeader oid current 0 w.p_round j r
      → Unbeaten oid current round pid 0 w.p_round
      → (j ≡ pid) × (r ≡ round)
  only_leader j r l h =
      let against = h l.index (record { oid = oid; round = r }) l.entry in
      let rank = l.largest pid (record { oid = oid; round = round }) own refl over in
      elim rank [
        | inl early ↦ absurd (against (refl, inl (l.over, early)))
        | inr (same, below) ↦ elim (dec_lt pid l.index) [
          | yes under ↦ absurd (against (refl, inr (sym same, omega arith)))
          | no equal ↦ (omega (arith, l.place), omega arith)
        ]
      ]

  leads :
      is_last w oid current round pid ≡ true → leader oid current 0 w.p_round ≡ some (pid, round)
  leads h = elim (Option-cases (leader oid current 0 w.p_round)) [
    | inl clear ↦ absurd (omega (arith, leader-none oid current 0 w.p_round clear pid _ own refl))
    | inr ((j, r), found) ↦
        let same =
          only_leader j r (leader-IsLeader oid current 0 w.p_round found)
            (is_last-Unbeaten w oid current round pid h) in
        found ∙ ap₂ (λ a b. some (a, b)) same.0 same.1
  ]

  wins :
      leader oid current 0 w.p_round ≡ some (pid, round)
      → Unbeaten oid current round pid 0 w.p_round
  wins found k e at (same, how) =
      let l = leader-IsLeader oid current 0 w.p_round found in
      elim how [
        | inl (early, after) ↦ ground (arith, l.largest k e at same early, l.place)
        | inr (equal, above) ↦ ground (arith, l.largest k e at same (omega arith), l.place)
      ]

-- For a process whose entry records an attempt on the object in a round before the current one,
-- `is_last` answers whether that process is the leader: the one whose recorded round is the largest
-- before the current one and, among those of that round, the largest process. So of all the
-- processes with a recorded attempt exactly one is told that it is the last writer.
pub is_last-leader :
    (w : ObjectWcc) (oid current round pid : ℕ)
    → length w.p_round ≡ max_processes
    → get_elem? w.p_round pid ≡ some (record { oid = oid; round = round })
    → round < current
    → (is_last w oid current round pid ≡ true)
      ↔ (leader oid current 0 w.p_round ≡ some (pid, round))
is_last-leader w oid current round pid size own over =
    let small = get_elem?-lt w.p_round pid own in
    (
      leads w oid current round pid own over,
      λ found.
          Unbeaten-is_last w oid current round pid (omega arith)
            (wins w oid current round pid own over found),
    )
