-- ===== src/Monster/Writers/Invariant.antt =====
-- The invariant of the writers of one board: what the checker knows of each of them.
use rep_cxl.Prelude.{
  ℕ, suc, ◌≤◌, ◌<◌, ◌≡◌, ◌≢◌, sym, ap, ◌∙◌, some, length, get_elem?, ℕ_discrete, arith,
}
use mathlib.Core.Path.{subst, subst₂}
use mathlib.Core.Option.{some-injective}
use rep_cxl.Wcc.{max_processes}
use rep_cxl.Wcc.Object
use rep_cxl.Wcc.Object.{Entry, ObjectWcc}
use rep_cxl.Monster.{MonsterState, Tick, Next}
use rep_cxl.Monster.Writers.{Writer, Board}
use rep_cxl.Monster.Writers.Effect.{Checker, Effect, tried, won, rested, ended}
use rep_cxl.Monster.Writers.Attempt.{attempt_own, attempt_other, attempt_sized}

module _ {ℓ} {T : Type ℓ} where
  -- The checker has the attempt of the writer `p`.
  pub record Recorded (w : ObjectWcc) (p : ℕ) (x : Writer T) : Type 0 where
    pub entry :
        get_elem? w.p_round p
        ≡ some (record { oid = x.call.obj_info.id; round = x.vars.wid.round_num })
    pub own : x.vars.wid.process_id ≡ p
    pub past : x.vars.wid.round_num ≤ x.last

  -- No larger process has an attempt on the object in the round, which is over.
  pub record Top (round : ℕ) (w : ObjectWcc) (p : ℕ) (x : Writer T) : Type 0 where
    pub over : x.vars.wid.round_num < round
    pub largest :
        (k : ℕ) (e : Entry)
        → get_elem? w.p_round k ≡ some e
        → e.oid ≡ x.call.obj_info.id
        → e.round ≡ x.vars.wid.round_num
        → k ≤ p

  pub record WriterInv (round : ℕ) (w : ObjectWcc) (p : ℕ) (x : Writer T) : Type 0 where
    pub named : x.call.self_id ≡ p
    pub behind : x.last ≤ round
    pub checking : x.vars.state ≡ MonsterState.check → Recorded w p x
    pub replicating : x.vars.state ≡ MonsterState.replicate → Recorded w p x × Top round w p x

  pub record Inv (b : Board T) : Type ℓ where
    pub checker : ObjectWcc
    pub at_master : Checker b.nodes checker
    pub sized : length checker.p_round ≡ max_processes
    pub each : (p : ℕ) → p < max_processes → WriterInv b.round checker p (b.writers p)

  Top-later : (r : ℕ) (w : ObjectWcc) (p : ℕ) (x : Writer T) → Top r w p x → Top (suc r) w p x
  Top-later r w p x top = record { over = omega (arith, top.over); largest = top.largest }

  pub WriterInv-next_round :
      (r : ℕ) (w : ObjectWcc) (p : ℕ) (x : Writer T) → WriterInv r w p x → WriterInv (suc r) w p x
  WriterInv-next_round r w p x i = record {
    named = i.named;
    behind = omega (arith, i.behind);
    checking = i.checking;
    replicating = λ e. ((i.replicating e).0, Top-later r w p x (i.replicating e).1);
  }

  -- The writers other than the one that tried do not notice it.
  module _ (w : ObjectWcc) (p oid round : ℕ) (small : p < max_processes)
      (size : length w.p_round ≡ max_processes) (q : ℕ) (x : Writer T) (other : p ≢ q) where
    Recorded-attempt : Recorded w q x → Recorded (Object.write w oid round p) q x
    Recorded-attempt rec = record {
      entry = attempt_other w p oid round small size q other ∙ rec.entry;
      own = rec.own;
      past = rec.past;
    }

    Top-attempt : Top round w q x → Top round (Object.write w oid round p) q x
    Top-attempt top = record {
      over = top.over;
      largest = λ k e at own same. elim (ℕ_discrete p k) [
        | yes here ↦
            let mine =
              subst
                (λ j.
                  get_elem? (Object.write w oid round p).p_round j
                  ≡ some (record { oid = oid; round = round }))
                here (attempt_own w p oid round small size) in
            let late : round ≡ e.round = ap (λ z. z.round) (some-injective _ _ (sym mine ∙ at)) in
            absurd (omega (arith, late, top.over, same))
        | no there ↦
            top.largest k e (sym (attempt_other w p oid round small size k there) ∙ at) own same
      ];
    }

    WriterInv-attempt : WriterInv round w q x → WriterInv round (Object.write w oid round p) q x
    WriterInv-attempt i = record {
      named = i.named;
      behind = i.behind;
      checking = λ e. Recorded-attempt (i.checking e);
      replicating = λ e. (Recorded-attempt (i.replicating e).0, Top-attempt (i.replicating e).1);
    }

  -- The other writers after an effect of the writer `p`.
  pub WriterInv-other :
      (round : ℕ) (w : ObjectWcc) (p : ℕ) (x : Writer T) (t : Tick)
      → p < max_processes
      → length w.p_round ≡ max_processes
      → x.call.self_id ≡ p
      → t.round_num ≡ round
      → {next : Next} {w' : ObjectWcc} → Effect x.call t x.vars w next w'
      → (length w'.p_round ≡ max_processes)
        × ((q : ℕ) (y : Writer T) → p ≢ q → WriterInv round w q y → WriterInv round w' q y)
  WriterInv-other round w p x t small size named now (tried v' at wid) =
      subst₂
        (λ r s.
          (length (Object.write w x.call.obj_info.id r s).p_round ≡ max_processes)
          × ((q : ℕ) (y : Writer T)
              → p ≢ q
              → WriterInv round w q y
              → WriterInv round (Object.write w x.call.obj_info.id r s) q y))
        (sym now) (sym named)
        (
          attempt_sized w p x.call.obj_info.id round small size,
          λ q y other i. WriterInv-attempt w p x.call.obj_info.id round small size q y other i,
        )
  WriterInv-other round w p x t small size named now (won v' before at wid wins) =
      (size, λ q y other i. i)
  WriterInv-other round w p x t small size named now (rested v' a b) = (size, λ q y other i. i)
  WriterInv-other round w p x t small size named now (ended r v') = (size, λ q y other i. i)
