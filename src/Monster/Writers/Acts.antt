-- ===== src/Monster/Writers/Acts.antt =====
-- The invariant of the writer that took a round.
use rep_cxl.Prelude.{ℕ, ◌<◌, ◌≡◌, sym, ap, ◌∙◌, inr, true, some, dec_lt, length, arith}
use mathlib.Core.Path.{subst₂}
use rep_cxl.Wcc.{max_processes}
use rep_cxl.Wcc.Object
use rep_cxl.Wcc.Object.{Entry, ObjectWcc}
use rep_cxl.Wcc.Object.Unbeaten.{is_last-Unbeaten}
use rep_cxl.Monster.{MonsterState, Tick, Vars, Call, goes_on}
use rep_cxl.Monster.Writers.{Writer}
use rep_cxl.Monster.Writers.Effect.{Effect, tried, won, rested}
use rep_cxl.Monster.Writers.Attempt.{attempt_own}
use rep_cxl.Monster.Writers.Invariant.{Recorded, Top, WriterInv}

module _ {ℓ} {T : Type ℓ} where
  -- The writer that acted, after each effect.
  module _ (round : ℕ) (w : ObjectWcc) (p : ℕ) (x : Writer T) (t : Tick) (small : p < max_processes)
      (size : length w.p_round ≡ max_processes) (i : WriterInv round w p x)
      (now : t.round_num ≡ round) (fresh : x.last < round) where
    abbrev moved : Vars → Writer T
    moved v = record x { vars = v; last = round }

    tried-Recorded :
        (v : Vars)
        → v.wid ≡ record { round_num = t.round_num; process_id = x.call.self_id }
        → Recorded (Object.write w x.call.obj_info.id round p) p (moved v)
    tried-Recorded v wid =
        let at : v.wid.round_num ≡ round = ap (λ u. u.round_num) wid ∙ now in
        record {
          entry =
              attempt_own w p x.call.obj_info.id round small size
              ∙ ap (λ r. some (record { oid = x.call.obj_info.id; round = r })) (sym at);
          own = ap (λ u. u.process_id) wid ∙ i.named;
          past = omega (arith, at);
        }

    won-Recorded : (v : Vars) → Recorded w p x → v.wid ≡ x.vars.wid → Recorded w p (moved v)
    won-Recorded v rec wid =
        let at : v.wid.round_num ≡ x.vars.wid.round_num = ap (λ u. u.round_num) wid in
        record {
          entry =
              rec.entry ∙ ap (λ r. some (record { oid = x.call.obj_info.id; round = r })) (sym at);
          own = ap (λ u. u.process_id) wid ∙ rec.own;
          past = omega (arith, at, rec.past);
        }

    won-Top :
        (v : Vars)
        → Recorded w p x
        → v.wid ≡ x.vars.wid
        → Object.is_last w x.call.obj_info.id t.round_num x.vars.wid.round_num x.vars.wid.process_id
          ≡ true
        → Top round w p (moved v)
    won-Top v rec wid wins =
        let at : v.wid.round_num ≡ x.vars.wid.round_num = ap (λ u. u.round_num) wid in
        let unbeaten =
          is_last-Unbeaten w x.call.obj_info.id t.round_num x.vars.wid.round_num
            x.vars.wid.process_id wins in
        record {
          over = omega (arith, at, rec.past);
          largest = λ k e here own same. elim (dec_lt p k) [
            | no low ↦ omega arith
            | yes high ↦ absurd (unbeaten k e here (own, inr (same ∙ at, omega (arith, rec.own))))
          ];
        }

    pub WriterInv-acts :
        (v : Vars) (w' : ObjectWcc)
        → Effect x.call t x.vars w (goes_on v) w'
        → WriterInv round w' p (moved v)
    WriterInv-acts v w' (tried v' at wid) =
        subst₂ (λ r s. WriterInv round (Object.write w x.call.obj_info.id r s) p (moved v))
          (sym now) (sym i.named)
          (record {
            named = i.named;
            behind = omega arith;
            checking = λ e. tried-Recorded v wid;
            replicating = λ e. absurd (let clash = sym at ∙ e in cc);
          })
    WriterInv-acts v w' (won v' before at wid wins) =
        let rec = i.checking before in
        record {
          named = i.named;
          behind = omega arith;
          checking = λ e. absurd (let clash = sym at ∙ e in cc);
          replicating = λ e. (won-Recorded v rec wid, won-Top v rec wid wins);
        }
    WriterInv-acts v w' (rested v' not_check not_replicate) = record {
      named = i.named;
      behind = omega arith;
      checking = λ e. absurd (not_check e);
      replicating = λ e. absurd (not_replicate e);
    }

  pub initially-WriterInv :
      (round : ℕ) (w : ObjectWcc) (p : ℕ) (c : Call T) (v : Vars)
      → c.self_id ≡ p
      → v.state ≡ MonsterState.try
      → WriterInv round w p (record { call = c; vars = v; last = round })
  initially-WriterInv round w p c v named start = record {
    named = named;
    behind = omega arith;
    checking = λ e. absurd (let clash = sym start ∙ e in cc);
    replicating = λ e. absurd (let clash = sym start ∙ e in cc);
  }
