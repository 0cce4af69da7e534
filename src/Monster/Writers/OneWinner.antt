-- ===== src/Monster/Writers/OneWinner.antt =====
-- Of the writers that tried an object in one round, one at most replicates.
use rep_cxl.Prelude.{ℕ, ◌≤◌, ◌<◌, ◌≡◌, sym, ◌∙◌, length, arith}
use rep_cxl.Wcc.{max_processes}
use rep_cxl.Wcc.Object.{ObjectWcc}
use rep_cxl.Monster.{MonsterState}
use rep_cxl.Monster.Writers.{Board, Reachable, at_start, after}
use rep_cxl.Monster.Writers.Effect.{Checker}
use rep_cxl.Monster.Writers.Invariant.{Inv}
use rep_cxl.Monster.Writers.Preserved.{Inv-Step}

module _ {ℓ} {T : Type ℓ} where
  Inv-Reachable : {first b : Board T} → Inv first → Reachable first b → Inv b
  Inv-Reachable inv at_start = inv
  Inv-Reachable inv (after r s) = Inv-Step (Inv-Reachable inv r) s

  -- A board on which no writer has begun: the writers below the maximum are in their first state
  -- under their own numbers, and the master has a checker of full length.
  abbrev pub Fresh : Board T → Type ℓ
  Fresh b =
      ((w : ObjectWcc) × Checker b.nodes w × (length w.p_round ≡ max_processes))
      × ((p : ℕ)
          → p < max_processes
          → ((b.writers p).call.self_id ≡ p)
            × ((b.writers p).vars.state ≡ MonsterState.try)
            × ((b.writers p).last ≤ b.round))

  Inv-Fresh : (b : Board T) → Fresh b → Inv b
  Inv-Fresh b ((w, checks, size), idle) = record {
    checker = w;
    at_master = checks;
    sized = size;
    each = λ p small.
        let (named, start, behind) = idle p small in
        record {
          named = named;
          behind = behind;
          checking = λ e. absurd (let clash = sym start ∙ e in cc);
          replicating = λ e. absurd (let clash = sym start ∙ e in cc);
        };
  }

  -- From a board on which no writer has begun, in every order of the rounds of the processes: two
  -- writers that both replicate the same object with identifiers of the same round are the same
  -- process.
  pub one_winner :
      (first b : Board T) (p q : ℕ)
      → Fresh first
      → Reachable first b
      → p < max_processes
      → q < max_processes
      → (b.writers p).vars.state ≡ MonsterState.replicate
      → (b.writers q).vars.state ≡ MonsterState.replicate
      → (b.writers p).call.obj_info.id ≡ (b.writers q).call.obj_info.id
      → (b.writers p).vars.wid.round_num ≡ (b.writers q).vars.wid.round_num
      → p ≡ q
  one_winner first b p q fresh reach small_p small_q at_p at_q same_object same_round =
      let inv = Inv-Reachable (Inv-Fresh first fresh) reach in
      let (rec_p, top_p) = (inv.each p small_p).replicating at_p in
      let (rec_q, top_q) = (inv.each q small_q).replicating at_q in
      let below = top_p.largest q _ rec_q.entry (sym same_object) (sym same_round) in
      let above = top_q.largest p _ rec_p.entry same_object same_round in omega arith
