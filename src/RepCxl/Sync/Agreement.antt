-- ===== src/RepCxl/Sync/Agreement.antt =====
-- What the processes agree on when they leave `sync_start`.
use rep_cxl.Prelude.{
  ℕ, ◌≡◌, ◌≢◌, sym, ap, ◌∙◌, ◌⊎◌, inl, inr, true, Option, none, some, List, set, get_elem?,
  get_elem?-set_ne, arith,
}
use mathlib.Core.Path.{subst}
use mathlib.Core.Bool.{false≢true}
use rep_cxl.Wcc.{max_processes}
use mathlib.Core.Option.{some-injective}
use rep_cxl.Prelude.Run.{ok}
use rep_cxl.Config.{pos, as_usize, as_u32}
use rep_cxl.Config.Checks.{Member}
use rep_cxl.Group.{minimum, get_coordinator}
use rep_cxl.Shmem.StartingBlock.{all_ready, start_at}
use rep_cxl.RepCxl.{RepCxl, is_coordinator, is_some_of}
use rep_cxl.RepCxl.Sync.{
  Progress, World, set_progress, Step, enters, leaves, sleeps, initial_world, Reachable, at_start,
  after,
}
use rep_cxl.RepCxl.Sync.Passes.{all_ready-Member, replicate-eq, leaves-cases, sleeps-keeps, entered}

module _ {ℓ} {F : Type 0} {T : Type ℓ} (inst : ℕ → RepCxl F T) (procs : List ℕ) where
  -- The instances have the same processes, and each its own identifier.
  abbrev pub SameView : Type 0
  SameView = (p : ℕ) → ((inst p).view.processes ≡ procs) × ((inst p).config.id ≡ pos p)

  record Inv (w : World) : Type 0 where
    same : (p t : ℕ) → w.progress p ≡ Progress.started t → w.block.start_time ≡ some t
    ready :
        (p : ℕ) → get_elem? w.block.ready_processes p ≡ some true → w.progress p ≢ Progress.outside
    all_in :
        (t : ℕ)
        → w.block.start_time ≡ some t
        → (p : ℕ) → Member p procs
        → w.progress p ≢ Progress.outside
    coordinator :
        (t m : ℕ)
        → w.block.start_time ≡ some t
        → minimum procs ≡ some m
        → w.progress m ≡ Progress.started t

  -- A process that has moved to `x` differs from the others.
  moved :
      (p : ℕ) (x : Progress) (f : ℕ → Progress) (q : ℕ)
      → ((q ≡ p) × (set_progress p x f q ≡ x)) ⊎ ((q ≢ p) × (set_progress p x f q ≡ f q))
  moved p x f q = ground arith

  coordinator_is : SameView → (p : ℕ) → is_coordinator (inst p) ≡ true → minimum procs ≡ some p
  unfolding is_coordinator get_coordinator
  coordinator_is view p h =
      let c = view p in
      coord (minimum procs) (
        subst (λ ps. is_some_of (minimum ps) p ≡ true) c.0
          (subst (λ i. is_some_of (minimum (inst p).view.processes) i ≡ true) (ap as_u32 c.1) h))
    where
      coord : (o : Option ℕ) → is_some_of o p ≡ true → o ≡ some p
      coord none q = cc
      coord (some m) q = ground arith

  -- A process that has moved into `sync_start` leaves no other outside.
  inside :
      (p : ℕ) (x : Progress) (f : ℕ → Progress) (q : ℕ)
      → x ≢ Progress.outside
      → f q ≢ Progress.outside
      → set_progress p x f q ≢ Progress.outside
  inside p x f q in_p in_q o = elim (moved p x f q) [
    | inl (same, e) ↦ in_p (sym e ∙ o)
    | inr (other, e) ↦ in_q (sym e ∙ o)
  ]

  initially : Inv initial_world
  initially = record {
    same = λ p t h. absurd (cc);
    ready = λ p h. absurd (false≢true (sym (replicate-eq max_processes p h)));
    all_in = λ t h. absurd (cc);
    coordinator = λ t m h. absurd (cc);
  }

  module _ (view : SameView) (w : World) (p : ℕ) (inv : Inv w) where
    Inv-enters :
        w.progress p ≡ Progress.outside
        → Inv (record {
          block = record w.block { ready_processes = set w.block.ready_processes p true };
          progress = set_progress p Progress.waiting w.progress;
        })
    Inv-enters out = record {
      same = λ q t h. elim (moved p Progress.waiting w.progress q) [
        | inl (same, e) ↦ absurd (cc)
        | inr (other, e) ↦ inv.same q t (sym e ∙ h)
      ];
      ready = λ q h. elim (moved p Progress.waiting w.progress q) [
        | inl (same, e) ↦ λ o. cc
        | inr (other, e) ↦ λ o.
            inv.ready q
              (sym (get_elem?-set_ne w.block.ready_processes true (λ s. other (sym s))) ∙ h)
              (sym e ∙ o)
      ];
      all_in = λ t h q m. inside p Progress.waiting w.progress q (λ o. cc) (inv.all_in t h q m);
      coordinator = λ t m h c. elim (moved p Progress.waiting w.progress m) [
        | inl (same, e) ↦ absurd (let at = inv.coordinator t m h c in cc)
        | inr (other, e) ↦ e ∙ inv.coordinator t m h c
      ];
    }

    Inv-starts :
        (time : ℕ)
        → w.progress p ≡ Progress.waiting
        → is_coordinator (inst p) ≡ true
        → all_ready (inst p).view.processes w.block ≡ ok true
        → Inv (record {
          block = record w.block { start_time = some time };
          progress = set_progress p (Progress.started time) w.progress;
        })
    Inv-starts time here coord all_there =
        let first = coordinator_is view p coord in
        record {
          same = λ q t h. elim (moved p (Progress.started time) w.progress q) [
            | inl (same, e) ↦ cc
            | inr (other, e) ↦
                absurd (let at = inv.coordinator t p (inv.same q t (sym e ∙ h)) first in cc)
          ];
          ready = λ q h. inside p (Progress.started time) w.progress q (λ o. cc) (inv.ready q h);
          all_in = λ t h q m.
              inside p (Progress.started time) w.progress q (λ o. cc)
                (inv.ready q (
                  all_ready-Member (inst p).view.processes w.block all_there q
                    (subst (Member q) (sym (view p).0) m)));
          coordinator = λ t m h c.
              let same : p ≡ m = some-injective _ _ (sym first ∙ c) in
              elim (moved p (Progress.started time) w.progress m) [
                | inl (same', e) ↦ cc
                | inr (other, e) ↦ absurd (other (sym same))
              ];
        }

    Inv-follows :
        (time : ℕ)
        → w.progress p ≡ Progress.waiting
        → w.block.start_time ≡ some time
        → Inv (record {
          block = w.block;
          progress = set_progress p (Progress.started time) w.progress;
        })
    Inv-follows time here seen = record {
      same = λ q t h. elim (moved p (Progress.started time) w.progress q) [
        | inl (same, e) ↦ cc
        | inr (other, e) ↦ inv.same q t (sym e ∙ h)
      ];
      ready = λ q h. inside p (Progress.started time) w.progress q (λ o. cc) (inv.ready q h);
      all_in =
          λ t h q m. inside p (Progress.started time) w.progress q (λ o. cc) (inv.all_in t h q m);
      coordinator = λ t m h c. elim (moved p (Progress.started time) w.progress m) [
        | inl (same, e) ↦ cc
        | inr (other, e) ↦ e ∙ inv.coordinator t m h c
      ];
    }

  Inv-Step : SameView → {w w' : World} → Inv w → Step inst w w' → Inv w'
  Inv-Step view {w} inv (enters p b out h) =
      subst (λ b. Inv (record { block = b; progress = set_progress p Progress.waiting w.progress }))
        (sym (
          entered (inst p) 0 w.block b h
          ∙ ap
              (λ i. record w.block {
                ready_processes = set w.block.ready_processes (as_usize i) true;
              })
              (view p).1))
        (Inv-enters view w p inv out)
  Inv-Step view {w} inv (leaves p now time b here h) =
      elim (leaves-cases (inst p) now w.block b time h) [
        | inl (coord, all_there, e) ↦
            subst
              (λ b. Inv (record {
                block = b;
                progress = set_progress p (Progress.started time) w.progress;
              }))
              (sym e) (unfold start_at in Inv-starts view w p inv time here coord all_there)
        | inr (seen, e) ↦
            subst
              (λ b. Inv (record {
                block = b;
                progress = set_progress p (Progress.started time) w.progress;
              }))
              (sym e) (Inv-follows view w p inv time here seen)
      ]
  Inv-Step view {w} inv (sleeps p now b here h) =
      subst (λ b. Inv (record { block = b; progress = w.progress }))
        (sym (sleeps-keeps (inst p) now w.block b h)) inv

  Inv-Reachable : SameView → {w : World} → Reachable inst w → Inv w
  Inv-Reachable view at_start = initially
  Inv-Reachable view (after r s) = Inv-Step view (Inv-Reachable view r) s

-- If all instances have the same processes and each its own identifier, then at every time after a
-- new block was set up, in every order of the steps, two processes that have left the loop of
-- `sync_start` took the same start time, and every process of the group has by then entered it.
pub sync_start_agrees {ℓ} :
    {F : Type 0} {T : Type ℓ} (inst : ℕ → RepCxl F T) (procs : List ℕ)
    → SameView inst procs
    → (w : World) → Reachable inst w
    → (p q t u : ℕ) → w.progress p ≡ Progress.started t
    → w.progress q ≡ Progress.started u
    → (t ≡ u) × ((m : ℕ) → Member m procs → w.progress m ≢ Progress.outside)
sync_start_agrees inst procs view w reach p q t u left_p left_q =
    let inv = Inv-Reachable inst procs view reach in
    let time = inv.same p t left_p in
    (some-injective _ _ (sym time ∙ inv.same q u left_q), inv.all_in t time)
