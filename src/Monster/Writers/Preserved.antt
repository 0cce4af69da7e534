-- ===== src/Monster/Writers/Preserved.antt =====
-- Every step of a board preserves the invariant of its writers.
use rep_cxl.Prelude.{ℕ, ◌==◌, ◌≡◌, ◌≢◌, refl, sym, false, List, ==_iff, length, ℕ_discrete, arith}
use mathlib.Core.Path.{subst}
use rep_cxl.Wcc.{max_processes}
use rep_cxl.Wcc.Object.{ObjectWcc}
use rep_cxl.Shmem.{MemoryNode}
use rep_cxl.Monster.{initial}
use rep_cxl.Monster.Writers.{Writer, Board, set_writer, Step, next_round, acts, ends}
use rep_cxl.Monster.Writers.Effect.{Checker, round_effect}
use rep_cxl.Monster.Writers.Invariant.{WriterInv, Inv, WriterInv-next_round, WriterInv-other}
use rep_cxl.Monster.Writers.Acts.{WriterInv-acts, initially-WriterInv}

module _ {ℓ} {T : Type ℓ} where
  -- The board after the writer `p` has become `y`.
  Inv-set :
      (b : Board T) (inv : Inv b) (p : ℕ) (y : Writer T) (ns : List (MemoryNode T)) (w' : ObjectWcc)
      → Checker ns w'
      → length w'.p_round ≡ max_processes
      → WriterInv b.round w' p y
      → ((q : ℕ) (z : Writer T)
          → p ≢ q
          → WriterInv b.round inv.checker q z
          → WriterInv b.round w' q z)
      → Inv (record { round = b.round; writers = set_writer p y b.writers; nodes = ns })
  Inv-set b inv p y ns w' checks size mine others = record {
    checker = w';
    at_master = checks;
    sized = size;
    each = λ q small. elim (ℕ_discrete q p) [
      | yes same ↦
          let here : WriterInv b.round w' p (set_writer p y b.writers p) =
            rw ((==_iff p p).1 refl) mine in
          subst (λ z. WriterInv b.round w' z (set_writer p y b.writers z)) (sym same) here
      | no other ↦
          let apart : (q == p) ≡ false = ground (arith, other) in
          rw apart (others q (b.writers q) (λ e. other (sym e)) (inv.each q small))
    ];
  }

  pub Inv-Step : {b b' : Board T} → Inv b → Step b b' → Inv b'
  Inv-Step {b} inv next_round = record {
    checker = inv.checker;
    at_master = inv.at_master;
    sized = inv.sized;
    each = λ p small. WriterInv-next_round b.round inv.checker p (b.writers p) (inv.each p small);
  }
  Inv-Step {b} inv (acts p t v ns small now fresh ran) =
      let x = b.writers p in
      let i = inv.each p small in
      let (w', effect, checks) =
        round_effect x.call t x.vars inv.checker b.nodes inv.at_master ran in
      let (size, others) =
        WriterInv-other b.round inv.checker p x t small inv.sized i.named now effect in
      Inv-set b inv p (record x { vars = v; last = b.round }) ns w' checks size
        (WriterInv-acts b.round inv.checker p x t small inv.sized i now fresh v w' effect) others
  Inv-Step {b} inv (ends p t r v ns next stats logging small now fresh ran named) =
      let x = b.writers p in
      let i = inv.each p small in
      let (w', effect, checks) =
        round_effect x.call t x.vars inv.checker b.nodes inv.at_master ran in
      let (size, others) =
        WriterInv-other b.round inv.checker p x t small inv.sized i.named now effect in
      Inv-set b inv p (record { call = next; vars = initial stats logging; last = b.round }) ns w'
        checks size (initially-WriterInv b.round w' p next (initial stats logging) named refl)
        others
