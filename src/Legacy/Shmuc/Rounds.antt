-- ===== src/Legacy/Shmuc/Rounds.antt =====
-- The kinds of the rounds of src/algorithms/shmuc.rs when no round is missed.
use Prim.Native.Nat.{ℕ, zero, suc, ◌%◌, ◌<◌}
use rep_cxl.Prelude.{◌==◌, if◌then◌else◌, ◌≡◌, refl, arith}
use rep_cxl.Legacy.Shmuc.{
  ShmucRound, init, write, read, view_change1, view_change2, view_change3, view_change4, next,
}

-- The state after the rounds from 0 to `n`.
unfoldable pub state_at : ℕ → ShmucRound
unfolding next
state_at zero = next init 0
state_at (suc n) = next (state_at n) (suc n)

-- Four rounds of view change, then writes and reads in turn.
abbrev pub scheduled : ℕ → ShmucRound
scheduled k =
    if k == 0
    then view_change1
    else if k == 1
    then view_change2
    else if k == 2
    then view_change3
    else if k == 3
    then view_change4
    else if k % 2 == 0
    then write
    else read

turns : (k m : ℕ) → k < 10 → m % 10 ≡ suc k % 10 → next (scheduled k) m ≡ scheduled (m % 10)
unfolding next
turns zero m h e = rw e refl
turns (suc zero) m h e = rw e refl
turns (suc (suc zero)) m h e = rw e refl
turns (suc (suc (suc zero))) m h e = rw e refl
turns (suc (suc (suc (suc zero)))) m h e = rw e refl
turns (suc (suc (suc (suc (suc zero))))) m h e = rw e refl
turns (suc (suc (suc (suc (suc (suc zero)))))) m h e = rw e refl
turns (suc (suc (suc (suc (suc (suc (suc zero))))))) m h e = rw e refl
turns (suc (suc (suc (suc (suc (suc (suc (suc zero)))))))) m h e = rw e refl
turns (suc (suc (suc (suc (suc (suc (suc (suc (suc zero))))))))) m h e = rw e refl
turns (suc (suc (suc (suc (suc (suc (suc (suc (suc (suc k)))))))))) m h e = absurd (omega arith)

-- When no round is missed, the kind of a round is fixed by its number modulo ten: four rounds of view
-- change, and then a write before each read.
pub state_at_periodic : (n : ℕ) → state_at n ≡ scheduled (n % 10)
unfolding state_at next
state_at_periodic zero = refl
state_at_periodic (suc n) =
    rw (state_at_periodic n) (turns (n % 10) (suc n) (omega arith) (omega arith))
