-- ===== src/Tests/Wcc.antt =====
-- The conflict checkers and the order of identifiers at concrete inputs.
use rep_cxl.Prelude.{◌≡◌, refl, ◌↔◌, Ordering, true, false, some, [], ◌∷◌, arith}
use rep_cxl.Prelude.Bits.{trailing_zeros}
use rep_cxl.Wcc.Object
use rep_cxl.Wcc.Object.{Entry, ObjectWcc, is_last}
use rep_cxl.Wcc.Object.Winner.{is_last-leader}
use rep_cxl.Wcc.Object.Leader.{leader}
use rep_cxl.Wcc.Bitmap
use rep_cxl.Wcc.Bitmap.{Bitmap, set_bit, smallest}
use rep_cxl.Wcc.Bitmap.Members.{new-IsValid, set_bit-IsValid}
use rep_cxl.Prelude.Run.{ok}
use rep_cxl.Wcc.Fast
use rep_cxl.Wcc.Fast.{FastWcc}
use rep_cxl.Wcc.Fast.Agree.{is_last-last}
use rep_cxl.Request.{Wid, eq, cmp}
use rep_cxl.Request.Order.{swap, cmp_total_order}

-- Processes 2 and 5 have tried object 9 in round 4.
abbrev contended : ObjectWcc
unfolding Object.write
contended = Object.write (Object.write Object.new 9 4 2) 9 4 5

is_last-leader_example :
    (is_last contended 9 5 4 5 ≡ true) ↔ (leader 9 5 0 contended.p_round ≡ some (5, 4))
unfolding Object.write
is_last-leader_example = is_last-leader contended 9 5 4 5 refl refl (omega arith)

loser : is_last contended 9 5 4 2 ≡ false
unfolding is_last Object.write
loser = refl

abbrev with_70 : Bitmap
unfolding set_bit
with_70 = set_bit Bitmap.new 70 true

-- Process 70 wants object 0, and process 6 writes to it.
abbrev fast : FastWcc
fast = record { obm = with_70 ∷ [] }

is_last-last_example :
    (f' : FastWcc) × (Fast.write fast 0 6 ≡ ok f')
    × ((Fast.is_last f' 0 6 ≡ ok true) ↔ (Fast.last f' 0 ≡ ok (some 6)))
unfolding with_70 set_bit
is_last-last_example =
    is_last-last fast with_70 0 6 refl (set_bit-IsValid Bitmap.new 70 true new-IsValid)
      (omega arith) (omega arith)

smallest_of_one : smallest with_70 ≡ some 70
unfolding smallest set_bit trailing_zeros
smallest_of_one = refl

abbrev early : Wid
early = record { round_num = 3; process_id = 1 }

abbrev late : Wid
late = record { round_num = 4; process_id = 2 }

cmp_total_order_example :
    ((eq early late ≡ true) ↔ (early ≡ late))
    × ((cmp early late ≡ Ordering.eq) ↔ (early ≡ late))
    × (cmp late early ≡ swap (cmp early late))
    × (cmp early late ≡ Ordering.lt → cmp late late ≡ Ordering.lt → cmp early late ≡ Ordering.lt)
cmp_total_order_example = cmp_total_order early late late Ordering.lt
