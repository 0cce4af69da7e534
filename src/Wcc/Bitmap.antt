-- ===== src/Wcc/Bitmap.antt =====
-- `ProcessBitmapUncached` of src/shmem/wcc.rs: the processes that want an object, as bits of words.
pub mod Members
pub mod Smallest
use Prim.Native.Nat.{bit_and, bit_or}
use rep_cxl.Prelude.{
  ℕ, zero, suc, ◌+◌, ◌-◌, ◌*◌, ◌/◌, ◌%◌, ◌^◌, ◌==◌, if◌then◌else◌, Bool, true, false, Option, none,
  some, List, [], ◌∷◌, set, get_elem?, replicate,
}
use rep_cxl.Prelude.Bits.{trailing_zeros}
use rep_cxl.Wcc.{max_processes}

pub record Bitmap : Type 0 where
  pub words : List ℕ
  pub size : ℕ

-- MAX_PROCESSES.div_ceil(64)
abbrev pub word_count : ℕ
word_count = (max_processes + 63) / 64

abbrev pub new : Bitmap
new = record { words = replicate word_count 0; size = word_count * 8 }

-- The word at an index that is in range.
abbrev pub word_at : List ℕ → ℕ → ℕ
word_at [] i = 0
word_at (w ∷ ws) zero = w
word_at (w ∷ ws) (suc i) = word_at ws i

unfoldable pub set_bit : Bitmap → ℕ → Bool → Bitmap
set_bit b pid val =
    let byte_index = pid / 64 in
    let bit_index = pid % 64 in
    let old = word_at b.words byte_index in
    let word =
      if val then bit_or old (2 ^ bit_index) else bit_and old (2 ^ 64 - 1 - 2 ^ bit_index) in
    record b { words = set b.words byte_index word }

-- The loop over the words below `count`.
abbrev pub all_zero : ℕ → List ℕ → Bool
all_zero zero ws = true
all_zero (suc n) [] = true
all_zero (suc n) (w ∷ ws) = if w == 0 then all_zero n ws else false

unfoldable pub is_smallest : Bitmap → ℕ → Bool
is_smallest b pid =
    let byte_index = pid / 64 in
    let bit_index = pid % 64 in
    if all_zero byte_index b.words
    then bit_and (word_at b.words byte_index) (2 ^ bit_index - 1) == 0
    else false

unfoldable pub smallest_from : ℕ → List ℕ → Option ℕ
smallest_from index [] = none
smallest_from index (w ∷ ws) =
    if w == 0 then smallest_from (suc index) ws else some (index * 64 + trailing_zeros 64 w)

unfoldable pub smallest : Bitmap → Option ℕ
unfolding smallest_from
smallest b = smallest_from 0 b.words
