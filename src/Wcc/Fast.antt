-- ===== src/Wcc/Fast.antt =====
-- `FastWCC` of src/shmem/wcc.rs: one bitmap of candidate writers for each object.
pub mod Agree
use rep_cxl.Prelude.{
  ℕ, ltb, Bool, true, false, ◌&&◌, Option, none, some, List, set, get_elem?, replicate,
}
use rep_cxl.Prelude.Run.{Run, ok, panic, assert, ◌>>=◌, ◌>>◌}
use rep_cxl.ObjectIndex.{max_objects}
use rep_cxl.Wcc.{max_processes}
use rep_cxl.Wcc.Bitmap
use rep_cxl.Wcc.Bitmap.{Bitmap, set_bit, is_smallest, smallest}

pub record FastWcc : Type 0 where
  pub obm : List Bitmap

abbrev pub new : FastWcc
new = record { obm = replicate max_objects Bitmap.new }

-- `self.obm[oid]`
abbrev pub bitmap_at : FastWcc → ℕ → Run Bitmap
bitmap_at f oid = elim (get_elem? f.obm oid) [ none ↦ panic | some b ↦ ok b ]

unfoldable pub write : FastWcc → ℕ → ℕ → Run FastWcc
unfolding set_bit
write f oid pid = do
  assert (ltb oid max_objects && ltb pid max_processes)
  b ← bitmap_at f oid
  ok (record f { obm = set f.obm oid (set_bit b pid true) })

unfoldable pub replace : FastWcc → ℕ → ℕ → ℕ → Run FastWcc
unfolding set_bit
replace f oid pid_set pid_unset = do
  assert (ltb oid max_objects && (ltb pid_set max_processes && ltb pid_unset max_processes))
  b ← bitmap_at f oid
  ok (record f { obm = set f.obm oid (set_bit (set_bit b pid_unset false) pid_set true) })

unfoldable pub clear : FastWcc → ℕ → ℕ → Run FastWcc
unfolding set_bit
clear f oid pid = do
  assert (ltb oid max_objects && ltb pid max_processes)
  b ← bitmap_at f oid
  ok (record f { obm = set f.obm oid (set_bit b pid false) })

unfoldable pub is_last : FastWcc → ℕ → ℕ → Run Bool
unfolding is_smallest
is_last f oid pid = do
  assert (ltb oid max_objects && ltb pid max_processes)
  b ← bitmap_at f oid
  ok (is_smallest b pid)

unfoldable pub last : FastWcc → ℕ → Run (Option ℕ)
unfolding smallest
last f oid = do assert (ltb oid max_objects); b ← bitmap_at f oid; ok (smallest b)
