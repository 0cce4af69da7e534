-- ===== src/Monster/Writers/Attempt.antt =====
-- What `ObjectWcc` records when a process tries an object.
use rep_cxl.Prelude.{
  ℕ, ◌<◌, ◌≡◌, ◌≢◌, refl, ◌∙◌, some, length, set, get_elem?, length-set, get_elem?-set_self,
  get_elem?-set_ne, lt→leb, arith,
}
use rep_cxl.Wcc.{max_processes}
use rep_cxl.Wcc.Object
use rep_cxl.Wcc.Object.{Entry, ObjectWcc}

-- The attempt of process `p` on `oid` in `round`.
module _ (w : ObjectWcc) (p oid round : ℕ) (small : p < max_processes)
    (size : length w.p_round ≡ max_processes) where
  attempt-set :
      (Object.write w oid round p).p_round ≡ set w.p_round p (record { oid = oid; round = round })
  unfolding Object.write
  attempt-set = rw (lt→leb max_processes p small) refl

  pub attempt_own :
      get_elem? (Object.write w oid round p).p_round p ≡ some (record { oid = oid; round = round })
  attempt_own =
      rw attempt-set
        (get_elem?-set_self w.p_round p (record { oid = oid; round = round }) (omega (arith, size)))

  pub attempt_other :
      (q : ℕ) → p ≢ q → get_elem? (Object.write w oid round p).p_round q ≡ get_elem? w.p_round q
  attempt_other q other =
      rw attempt-set (get_elem?-set_ne w.p_round (record { oid = oid; round = round }) other)

  pub attempt_sized : length (Object.write w oid round p).p_round ≡ max_processes
  attempt_sized = rw attempt-set (length-set w.p_round p _ ∙ size)
