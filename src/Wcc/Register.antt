-- ===== src/Wcc/Register.antt =====
-- `WCC` and `WCCMultiObject` of src/shmem/wcc.rs: one register of rounds for each object.
use rep_cxl.Prelude.{
  ℕ, suc, ◌+◌, ltb, leb, ◌==◌, if◌then◌else◌, Bool, true, false, ◌&&◌, Option, none, some, List, [],
  ◌∷◌, set, get_elem?, replicate,
}
use rep_cxl.Prelude.Run.{Run, ok, panic, assert, ◌>>◌}
use rep_cxl.ObjectIndex.{max_objects}
use rep_cxl.Wcc.{max_processes}

pub record Register : Type 0 where
  pub p_round : List ℕ

abbrev pub new : Register
new = record { p_round = replicate max_processes 0 }

unfoldable pub write : Register → ℕ → ℕ → Register
write r round pid =
    if leb max_processes pid then r else record r { p_round = set r.p_round pid round }

-- The loop over the processes from `i` on; it returns false at the first that wins over `pid`.
unfoldable pub no_winner : ℕ → ℕ → ℕ → ℕ → List ℕ → Bool
no_winner current round pid i [] = true
no_winner current round pid i (r ∷ rest) =
    let later = no_winner current round pid (suc i) rest in
    if ltb r current && ltb round r then false else if r == round && ltb i pid then false else later

abbrev pub index_eq : List ℕ → ℕ → ℕ → Run Bool
index_eq rounds pid round = elim (get_elem? rounds pid) [ none ↦ panic | some r ↦ ok (r == round) ]

-- The last expression indexes the array, which panics at 512.
unfoldable pub is_last : Register → ℕ → ℕ → ℕ → Run Bool
unfolding no_winner
is_last r current round pid =
    if ltb max_processes pid
    then ok false
    else if no_winner current round pid 0 r.p_round
    then index_eq r.p_round pid round
    else ok false

pub record MultiObject : Type 0 where
  pub index_oids : List ℕ
  pub objects : List Register
  pub objects_count : ℕ

abbrev pub new_multi : MultiObject
new_multi = record {
  index_oids = replicate max_objects 0;
  objects = replicate max_objects new;
  objects_count = 0;
}

-- The array access panics once every slot is taken.
unfoldable pub add_object : MultiObject → ℕ → Run MultiObject
add_object m oid = do
  assert (ltb m.objects_count max_objects)
  ok (record m {
    index_oids = set m.index_oids m.objects_count oid;
    objects_count = m.objects_count + 1;
  })

unfoldable pub position : ℕ → ℕ → List ℕ → Option ℕ
position oid i [] = none
position oid i (o ∷ rest) = if o == oid then some i else position oid (suc i) rest

-- `get_object_wcc`: the index of the register that is returned.
unfoldable pub get_object_wcc : MultiObject → ℕ → Option ℕ
unfolding position
get_object_wcc m oid = position oid 0 m.index_oids

unfoldable pub clear : MultiObject → MultiObject
clear m = record m { objects = replicate max_objects new }
