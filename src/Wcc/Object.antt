-- ===== src/Wcc/Object.antt =====
-- `ObjectWCC` of src/shmem/wcc.rs: the last write attempt of each process, with its object.
pub mod Unbeaten
pub mod Leader
pub mod Winner
use rep_cxl.Prelude.{
  ℕ, suc, ltb, leb, ◌==◌, if◌then◌else◌, Bool, true, false, not, ◌&&◌, List, [], ◌∷◌, set,
  replicate,
}
use rep_cxl.Wcc.{max_processes}

pub record Entry : Type 0 where
  pub oid : ℕ
  pub round : ℕ

pub record ObjectWcc : Type 0 where
  pub p_round : List Entry

abbrev pub new : ObjectWcc
new = record { p_round = replicate max_processes (record { oid = 0; round = 0 }) }

unfoldable pub write : ObjectWcc → ℕ → ℕ → ℕ → ObjectWcc
write w oid round pid =
    if leb max_processes pid
    then w
    else record w { p_round = set w.p_round pid (record { oid = oid; round = round }) }

-- Whether the entry of process `i` denies `pid` the object: a later round that is over, or the same
-- round and a larger process.
abbrev pub beats : ℕ → ℕ → ℕ → ℕ → ℕ → Entry → Bool
beats oid current round pid i e =
    if not (e.oid == oid)
    then false
    else if ltb e.round current && ltb round e.round
    then true
    else e.round == round && ltb pid i

-- The loop over the processes from `i` on.
unfoldable pub no_winner : ℕ → ℕ → ℕ → ℕ → ℕ → List Entry → Bool
no_winner oid current round pid i [] = true
no_winner oid current round pid i (e ∷ rest) =
    if beats oid current round pid i e then false else no_winner oid current round pid (suc i) rest

unfoldable pub is_last : ObjectWcc → ℕ → ℕ → ℕ → ℕ → Bool
unfolding no_winner
is_last w oid current round pid =
    if ltb max_processes pid then false else no_winner oid current round pid 0 w.p_round
