-- ===== src/Ycsb/Client/Loaded.antt =====
-- The objects that a replica of src/bin/ycsb_client.rs finds for its keys.
use Prim.Native.Nat.{ℕ, suc, ◌+◌, ◌^◌, ◌≤◌, ◌<◌}
use rep_cxl.Prelude.{
  if◌then◌else◌, ◌≡◌, refl, ◌∙◌, Bool, true, false, none, some, List, [], ◌∷◌, length, All, arith,
}
use rep_cxl.Prelude.Run.{ok}
use rep_cxl.Prelude.Words.{add64, add64_exact}
use rep_cxl.RepCxl.{RepCxl, RepCxlObject, get_object}
use rep_cxl.Ycsb.{insert, YcsbOp}
use rep_cxl.Ycsb.Client.{Objects, replica_load}

-- The keys of the operations with the objects of the numbers from `k` on.
abbrev pub indexed : (ℕ → RepCxlObject) → ℕ → List YcsbOp → Objects → Objects
indexed objs k [] index = index
indexed objs k (op ∷ ops) index = indexed objs (suc k) ops ((op.key, objs k) ∷ index)

abbrev pub Inserts : List YcsbOp → Type 0
Inserts = All (λ op. op.op_type ≡ insert)

module _ {F : Type 0} (seen : ℕ → RepCxl F (List ℕ)) (objs : ℕ → RepCxlObject) (count : ℕ)
    (small : count < 2 ^ 64) where
  replica_load_all :
      (n k : ℕ) (ops : List YcsbOp) (index : Objects)
      → ((m j : ℕ) → n ≤ m → j < count → get_object j (seen m) ≡ ok (some (objs j)))
      → Inserts ops
      → k + length ops ≤ count
      → replica_load seen n k ops index ≡ ok (indexed objs k ops index)
  unfolding replica_load
  replica_load_all n k [] index there all_insert room = refl
  replica_load_all n k (op ∷ ops) index there all_insert room =
      let next : add64 k 1 ≡ suc k = add64_exact k 1 (omega arith) ∙ omega arith in
      let rest =
        replica_load_all (suc n) (suc k) ops ((op.key, objs k) ∷ index)
          (λ m j le. there m j (omega arith)) all_insert.1 (omega arith) in
      let here = there n k (omega arith) (omega arith) in rw (all_insert.0, here, next) rest

module _ {F : Type 0} where
  -- The load phase of a replica for a row of insertions, fewer than 2 ^ 64, if from its second call of
  -- `get_object` on every object is there: the keys have the objects of their numbers if the first
  -- object was there at the first call as well, but if it was not, the first key has no object and
  -- each later key has the object of the key before it.
  pub replica_load-shifts :
      (seen : ℕ → RepCxl F (List ℕ)) (objs : ℕ → RepCxlObject) (op : YcsbOp) (ops : List YcsbOp)
      (at_first : Bool)
      → Inserts (op ∷ ops)
      → suc (length ops) < 2 ^ 64
      → get_object 0 (seen 0) ≡ ok (if at_first then some (objs 0) else none)
      → ((m j : ℕ) → 1 ≤ m → j < suc (length ops) → get_object j (seen m) ≡ ok (some (objs j)))
      → replica_load seen 0 0 (op ∷ ops) []
        ≡ ok (indexed objs 0 (if at_first then op ∷ ops else ops) [])
  unfolding replica_load
  replica_load-shifts seen objs op ops true all_insert small first there =
      let next : add64 0 1 ≡ 1 = add64_exact 0 1 (omega arith) in
      let rest =
        replica_load_all seen objs (suc (length ops)) small 1 1 ops ((op.key, objs 0) ∷ []) there
          all_insert.1 (omega arith) in
      rw (all_insert.0, first, next) rest
  replica_load-shifts seen objs op ops false all_insert small first there =
      let rest =
        replica_load_all seen objs (suc (length ops)) small 1 0 ops [] there all_insert.1
          (omega arith) in
      rw (all_insert.0, first) rest
