-- ===== src/Bench.antt =====
-- src/bin/rep_bench.rs: the objects that the processes of the benchmark share, and the writes of
-- its clients.
pub mod Found
pub mod Client
use Prim.Native.Nat.{ℕ, zero, suc}
use rep_cxl.Prelude.{if◌then◌else◌, Bool, Option, none, some, List, [], ◌∷◌}
use rep_cxl.Prelude.Run.{Run, ok, panic, ◌>>=◌}
use rep_cxl.RepCxl.{RepCxl, RepCxlObject, is_coordinator, init_state, new_object, get_object}

-- `expect` on an object that could not be made.
abbrev pub expect : Option RepCxlObject → Run RepCxlObject
expect none = panic
expect (some obj) = ok obj

abbrev pub with_first : RepCxlObject → Option (List RepCxlObject) → Option (List RepCxlObject)
with_first obj none = none
with_first obj (some objs) = some (obj ∷ objs)

module _ {ℓ} {F : Type 0} {T : Type ℓ} where
  -- The objects `i`, `i + 1`, ..., as many as are left.
  unfoldable pub create_objects : ℕ → ℕ → ℕ → RepCxl F T → Run (List RepCxlObject × RepCxl F T)
  unfolding new_object
  create_objects size i zero r = ok ([], r)
  create_objects size i (suc left) r = do
    (made, r1) ← new_object size i r
    obj ← expect made
    (objs, r2) ← create_objects size (suc i) left r1
    ok (obj ∷ objs, r2)

  -- The inner loop of a replica: it tries until the object is there, at most `fuel` times. Its call
  -- at time `t` finds the instance as `seen t` is. The result is the object and the next time.
  pub find_object : (ℕ → RepCxl F T) → ℕ → ℕ → ℕ → Run (Option (RepCxlObject × ℕ))
  unfolding get_object
  find_object seen i t zero = ok none
  find_object seen i t (suc fuel) =
      let later = find_object seen i (suc t) fuel in
      do
        found ← get_object i (seen t)
        elim found [ none ↦ later | some obj ↦ ok (some (obj, suc t)) ]

  -- The objects `i`, `i + 1`, ..., or none if the fuel of one does not suffice.
  pub find_objects : (ℕ → RepCxl F T) → ℕ → ℕ → ℕ → ℕ → Run (Option (List RepCxlObject))
  unfolding find_object
  find_objects seen fuel i t zero = ok (some [])
  find_objects seen fuel i t (suc left) = do
    found ← find_object seen i t fuel
    elim found [
      | none ↦ ok none
      | some (obj, t') ↦ (do
        objs ← find_objects seen fuel (suc i) t' left
        ok (with_first obj objs))
    ]

  -- Before the start: the coordinator sets the state up and creates the objects, a replica looks for
  -- them.
  unfoldable pub open_objects :
      ℕ → ℕ → ℕ → (ℕ → RepCxl F T) → RepCxl F T → Run (Option (List RepCxlObject) × RepCxl F T)
  unfolding is_coordinator create_objects find_objects
  open_objects size num_of_objects fuel seen r =
      if is_coordinator r
      then (do (objs, r') ← create_objects size 0 num_of_objects (init_state r); ok (some objs, r'))
      else (do objs ← find_objects seen fuel 0 0 num_of_objects; ok (objs, r))
