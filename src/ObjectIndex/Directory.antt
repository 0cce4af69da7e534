-- ===== src/ObjectIndex/Directory.antt =====
-- What src/shmem/object_index.rs promises, without slots: a directory of objects that never overlap.
use rep_cxl.Prelude.{
  ℕ, ◌+◌, ◌^◌, ◌≤◌, ◌<◌, ◌==◌, ==_iff, if◌then◌else◌, ◌≡◌, refl, sym, ap, ◌∙◌, false, Option, none,
  some, List, [], ◌∷◌, All, ℕ_discrete, arith,
}
use mathlib.Core.Path.{subst, subst₂}
use rep_cxl.Prelude.Run.{Run, ok, ◌>>=◌, >>=-eq-ok}
use rep_cxl.ObjectIndex.{ObjectInfo, ObjectIndex, lookup_object, alloc_object, dealloc_object}
use rep_cxl.ObjectIndex.Valid.{IsValid, Apart, lookup_within, objects-Apart}
use rep_cxl.ObjectIndex.Filled.{placed}
use rep_cxl.ObjectIndex.Alloc.{Rounded, alloc_object-none, alloc_object_lem, alloc_object-Placement}
use rep_cxl.ObjectIndex.Dealloc.{dealloc_object_lem}

-- An identifier and its object, if it has one.
abbrev pub Directory : Type 0
Directory = ℕ → Option ObjectInfo

pub data Action : Type 0 where
  alloc : ℕ → ℕ → Action
  dealloc : ℕ → Action

-- What an action may answer and leave, for a total size and a chunk size.
pub data Allowed (total chunk : ℕ) (d : Directory) : Action → Option ℕ → Directory → Type 0 where
  refused :
      {id size : ℕ} {d' : Directory}
      → ((j : ℕ) → d' j ≡ d j)
      → Allowed total chunk d (alloc id size) none d'
  allocated :
      {id size s r : ℕ} {d' : Directory}
      → d id ≡ none
      → Rounded size chunk r
      → s + r ≤ total
      → ((j : ℕ) (e : ObjectInfo) → d j ≡ some e → Apart (placed id s r) e)
      → ((j : ℕ) → d' j ≡ (if id == j then some (placed id s r) else d j))
      → Allowed total chunk d (alloc id size) (some s) d'
  freed :
      {id : ℕ} {d' : Directory}
      → ((j : ℕ) → d' j ≡ (if id == j then none else d j))
      → Allowed total chunk d (dealloc id) none d'

-- The answers to a row of actions, and the directory after them.
pub data Trace (total chunk : ℕ)
    : Directory → List Action → List (Option ℕ) → Directory → Type 0 where
  stop : {d d' : Directory} → ((j : ℕ) → d' j ≡ d j) → Trace total chunk d [] [] d'
  next :
      {a : Action} {answer : Option ℕ} {d d' d'' : Directory} {actions : List Action}
      {answers : List (Option ℕ)}
      → Allowed total chunk d a answer d'
      → Trace total chunk d' actions answers d''
      → Trace total chunk d (a ∷ actions) (answer ∷ answers) d''

-- The allocator, action by action. Deallocation answers nothing.
unfoldable pub perform : Action → ObjectIndex → Run (Option ℕ × ObjectIndex)
perform (alloc id size) ix = alloc_object ix id size
perform (dealloc id) ix = ok (none, dealloc_object ix id)

unfoldable pub run : List Action → ObjectIndex → Run (List (Option ℕ) × ObjectIndex)
unfolding perform
run [] ix = ok ([], ix)
run (a ∷ actions) ix = do
  (answer, ix') ← perform a ix
  (answers, ix'') ← run actions ix'
  ok (answer ∷ answers, ix'')

-- The sizes with which no sum wraps.
abbrev pub Small : Action → Type 0
Small (alloc id size) = size < 2 ^ 62
Small (dealloc id) = Unit

-- The sizes of an index are those of its directory.
abbrev pub SameSizes : ObjectIndex → ObjectIndex → Type 0
SameSizes ix ix' = (ix'.total_size ≡ ix.total_size) × (ix'.chunk_size ≡ ix.chunk_size)

abbrev Refines : ObjectIndex → Action → Option ℕ → ObjectIndex → Type 0
Refines ix a answer ix' =
    IsValid ix'
    × SameSizes ix ix'
    × Allowed ix.total_size ix.chunk_size (lookup_object ix) a answer (lookup_object ix')

refused-Refines :
    (ix ix' : ObjectIndex) (id size : ℕ)
    → IsValid ix
    → alloc_object ix id size ≡ ok (none, ix')
    → Refines ix (alloc id size) none ix'
refused-Refines ix ix' id size v h =
    subst (λ i. Refines ix (alloc id size) none i) (sym (alloc_object-none ix id size h))
      (v, (refl, refl), refused (λ j. refl))

module _ (ix ix' : ObjectIndex) (id size s : ℕ) (v : IsValid ix) (small : size < 2 ^ 62)
    (chunk : ix.chunk_size < 2 ^ 62) (h : alloc_object ix id size ≡ ok (some s, ix')) where
  allocated_sizes : SameSizes ix ix'
  allocated_sizes =
      let p = alloc_object-Placement ix id size h in
      (
        ap (λ (i : ObjectIndex). i.total_size) p.result,
        ap (λ (i : ObjectIndex). i.chunk_size) p.result,
      )

  allocated_fresh : lookup_object ix id ≡ none
  unfolding lookup_object
  allocated_fresh = (alloc_object-Placement ix id size h).fresh

  allocated-Refines : Refines ix (alloc id size) (some s) ix'
  unfolding lookup_object
  allocated-Refines =
      let (v', (r, near, used, found)) = alloc_object_lem ix ix' id size s v small chunk h in
      let self : lookup_object ix' id ≡ some (placed id s r) =
        rw (found id, (==_iff id id).1 refl) refl in
      let inside = (lookup_within 0 ix'.total_size id ix'.object_index v'.laid self).1 in
      (
        v',
        allocated_sizes,
        allocated allocated_fresh near (omega (arith, inside, allocated_sizes.0))
            (λ j e at. elim (ℕ_discrete id j) [
              | yes same ↦
                  let here : lookup_object ix id ≡ some e = ap (lookup_object ix) same ∙ at in
                  absurd (let clash : none ≡ some e = sym allocated_fresh ∙ here in cc)
              | no other ↦
                  let apart : (id == j) ≡ false = ground (arith, other) in
                  let kept : lookup_object ix' j ≡ some e = rw (found j, apart) at in
                  (objects-Apart ix' id j v' other self kept).0
            ])
            found,
      )

dealloc-Refines :
    (ix : ObjectIndex) (id : ℕ) → IsValid ix → Refines ix (dealloc id) none (dealloc_object ix id)
unfolding dealloc_object
dealloc-Refines ix id v =
    let (v', found, room) = dealloc_object_lem ix id v in (v', (refl, refl), freed found)

perform-Refines :
    (a : Action) (ix ix' : ObjectIndex) (answer : Option ℕ)
    → IsValid ix
    → ix.chunk_size < 2 ^ 62
    → Small a
    → perform a ix ≡ ok (answer, ix')
    → Refines ix a answer ix'
unfolding perform
perform-Refines (alloc id size) ix ix' none v chunk small h = refused-Refines ix ix' id size v h
perform-Refines (alloc id size) ix ix' (some s) v chunk small h =
    allocated-Refines ix ix' id size s v small chunk h
perform-Refines (dealloc id) ix ix' answer v chunk small h =
    let same : dealloc_object ix id ≡ ix' = cc in
    let silent : none ≡ answer = cc in
    subst₂ (λ o i. Refines ix (dealloc id) o i) silent same (dealloc-Refines ix id v)

-- The allocator implements the directory: from a valid index, and with sizes below 2 ^ 62, every row
-- of allocations and deallocations that does not panic gives answers that the directory allows one
-- after another, where an allocation puts the object, of the size asked for rounded up, in a place
-- within the total size that overlaps no object of the directory, or changes nothing, and a
-- deallocation removes the object. The index is valid at the end.
pub run-Trace :
    (actions : List Action) (ix ix' : ObjectIndex) (answers : List (Option ℕ))
    → IsValid ix
    → ix.chunk_size < 2 ^ 62
    → All Small actions
    → run actions ix ≡ ok (answers, ix')
    → IsValid ix'
      × Trace ix.total_size ix.chunk_size (lookup_object ix) actions answers (lookup_object ix')
unfolding run
run-Trace [] ix ix' answers v chunk small h =
    let same : ix ≡ ix' = cc in
    let silent : [] ≡ answers = cc in
    subst₂
      (λ os i.
        IsValid i × Trace ix.total_size ix.chunk_size (lookup_object ix) [] os (lookup_object i))
      silent same (v, stop (λ j. refl))
run-Trace (a ∷ actions) ix ix' answers v chunk small h =
    let ((answer, jx), first, more) = >>=-eq-ok (perform a ix) _ h in
    let ((others, kx), rest, end) = >>=-eq-ok (run actions jx) _ more in
    let (v', (total, unit), step) = perform-Refines a ix jx answer v chunk small.0 first in
    let (w, trace) = run-Trace actions jx kx others v' (rw unit chunk) small.1 rest in
    let same : kx ≡ ix' = cc in
    let said : answer ∷ others ≡ answers = cc in
    subst₂
      (λ os i.
        IsValid i
        × Trace ix.total_size ix.chunk_size (lookup_object ix) (a ∷ actions) os (lookup_object i))
      said same
      (
        w,
        next step (
            subst₂ (λ n c. Trace n c (lookup_object jx) actions others (lookup_object kx)) total
              unit trace),
      )
