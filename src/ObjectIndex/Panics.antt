-- ===== src/ObjectIndex/Panics.antt =====
-- The `expect` of `alloc_object`: two empty slots in a row before which the request does not fit.
use rep_cxl.Prelude.{ℕ, ◌≤◌, ◌<◌, le→ltb, ◌≡◌, none, some, List, [], ◌∷◌, ◌++◌, map, arith}
use rep_cxl.Prelude.Run.{ok, panic}
use rep_cxl.Prelude.Words.{add64}
use rep_cxl.ObjectIndex.{
  ObjectInfo, ObjectIndex, Slots, Previous, beginning, slot, start_after, end_before, round_up,
  lookup_object, first_fit, alloc_object,
}

-- The slot before the first hole, after slots that are all in use.
abbrev pub last_used : Previous → List ObjectInfo → Previous
last_used before [] = before
last_used before (e ∷ es) = last_used (slot (some e)) es

first_fit-holes :
    (id size total : ℕ) (before : Previous) (es : List ObjectInfo) (rest : Slots) (s : ℕ)
    → start_after (last_used before es) ≡ ok s
    → end_before total rest < add64 s size
    → first_fit id size total before (map some es ++ (none ∷ none ∷ rest)) ≡ panic
unfolding first_fit
first_fit-holes id size total before [] rest s at short = rw at (ground (arith, short))
first_fit-holes id size total before (e ∷ es) rest s at short =
    rw (first_fit-holes id size total (slot (some e)) es rest s at short)

-- Two adjacent holes that follow slots in use make `alloc_object` panic when the room that they
-- leave together is too short, although the total space suffices and the identifier is new: the
-- loop goes on to the second hole, and unwraps the empty slot before it.
pub alloc_object-panics :
    (ix : ObjectIndex) (id size rounded s : ℕ) (es : List ObjectInfo) (rest : Slots)
    → ix.object_index ≡ map some es ++ (none ∷ none ∷ rest)
    → round_up size ix.chunk_size ≡ ok rounded
    → add64 ix.allocated_size rounded ≤ ix.total_size
    → lookup_object ix id ≡ none
    → start_after (last_used beginning es) ≡ ok s
    → end_before ix.total_size rest < add64 s rounded
    → alloc_object ix id size ≡ panic
unfolding alloc_object
alloc_object-panics ix id size rounded s es rest shape rounds room fresh at short = rw (
  rounds,
  le→ltb ix.total_size (add64 ix.allocated_size rounded) room,
  fresh,
  shape,
  first_fit-holes id rounded ix.total_size beginning es rest s at short,
)
