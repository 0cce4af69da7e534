-- ===== src/Legacy/WccPerReq/Collision.antt =====
-- Two requests of src/shmem/wcc_per_req.rs whose keys have the same hash.
use Prim.Native.Nat.{ℕ}
use rep_cxl.Prelude.{
  Option, ◌==◌, ==_iff, ◌≡◌, ◌≢◌, refl, sym, true, false, none, some, List, [], ◌∷◌, set, replicate,
  arith,
}
use rep_cxl.Prelude.Run.{Run, ok, ◌>>=◌}
use rep_cxl.Prelude.Words.{add64}
use rep_cxl.Wcc.{max_processes}
use rep_cxl.Legacy.WccPerReq.{
  Slot, WriteConflictChecker, empty_slot, new, hash, find_slot, get_request, set_slot, add_pid,
  push_at, push_request, conflicting, check_conflicts,
}

abbrev fresh : ℕ → ℕ → Slot
fresh key pid = record { key = key; pids = replicate max_processes pid; num_of_pids = 1 }

abbrev both : ℕ → ℕ → ℕ → Slot
both key p q = record { key = key; pids = set (replicate max_processes p) 1 q; num_of_pids = 2 }

-- The row of a key: one slot that may be taken, and empty ones.
abbrev Row : WriteConflictChecker → ℕ → Slot → Type 0
Row w key s = w.requests (hash key) ≡ s ∷ replicate 999 empty_slot

module _ (k : ℕ) (some_key : k ≢ 0) where
  other_key : (0 == k) ≡ false
  other_key = ground (arith, λ (e : k ≡ 0). some_key e)

  find_slot_absent :
      (s : Slot) → (s.key == k) ≡ false → find_slot k (s ∷ replicate 999 empty_slot) ≡ none
  unfolding find_slot
  find_slot_absent s apart = rw (apart, other_key) (ground arith)

  push_absent :
      (w : WriteConflictChecker) (s : Slot) (pid : ℕ)
      → Row w k s
      → (s.key == k) ≡ false
      → push_request w k pid ≡ ok (set_slot w k 0 (fresh k pid))
  unfolding push_request get_request push_at
  push_absent w s pid row apart = rw (row, find_slot_absent s apart) refl

Row-set_slot :
    (w : WriteConflictChecker) (k l : ℕ) (s t : Slot)
    → hash l ≡ hash k
    → Row w k s
    → Row (set_slot w k 0 t) l t
Row-set_slot w k l s t same row = rw (same, (==_iff (hash k) (hash k)).1 refl, row) refl

new-Row : (j : ℕ) → Row new j empty_slot
unfolding new
new-Row j = refl

add_second :
    (k p q x : ℕ) (rest : List ℕ)
    → p ≢ q
    → add_pid q (record { key = k; pids = p ∷ x ∷ rest; num_of_pids = 1 })
      ≡ ok (record { key = k; pids = p ∷ q ∷ rest; num_of_pids = 2 })
unfolding add_pid add64
add_second k p q x rest apart =
    let other : (p == q) ≡ false = ground (arith, apart) in rw other refl

find_first :
    (k : ℕ) (s : Slot) (rest : List Slot) → s.key ≡ k → find_slot k (s ∷ rest) ≡ some (0, s)
unfolding find_slot
find_first k s rest named =
    let same : (s.key == k) ≡ true = (==_iff s.key k).1 named in rw same refl

push_again :
    (w : WriteConflictChecker) (k p q : ℕ)
    → p ≢ q
    → Row w k (fresh k p)
    → push_request w k q ≡ ok (set_slot w k 0 (both k p q))
unfolding push_request get_request push_at
push_again w k p q apart row =
    rw
      (
        row,
        find_first k (fresh k p) (replicate 999 empty_slot) refl,
        add_second k p q p (replicate 510 p) apart,
      )
      refl

check-Row :
    (w : WriteConflictChecker) (k : ℕ) (s : Slot)
    → Row w k s
    → s.key ≡ k
    → check_conflicts w k ≡ conflicting (some (0, s))
unfolding check_conflicts get_request
check-Row w k s row named = rw (row, find_first k s (replicate 999 empty_slot) named) refl

-- The conflicts of a key after some requests, by key and process, made one after another.
unfoldable pub conflicts_after : List (ℕ × ℕ) → ℕ → WriteConflictChecker → Run (Option (List ℕ))
unfolding push_request check_conflicts
conflicts_after [] key w = ok (check_conflicts w key)
conflicts_after ((k, pid) ∷ rest) key w = do w' ← push_request w k pid; conflicts_after rest key w'

-- On a new checker, two processes that request the same key, not 0, are both found as conflicting;
-- but if a request for another key with the same hash, not 0 either, comes between theirs, it takes
-- their slot, and no conflict is found.
pub conflicts_after-collision :
    (k l p q r : ℕ)
    → k ≢ 0
    → l ≢ 0
    → k ≢ l
    → hash l ≡ hash k
    → p ≢ q
    → (conflicts_after ((k, p) ∷ (k, q) ∷ []) k new ≡ ok (some (p ∷ q ∷ [])))
      × (conflicts_after ((k, p) ∷ (l, r) ∷ (k, q) ∷ []) k new ≡ ok none)
unfolding conflicts_after
conflicts_after-collision k l p q r some_k some_l apart same other =
    let w1 = set_slot new k 0 (fresh k p) in
    let w2 = set_slot w1 k 0 (both k p q) in
    let v2 = set_slot w1 l 0 (fresh l r) in
    let v3 = set_slot v2 k 0 (fresh k q) in
    let kl : (k == l) ≡ false = ground (arith, apart) in
    let lk : (l == k) ≡ false = ground (arith, λ (e : l ≡ k). apart (sym e)) in
    let row1 : Row w1 k (fresh k p) =
      Row-set_slot new k k empty_slot (fresh k p) refl (new-Row k) in
    let row1' : Row w1 l (fresh k p) =
      Row-set_slot new k l empty_slot (fresh k p) same (new-Row k) in
    let row2 : Row w2 k (both k p q) = Row-set_slot w1 k k (fresh k p) (both k p q) refl row1 in
    let side2 : Row v2 k (fresh l r) =
      Row-set_slot w1 l k (fresh k p) (fresh l r) (sym same) row1' in
    let side3 : Row v3 k (fresh k q) = Row-set_slot v2 k k (fresh l r) (fresh k q) refl side2 in
    let push1 = push_absent k some_k new empty_slot p (new-Row k) (other_key k some_k) in
    let push2 = push_again w1 k p q other row1 in
    let push2' = push_absent l some_l w1 (fresh k p) r row1' kl in
    let push3' = push_absent k some_k v2 (fresh l r) q side2 lk in
    (
      rw (push1, push2, check-Row w2 k (both k p q) row2 refl) refl,
      rw (push1, push2', push3', check-Row v3 k (fresh k q) side3 refl) refl,
    )
