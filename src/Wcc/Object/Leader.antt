-- ===== src/Wcc/Object/Leader.antt =====
-- The last writer of an object, found without `ObjectWcc`.
use rep_cxl.Prelude.{
  ℕ, zero, suc, ◌+◌, ◌≤◌, ◌<◌, ltb, ◌==◌, if◌then◌else◌, ◌≡◌, ap, ◌⊎◌, inl, inr, ◌&&◌, Bool-cases,
  Option, none, some, Option-cases, List, [], ◌∷◌, get_elem?, arith,
}
use mathlib.Core.Path.{subst₂}
use mathlib.Core.Option.{some-injective}
use rep_cxl.Wcc.Object.{Entry}

-- The process whose entry for the object has the largest round before `current`, the largest
-- process of these, and that round: an independent description of the winner. `i` is the process of
-- the first entry.
abbrev pub better : ℕ → ℕ → ℕ → Entry → Option (ℕ × ℕ) → Option (ℕ × ℕ)
better oid current i e none =
    if e.oid == oid && ltb e.round current then some (i, e.round) else none
better oid current i e (some (j, r)) =
    if e.oid == oid && (ltb e.round current && ltb r e.round)
    then some (i, e.round)
    else some (j, r)

unfoldable pub leader : ℕ → ℕ → ℕ → List Entry → Option (ℕ × ℕ)
leader oid current i [] = none
leader oid current i (e ∷ es) = better oid current i e (leader oid current (suc i) es)

-- What `leader` finds in a list.
pub record IsLeader (oid current i : ℕ) (es : List Entry) (j r : ℕ) : Type 0 where
  pub index : ℕ
  pub place : j ≡ i + index
  pub entry : get_elem? es index ≡ some (record { oid = oid; round = r })
  pub over : r < current
  pub largest :
      (k : ℕ) (e : Entry)
      → get_elem? es k ≡ some e
      → e.oid ≡ oid
      → e.round < current
      → (e.round < r) ⊎ ((e.round ≡ r) × (k ≤ index))

pub leader-none :
    (oid current i : ℕ) (es : List Entry)
    → leader oid current i es ≡ none
    → (k : ℕ) (e : Entry) → get_elem? es k ≡ some e
    → e.oid ≡ oid
    → current ≤ e.round
unfolding leader
leader-none oid current i [] h k e at same = absurd (cc)
leader-none oid current i (x ∷ es) h k e at same =
    elim (Option-cases (leader oid current (suc i) es)) [
      | inl clear ↦ here (rw clear at h) (leader-none oid current (suc i) es clear) k at
      | inr ((j, r), found) ↦ absurd (taken j r (rw found at h))
    ]
  where
    taken : (j r : ℕ) → better oid current i x (some (j, r)) ≡ none → ⊥
    taken j r q = ground arith

    here :
        better oid current i x none ≡ none
        → ((k : ℕ) (e : Entry) → get_elem? es k ≡ some e → e.oid ≡ oid → current ≤ e.round)
        → (k : ℕ) → get_elem? (x ∷ es) k ≡ some e
        → current ≤ e.round
    here q rest zero p = let eq : x ≡ e = some-injective _ _ p in ground (arith, eq)
    here q rest (suc k) p = rest k e p same

module _ (oid current i : ℕ) (x : Entry) (es : List Entry) where
  -- The first entry leads when it counts and all that count behind it have a smaller round.
  head-IsLeader :
      x.oid ≡ oid
      → x.round < current
      → ((k : ℕ) (e : Entry)
          → get_elem? es k ≡ some e
          → e.oid ≡ oid
          → e.round < current
          → e.round < x.round)
      → IsLeader oid current i (x ∷ es) i x.round
  head-IsLeader same over small = record {
    index = 0;
    place = omega arith;
    entry = ap some (λ n. record { oid = same n; round = x.round });
    over = over;
    largest = λ k e at own early. first k e at own early;
  }
    where
      first :
          (k : ℕ) (e : Entry)
          → get_elem? (x ∷ es) k ≡ some e
          → e.oid ≡ oid
          → e.round < current
          → (e.round < x.round) ⊎ ((e.round ≡ x.round) × (k ≤ 0))
      first zero e at own early = let eq : x ≡ e = some-injective _ _ at in ground (arith, eq)
      first (suc k) e at own early = inl (small k e at own early)

  tail-IsLeader :
      {j r : ℕ}
      → IsLeader oid current (suc i) es j r
      → (x.oid ≡ oid → x.round < current → x.round ≤ r)
      → IsLeader oid current i (x ∷ es) j r
  tail-IsLeader {r} l low = record {
    index = suc l.index;
    place = omega (arith, l.place);
    entry = l.entry;
    over = l.over;
    largest = λ k e at own early. later k e at own early;
  }
    where
      later :
          (k : ℕ) (e : Entry)
          → get_elem? (x ∷ es) k ≡ some e
          → e.oid ≡ oid
          → e.round < current
          → (e.round < r) ⊎ ((e.round ≡ r) × (k ≤ suc l.index))
      later zero e at own early =
          let eq : x ≡ e = some-injective _ _ at in
          let low' : e.round ≤ r = rw (← eq) (low (rw eq own) (rw eq early)) in ground arith
      later (suc k) e at own early = let deep = l.largest k e at own early in ground arith

pub leader-IsLeader :
    (oid current i : ℕ) (es : List Entry) {j r : ℕ}
    → leader oid current i es ≡ some (j, r)
    → IsLeader oid current i es j r
unfolding leader
leader-IsLeader oid current i [] h = absurd (cc)
leader-IsLeader oid current i (x ∷ es) {j} {r} h =
    elim (Option-cases (leader oid current (suc i) es)) [
      | inl clear ↦ alone clear (rw clear at h)
      | inr ((j', r'), found) ↦
          among j' r' (leader-IsLeader oid current (suc i) es found) (rw found at h)
    ]
  where
    alone :
        leader oid current (suc i) es ≡ none
        → better oid current i x none ≡ some (j, r)
        → IsLeader oid current i (x ∷ es) j r
    alone clear q =
        let facts : (x.oid ≡ oid) × (x.round < current) × (i ≡ j) × (x.round ≡ r) = ground arith in
        subst₂ (IsLeader oid current i (x ∷ es)) facts.2 facts.3 (
          head-IsLeader oid current i x es facts.0 facts.1 (λ k e at own early.
            absurd (omega (arith, leader-none oid current (suc i) es clear k e at own))))

    among :
        (j' r' : ℕ)
        → IsLeader oid current (suc i) es j' r'
        → better oid current i x (some (j', r')) ≡ some (j, r)
        → IsLeader oid current i (x ∷ es) j r
    among j' r' l q = elim (Bool-cases (x.oid == oid && (ltb x.round current && ltb r' x.round))) [
      | inl wins ↦
          let facts : (x.oid ≡ oid) × (x.round < current) × (r' < x.round) = ground (arith, wins) in
          let same : (i ≡ j) × (x.round ≡ r) = ground (arith, wins, q) in
          subst₂ (IsLeader oid current i (x ∷ es)) same.0 same.1 (
            head-IsLeader oid current i x es facts.0 facts.1
              (λ k e at own early. ground (arith, l.largest k e at own early)))
      | inr loses ↦
          let same : (j' ≡ j) × (r' ≡ r) = ground (arith, loses, q) in
          subst₂ (IsLeader oid current i (x ∷ es)) same.0 same.1
            (tail-IsLeader oid current i x es l (λ own early. ground (arith, loses)))
    ]
