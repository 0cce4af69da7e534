-- ===== src/Request/Order.antt =====
-- The order on write identifiers: later rounds are greater, and in a round smaller processes are.
use rep_cxl.Prelude.{◌<◌, ◌≡◌, ◌⊎◌, ◌↔◌, Ordering, true, arith}
use rep_cxl.Request.{Wid, eq, cmp, lt, gt}

abbrev pub swap : Ordering → Ordering
swap Ordering.lt = Ordering.gt
swap Ordering.eq = Ordering.eq
swap Ordering.gt = Ordering.lt

-- `a` is before `b`: an earlier round, or the same round and a larger process.
abbrev pub Before : Wid → Wid → Type 0
Before a b =
    (a.round_num < b.round_num) ⊎ ((a.round_num ≡ b.round_num) × (b.process_id < a.process_id))

pub lt_iff : (a b : Wid) → (lt a b ≡ true) ↔ Before a b
unfolding lt
lt_iff a b = ground arith

pub gt-eq-lt : (a b : Wid) → gt a b ≡ lt b a
unfolding lt gt
gt-eq-lt a b = ground arith

cmp-swap : (a b : Wid) → cmp b a ≡ swap (cmp a b)
unfolding cmp
cmp-swap a b = ground arith

cmp-eq : (a b : Wid) → (cmp a b ≡ Ordering.eq) ↔ (a ≡ b)
unfolding cmp
cmp-eq a b = ground arith

eq_iff : (a b : Wid) → (eq a b ≡ true) ↔ (a ≡ b)
unfolding eq
eq_iff a b = ground arith

cmp_trans : (a b c : Wid) (o : Ordering) → cmp a b ≡ o → cmp b c ≡ o → cmp a c ≡ o
unfolding cmp
cmp_trans a b c o h k = ground arith

-- `cmp` is a total order on write identifiers that agrees with `==`: equal exactly on equal
-- identifiers, reversed when its arguments are swapped, and transitive at each of its answers.
pub cmp_total_order :
    (a b c : Wid) (o : Ordering)
    → ((eq a b ≡ true) ↔ (a ≡ b))
      × ((cmp a b ≡ Ordering.eq) ↔ (a ≡ b))
      × (cmp b a ≡ swap (cmp a b))
      × (cmp a b ≡ o → cmp b c ≡ o → cmp a c ≡ o)
cmp_total_order a b c o = (eq_iff a b, cmp-eq a b, cmp-swap a b, cmp_trans a b c o)
