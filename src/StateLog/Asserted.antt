-- ===== src/StateLog/Asserted.antt =====
-- What `assert_states` accepts of a log that was written.
use rep_cxl.Prelude.{
  ◌==◌, ==_iff, ◌≡◌, refl, sym, ap, inl, inr, ◌↔◌, true, Bool-cases, List, [], ◌∷◌, map, length,
  All, arith,
}
use mathlib.Core.Path.{ap₂}
use rep_cxl.Prelude.Run.{ok, assert, ◌>>◌}
use rep_cxl.Prelude.Text.{Text, same}
use rep_cxl.Monster.{LogEntry}
use rep_cxl.StateLog.{display, read_monster_states, assert_each, assert_states}
use rep_cxl.StateLog.RoundTrip.{Fits, entry_of, log_all, read_monster_log-log_all}

same-eq : (a b : Text) → same a b ≡ true → a ≡ b
unfolding same
same-eq [] [] h = refl
same-eq [] (d ∷ ds) h = cc
same-eq (c ∷ cs) [] h = cc
same-eq (c ∷ cs) (d ∷ ds) h = ground (arith, same-eq cs ds)

same_refl : (a : Text) → same a a ≡ true
unfolding same
same_refl [] = refl
same_refl (c ∷ cs) = ground (arith, same_refl cs)

-- The names of the states of some entries, in order.
abbrev pub names : List LogEntry → List Text
names [] = []
names (e ∷ es) = display e.state ∷ names es

names-map : (es : List LogEntry) → map (λ e. e.state) (map entry_of es) ≡ names es
names-map [] = refl
names-map (e ∷ es) = ap (λ ns. display e.state ∷ ns) (names-map es)

read_monster_states-log_all :
    (es : List LogEntry) → All Fits es → read_monster_states (log_all [] es) ≡ names es
unfolding read_monster_states
read_monster_states-log_all es h = rw (read_monster_log-log_all es h) (names-map es)

each_refl : (ns : List Text) → assert_each ns ns ≡ ok tt
unfolding assert_each
each_refl [] = refl
each_refl (n ∷ ns) = rw (same_refl n) (each_refl ns)

each-eq : (ms ns : List Text) → length ms ≡ length ns → assert_each ms ns ≡ ok tt → ms ≡ ns
unfolding assert_each
each-eq [] [] size h = refl
each-eq [] (n ∷ ns) size h = absurd (omega arith)
each-eq (m ∷ ms) [] size h = absurd (omega arith)
each-eq (m ∷ ms) (n ∷ ns) size h = elim (Bool-cases (same m n)) [
  | inr differ ↦ absurd (let stopped = rw differ at h in cc)
  | inl equal ↦
      let head = same-eq m n equal in
      let tail = each-eq ms ns (omega arith) (rw equal at h) in ap₂ (λ x xs. x ∷ xs) head tail
]

asserts-eq :
    (ms ns : List Text) → (assert (length ms == length ns) >> assert_each ms ns) ≡ ok tt → ms ≡ ns
asserts-eq ms ns h = elim (Bool-cases (length ms == length ns)) [
  | inr differ ↦ absurd (let stopped = rw differ at h in cc)
  | inl size ↦ each-eq ms ns ((==_iff _ _).0 size) (rw size at h)
]

asserts_refl : (ns : List Text) → (assert (length ns == length ns) >> assert_each ns ns) ≡ ok tt
asserts_refl ns = rw ((==_iff (length ns) (length ns)).1 refl) (each_refl ns)

-- On an empty log to which entries with rounds and object numbers below 2 ^ 64 were written,
-- `assert_states` returns exactly if the expected names are those of the states of the entries, in
-- order, and otherwise panics.
pub assert_states-log_all :
    (es : List LogEntry) (expected : List Text)
    → All Fits es
    → (assert_states (log_all [] es) expected ≡ ok tt) ↔ (expected ≡ names es)
unfolding assert_states
assert_states-log_all es expected h =
    rw (read_monster_states-log_all es h)
      (λ ran. sym (asserts-eq (names es) expected ran), λ e. rw e (asserts_refl (names es)))
