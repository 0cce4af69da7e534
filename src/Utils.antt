-- ===== src/Utils.antt =====
-- `percentile` of src/utils.rs, which src/bin/rep_bench.rs has as well. What `(p * n as f32).ceil()
-- as usize` gives for the number `n` of the latencies is a parameter.
pub mod Percentile
use Prim.Native.Nat.{ℕ, suc}
use rep_cxl.Prelude.{if◌then◌else◌, ltb, Option, none, some, List, [], ◌∷◌, length, get_elem?}
use rep_cxl.Prelude.Run.{Run, ok, panic}
use rep_cxl.Prelude.Words.{sub64}

pub insert : ℕ → List ℕ → List ℕ
insert x [] = x ∷ []
insert x (y ∷ ys) = let rest = insert x ys in if ltb y x then y ∷ rest else x ∷ y ∷ ys

-- `sort_unstable`
pub sort : List ℕ → List ℕ
unfolding insert
sort [] = []
sort (x ∷ xs) = insert x (sort xs)

-- An index out of range panics.
abbrev pub indexed : Option ℕ → Run ℕ
indexed none = panic
indexed (some x) = ok x

pub percentile : (ℕ → ℕ) → List ℕ → Run ℕ
unfolding sort
percentile ceil [] = ok 0
percentile ceil (x ∷ xs) = indexed (get_elem? (sort (x ∷ xs)) (sub64 (ceil (suc (length xs))) 1))
