-- ===== src/Utils/Percentile.antt =====
-- What `percentile` of src/utils.rs returns.
use Prim.Native.Nat.{ℕ, zero, suc, ◌-◌, ◌^◌, ◌≤◌, ◌<◌}
use rep_cxl.Prelude.{
  if◌then◌else◌, ltb, leb, ◌≡◌, refl, ap, ◌∙◌, Bool, Bool-cases, inl, inr, some, List, [], ◌∷◌,
  length, get_elem?, get_elem?_there, All, arith,
}
use mathlib.Core.Option.{some-injective}
use rep_cxl.Prelude.Run.{ok}
use rep_cxl.Prelude.Words.{sub64, sub64_exact}
use rep_cxl.Utils.{insert, sort, percentile, indexed}

pub count : (ℕ → Bool) → List ℕ → ℕ
count test [] = 0
count test (x ∷ xs) = let rest = count test xs in if test x then suc rest else rest

count-insert :
    (test : ℕ → Bool) (x : ℕ) (xs : List ℕ) → count test (insert x xs) ≡ count test (x ∷ xs)
unfolding count insert
count-insert test x [] = refl
count-insert test x (y ∷ ys) = let rest = count-insert test x ys in ground arith

count-sort : (test : ℕ → Bool) (xs : List ℕ) → count test (sort xs) ≡ count test xs
unfolding count sort
count-sort test [] = refl
count-sort test (x ∷ xs) =
    let here = count-insert test x (sort xs) in let rest = count-sort test xs in ground arith

length-insert : (x : ℕ) (xs : List ℕ) → length (insert x xs) ≡ suc (length xs)
unfolding insert
length-insert x [] = refl
length-insert x (y ∷ ys) = let rest = length-insert x ys in ground arith

pub length-sort : (xs : List ℕ) → length (sort xs) ≡ length xs
unfolding sort
length-sort [] = refl
length-sort (x ∷ xs) = length-insert x (sort xs) ∙ ap suc (length-sort xs)

Least : ℕ → List ℕ → Type 0
Least x = All (λ y. x ≤ y)

IsSorted : List ℕ → Type 0
IsSorted [] = Unit
IsSorted (x ∷ xs) = Least x xs × IsSorted xs

Least-weaken : (x y : ℕ) (ys : List ℕ) → x ≤ y → Least y ys → Least x ys
unfolding Least
Least-weaken x y [] le low = tt
Least-weaken x y (z ∷ zs) le (first, low) = (omega arith, Least-weaken x y zs le low)

Least-insert : (x y : ℕ) (ys : List ℕ) → y ≤ x → Least y ys → Least y (insert x ys)
unfolding Least insert
Least-insert x y [] le low = (le, tt)
Least-insert x y (z ∷ zs) le (first, low) = elim (Bool-cases (ltb z x)) [
  | inl less ↦ rw less (first, Least-insert x y zs le low)
  | inr rest ↦ rw rest (le, (first, low))
]

insert-IsSorted : (x : ℕ) (xs : List ℕ) → IsSorted xs → IsSorted (insert x xs)
unfolding IsSorted Least insert
insert-IsSorted x [] s = (tt, tt)
insert-IsSorted x (y ∷ ys) (low, s) = elim (Bool-cases (ltb y x)) [
  | inl less ↦ rw less (Least-insert x y ys (ground arith) low, insert-IsSorted x ys s)
  | inr more ↦ let le : x ≤ y = ground arith in rw more ((le, Least-weaken x y ys le low), (low, s))
]

sort-IsSorted : (xs : List ℕ) → IsSorted (sort xs)
unfolding IsSorted sort
sort-IsSorted [] = tt
sort-IsSorted (x ∷ xs) = insert-IsSorted x (sort xs) (sort-IsSorted xs)

Least-get_elem? : (x i : ℕ) (xs : List ℕ) {v : ℕ} → Least x xs → get_elem? xs i ≡ some v → x ≤ v
unfolding Least
Least-get_elem? x i [] low h = absurd (cc)
Least-get_elem? x zero (y ∷ ys) (first, low) h = omega (arith, first, some-injective _ _ h)
Least-get_elem? x (suc i) (y ∷ ys) (first, low) h = Least-get_elem? x i ys low h

count-Least : (v : ℕ) (xs : List ℕ) → Least v xs → count (λ y. ltb y v) xs ≡ 0
unfolding count Least
count-Least v [] low = refl
count-Least v (x ∷ xs) (first, low) = let rest = count-Least v xs low in ground arith

-- In a sorted list the element at `i` has at most `i` smaller ones, and more than `i` up to it.
get_elem?-IsSorted :
    (i : ℕ) (xs : List ℕ) {v : ℕ}
    → IsSorted xs
    → get_elem? xs i ≡ some v
    → (count (λ y. ltb y v) xs ≤ i) × (i < count (λ y. leb y v) xs)
unfolding count IsSorted
get_elem?-IsSorted i [] s h = absurd (cc)
get_elem?-IsSorted zero (x ∷ xs) {v} (low, s) h =
    let same : x ≡ v = some-injective _ _ h in
    let none_below = count-Least x xs low in ground (arith, rw same at none_below)
get_elem?-IsSorted (suc i) (x ∷ xs) (low, s) h =
    let rest = get_elem?-IsSorted i xs s h in let le = Least-get_elem? x i xs low h in ground arith

-- If the rank that `ceil` gives for the number of the latencies is not 0 and not above that number:
-- `percentile` returns a value that fewer latencies than the rank are below, and at least as many
-- as the rank are not above.
pub percentile-ranks :
    (ceil : ℕ → ℕ) (x : ℕ) (xs : List ℕ)
    → 1 ≤ ceil (suc (length xs))
    → ceil (suc (length xs)) ≤ suc (length xs)
    → suc (length xs) < 2 ^ 64
    → (v : ℕ) × (percentile ceil (x ∷ xs) ≡ ok v)
      × (count (λ y. ltb y v) (x ∷ xs) < ceil (suc (length xs)))
      × (ceil (suc (length xs)) ≤ count (λ y. leb y v) (x ∷ xs))
unfolding percentile
percentile-ranks ceil x xs low high fits =
    let all = x ∷ xs in
    let rank = ceil (suc (length xs)) in
    let exact : sub64 rank 1 ≡ rank - 1 = sub64_exact rank 1 low (omega arith) in
    let long = length-sort all in
    let (v, at_rank) = get_elem?_there (rank - 1) (sort all) (omega arith) in
    let (below, upto) = get_elem?-IsSorted (rank - 1) (sort all) (sort-IsSorted all) at_rank in
    let below_all = count-sort (λ y. ltb y v) all in
    let upto_all = count-sort (λ y. leb y v) all in
    (v, ap indexed (ap (get_elem? (sort all)) exact ∙ at_rank), omega arith, omega arith)
