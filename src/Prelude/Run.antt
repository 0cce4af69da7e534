-- ===== src/Prelude/Run.antt =====
-- A computation that may panic, and `Result<A, String>` with its error as a value.
use mathlib.Core.Path.{◌≡◌, refl, ap}
use mathlib.Core.Bool.{Bool, true, false}

pub data Run {ℓ} (A : Type ℓ) : Type ℓ where
  ok : A → Run A
  panic : Run A

-- `abbrev`, so that a chain computes as far as its first step has returned.
infixl 5 ◌>>=◌ ◌>>◌
abbrev pub ◌>>=◌ {ℓ κ} : {X : Type ℓ} → {Y : Type κ} → Run X → (X → Run Y) → Run Y
panic >>= next = panic
ok x >>= next = next x

abbrev pub ◌>>◌ {ℓ} : {Y : Type ℓ} → Run (Unit {0}) → Run Y → Run Y
panic >> rest = panic
ok u >> rest = rest

-- `if bad { panic!(...) }`
abbrev pub assert : Bool → Run (Unit {0})
assert true = ok tt
assert false = panic

-- A chain that returned: its first step returned, and so did the rest.
pub >>=-eq-ok {ℓ κ} :
    {X : Type ℓ}
    → {Y : Type κ} → (first : Run X) → (next : X → Run Y) → {y : Y} → (first >>= next) ≡ ok y
    → (x : X) × (first ≡ ok x) × (next x ≡ ok y)
>>=-eq-ok panic next e = cc
>>=-eq-ok (ok x) next e = (x, refl, e)

-- Equal results that are pairs have equal parts.
pub ok_parts {ℓ κ} :
    {A : Type ℓ} → {B : Type κ} → (a b : A × B) → ok a ≡ ok b → (a.0 ≡ b.0) × (a.1 ≡ b.1)
ok_parts {A} {B} a b h =
    let same : a ≡ b = cc in (ap (λ (x : A × B). x.0) same, ap (λ (x : A × B). x.1) same)
