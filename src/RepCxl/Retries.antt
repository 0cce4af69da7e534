-- ===== src/RepCxl/Retries.antt =====
-- The retries of `read_object`.
use rep_cxl.Prelude.{ℕ, zero, suc, ◌+◌, ◌≤◌, ◌<◌, ◌≡◌, refl, ap, ◌∙◌, Bool, ◌⊎◌, inl, inr, arith}
use native.Mathlib.Nat.{add-zero}
use mathlib.Core.Path.{subst}
use rep_cxl.Prelude.Run.{Run, ok}
use rep_cxl.Request.{read_safe, read_dirty}
use rep_cxl.Monster.Read.{ReadResult, got, read_failed, read_ack_lost, read_waits}
use rep_cxl.RepCxl.{RepCxl, RepCxlObject}
use rep_cxl.RepCxl.Access.{ReadCall, read_once, retry_dirty, read_object}

-- The read was dirty.
abbrev pub IsDirty {ℓ} : {T : Type ℓ} → ReadResult T → Type 0
IsDirty (got (read_dirty value)) = Unit
IsDirty (got (read_safe value)) = ⊥
IsDirty (read_failed k) = ⊥
IsDirty read_ack_lost = ⊥
IsDirty read_waits = ⊥

module _ {ℓ} {T : Type ℓ} where
  IsDirty-cases : (r : ReadResult T) → ((v : T) × (r ≡ got (read_dirty v))) ⊎ ¬ (IsDirty r)
  IsDirty-cases (got (read_dirty v)) = inl (v, refl)
  IsDirty-cases (got (read_safe v)) = inr (λ d. d)
  IsDirty-cases (read_failed k) = inr (λ d. d)
  IsDirty-cases read_ack_lost = inr (λ d. d)
  IsDirty-cases read_waits = inr (λ d. d)

  pub retry_dirty-settled :
      {S : Type ℓ} (once : ℕ → S → Run (ReadResult T × S)) (n k : ℕ) (res : ReadResult T) (s : S)
      → ¬ (IsDirty res)
      → retry_dirty once n k (res, s) ≡ ok (res, s)
  unfolding retry_dirty
  retry_dirty-settled once n zero res s clean = refl
  retry_dirty-settled once n (suc k) (got (read_dirty v)) s clean = absurd (clean tt)
  retry_dirty-settled once n (suc k) (got (read_safe v)) s clean = refl
  retry_dirty-settled once n (suc k) (read_failed m) s clean = refl
  retry_dirty-settled once n (suc k) read_ack_lost s clean = refl
  retry_dirty-settled once n (suc k) read_waits s clean = refl

  -- The reads from the n-th on end with the j-th after it.
  abbrev Settles : (ℕ → ReadResult T) → ℕ → ℕ → ℕ → Type 0
  Settles reads n retries j =
      (j ≤ retries)
      × ((k : ℕ) → k < j → IsDirty (reads (n + k)))
      × ((j ≡ retries) ⊎ ¬ (IsDirty (reads (n + j))))

  retry_dirty_lem :
      {S : Type ℓ} (once : ℕ → S → Run (ReadResult T × S)) (reads : ℕ → ReadResult T)
      (states : ℕ → S) (each : (k : ℕ) → once k (states k) ≡ ok (reads k, states (suc k)))
      (retries n : ℕ)
      → (j : ℕ) × (retry_dirty once (suc n) retries (reads n, states (suc n))
          ≡ ok (reads (n + j), states (suc (n + j))))
        × Settles reads n retries j
  unfolding retry_dirty
  retry_dirty_lem once reads states each zero n =
      (0, rw (add-zero n) refl, (omega arith, λ k lt. absurd (omega arith), inl refl))
  retry_dirty_lem once reads states each (suc retries) n = elim (IsDirty-cases (reads n)) [
    | inl (v, e) ↦
        let (j, answer, (le, dirty, end)) =
          retry_dirty_lem once reads states each retries (suc n) in
        let next : n + suc j ≡ suc n + j = omega arith in
        (
          suc j,
          rw (e, each (suc n), next) answer,
          (
            omega arith,
            λ k lt. before k lt v e dirty,
            elim end [ inl last ↦ inl (ap suc last) | inr clean ↦ inr (rw next clean) ],
          ),
        )
    | inr clean ↦ (
      0,
      rw (add-zero n)
          (retry_dirty-settled once (suc n) (suc retries) (reads n) (states (suc n)) clean),
      (omega arith, λ k lt. absurd (omega arith), inr (rw (add-zero n) clean)),
    )
  ]
    where
      before :
          {j : ℕ} (k : ℕ)
          → k < suc j
          → (v : T) → reads n ≡ got (read_dirty v)
          → ((k : ℕ) → k < j → IsDirty (reads (suc n + k)))
          → IsDirty (reads (n + k))
      before zero lt v e dirty = rw (add-zero n, e) tt
      before (suc k) lt v e dirty =
          let next : n + suc k ≡ suc n + k = omega arith in rw next (dirty k (omega arith))

  -- If the k-th read of an instance as the reads before left it gives `reads k`, then `read_object`
  -- answers one of the first `read_retries + 1` of them, all before it dirty: the last of these, or
  -- one that is not dirty. It leaves the instance as that read does.
  pub read_object_lem :
      {F : Type 0} (same : T → T → Bool) (fails : ℕ → Bool) (calls : ℕ → ReadCall F T)
      (obj : RepCxlObject) (reads : ℕ → ReadResult T) (states : ℕ → RepCxl F T)
      → ((k : ℕ) → read_once same fails obj (calls k) (states k) ≡ ok (reads k, states (suc k)))
      → (j : ℕ) × (read_object same fails calls obj (states 0) ≡ ok (reads j, states (suc j)))
        × (j ≤ (states 0).config.read_retries)
        × ((k : ℕ) → k < j → IsDirty (reads k))
        × ((j ≡ (states 0).config.read_retries) ⊎ ¬ (IsDirty (reads j)))
  unfolding read_object
  read_object_lem same fails calls obj reads states each =
      let retries = (states 0).config.read_retries in
      let (j, answer, (le, dirty, end)) =
        retry_dirty_lem (λ n. read_once same fails obj (calls n)) reads states each retries 0 in
      let from_zero : (k : ℕ) → 0 + k ≡ k = λ k. omega arith in
      (
        j,
        rw (each 0) (answer ∙ ap (λ k. ok (reads k, states (suc k))) (from_zero j)),
        le,
        λ k lt. subst (λ i. IsDirty (reads i)) (from_zero k) (dirty k lt),
        subst (λ i. (j ≡ retries) ⊎ ¬ (IsDirty (reads i))) (from_zero j) end,
      )
