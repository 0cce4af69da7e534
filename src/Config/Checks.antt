-- ===== src/Config/Checks.antt =====
-- What a configuration that `validate` accepts is like.
use rep_cxl.Prelude.{
  ℕ, ◌≤◌, ltb, ltb→le, le→ltb, if◌then◌else◌, ◌≡◌, ◌≢◌, ◌↔◌, ◌⊎◌, inl, inr, refl, not, Bool, true,
  false, Option, none, some, List, [], ◌∷◌, length, contains, arith,
}
use rep_cxl.Wcc.{max_processes}
use rep_cxl.Config.{
  ℤ, pos, negsuc, Config, id_missing, id_not_in_processes, too_many_processes, no_memory_node,
  core_zero, validate, is_empty, is_core_zero,
}

-- The process is in the list.
abbrev pub Member : ℕ → List ℕ → Type 0
Member p [] = ⊥
Member p (q ∷ qs) = (q ≡ p) ⊎ Member p qs

pub contains_iff : (ps : List ℕ) (p : ℕ) → (contains ps p ≡ true) ↔ Member p ps
contains_iff [] p = (λ h. cc, λ h. absurd h)
contains_iff (q ∷ qs) p = let rest = contains_iff qs p in ground arith

abbrev pub NotEmpty {ℓ} : {A : Type ℓ} → List A → Type 0
NotEmpty [] = ⊥
NotEmpty (x ∷ xs) = Unit

abbrev pub CoreAllowed : Option ℕ → Type 0
CoreAllowed none = Unit
CoreAllowed (some core) = core ≢ 0

-- A configuration of process `p`: the process is in the list, there are not too many, there is a
-- memory node, and the core is not core 0.
abbrev pub Accepted : {F : Type 0} → Config F → ℕ → Type 0
Accepted c p =
    (c.id ≡ pos p)
    × Member p c.processes
    × (length c.processes ≤ max_processes)
    × NotEmpty c.mem_nodes
    × CoreAllowed c.core_affinity

not_empty {ℓ} : {A : Type ℓ} (xs : List A) → (is_empty xs ≡ false) ↔ NotEmpty xs
not_empty [] = (λ h. cc, λ h. absurd h)
not_empty (x ∷ xs) = (λ h. tt, λ h. refl)

core_allowed : (core : Option ℕ) → (is_core_zero core ≡ false) ↔ CoreAllowed core
core_allowed none = (λ h. tt, λ h. refl)
core_allowed (some core) = ground arith

id_cases : (i : ℤ) → ((n : ℕ) × (i ≡ pos n)) ⊎ ((n : ℕ) × (i ≡ negsuc n))
id_cases (pos n) = inl (n, refl)
id_cases (negsuc n) = inr (n, refl)

-- The tests behind that of the sign, all passed.
checks :
    (a b d e : Bool)
    → (if not a
        then some id_not_in_processes
        else if b
        then some too_many_processes
        else if d
        then some no_memory_node
        else if e
        then some core_zero
        else none)
      ≡ none
    → (a ≡ true) × (b ≡ false) × (d ≡ false) × (e ≡ false)
checks a b d e h = ground arith

module _ {F : Type 0} (c : Config F) where
  accepted : validate c ≡ none → (p : ℕ) × Accepted c p
  unfolding validate
  accepted h = elim (id_cases c.id) [
    | inl (p, same) ↦
        let parts =
          checks (contains c.processes p) (ltb max_processes (length c.processes))
            (is_empty c.mem_nodes) (is_core_zero c.core_affinity) (rw same at h) in
        let listed = parts.0 in
        (
          p,
          (
            same,
            (contains_iff c.processes p).0 listed,
            ltb→le max_processes (length c.processes) parts.1,
            (not_empty c.mem_nodes).0 parts.2,
            (core_allowed c.core_affinity).0 parts.3,
          ),
        )
    | inr (n, negative) ↦ absurd (refused n (rw negative at h))
  ]
    where
      refused : (n : ℕ) → some id_missing ≡ none → ⊥
      refused n q = cc

  accepts : (p : ℕ) → Accepted c p → validate c ≡ none
  unfolding validate
  accepts p (same, listed, few, nodes, core) =
      rw
        (
          same,
          (contains_iff c.processes p).1 listed,
          le→ltb max_processes (length c.processes) few,
          (not_empty c.mem_nodes).1 nodes,
          (core_allowed c.core_affinity).1 core,
        )
        refl

-- `validate` accepts a configuration exactly if its identifier is a process of its list, the list
-- is not longer than `max_processes`, there is a memory node, and the core is not core 0.
pub validate_iff : {F : Type 0} (c : Config F) → (validate c ≡ none) ↔ ((p : ℕ) × Accepted c p)
validate_iff c = (accepted c, λ (p, a). accepts c p a)
