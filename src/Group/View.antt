-- ===== src/Group/View.antt =====
-- The coordinator, the members of a view, and when two views are equal.
use rep_cxl.Prelude.{
  ℕ, ◌≤◌, ◌≡◌, ◌↔◌, refl, ◌⊎◌, inl, inr, Bool, true, Bool-cases, ◌&&◌, none, some, Option-cases,
  List, [], ◌∷◌, ◌++◌, all, contains, arith,
}
use mathlib.Core.Path.{subst}
use rep_cxl.Config.Checks.{Member, contains_iff}
use rep_cxl.Group.{GroupView, minimum, same_set, add_process, get_coordinator, node_ids, eq}

minimum-le : (ps : List ℕ) (m : ℕ) → minimum ps ≡ some m → (p : ℕ) → Member p ps → m ≤ p
minimum-le [] m h p k = absurd k
minimum-le (q ∷ qs) m h p k = elim (Option-cases (minimum qs)) [
  | inl alone ↦ elim k [
    | inl same ↦ ground (arith, alone)
    | inr deep ↦ absurd (empty qs alone p deep)
  ]
  | inr (n, found) ↦
      let rest : Member p qs → n ≤ p = minimum-le qs n found p in
      let low : (m ≤ q) × (m ≤ n) = ground (arith, found) in
      elim k [ inl same ↦ omega (arith, same, low.0) | inr deep ↦ omega (arith, rest deep, low.1) ]
]
  where
    empty : (ps : List ℕ) → minimum ps ≡ none → (p : ℕ) → Member p ps → ⊥
    empty [] h p k = k
    empty (q ∷ qs) h p k = cc

minimum-Member : (ps : List ℕ) (m : ℕ) → minimum ps ≡ some m → Member m ps
minimum-Member [] m h = cc
minimum-Member (q ∷ qs) m h = elim (Option-cases (minimum qs)) [
  | inl alone ↦ inl (ground (arith, alone))
  | inr (n, found) ↦
      let deep = minimum-Member qs n found in
      let which : (q ≡ m) ⊎ (n ≡ m) = ground (arith, found) in
      elim which [ inl here ↦ inl here | inr there ↦ inr (subst (λ x. Member x qs) there deep) ]
]

and_true : (a b : Bool) → (a && b) ≡ true → (a ≡ true) × (b ≡ true)
and_true a b h = ground arith

all-contains :
    (xs ys : List ℕ) → (all (contains ys) xs ≡ true) ↔ ((p : ℕ) → Member p xs → Member p ys)
all-contains [] ys = (λ h p m. absurd m, λ h. refl)
all-contains (x ∷ xs) ys =
    let rest = all-contains xs ys in
    (
      λ h p m.
          let parts = and_true (contains ys x) (all (contains ys) xs) h in
          elim m [
            | inl same ↦ subst (λ q. Member q ys) same ((contains_iff ys x).0 parts.0)
            | inr deep ↦ rest.0 parts.1 p deep
          ],
      λ h. rw ((contains_iff ys x).1 (h x (inl refl)), rest.1 (λ p m. h p (inr m))) refl,
    )

same_set_iff : (xs ys : List ℕ) → (same_set xs ys ≡ true) ↔ ((p : ℕ) → Member p xs ↔ Member p ys)
same_set_iff xs ys = (
  λ h p.
      let parts = and_true (all (contains ys) xs) (all (contains xs) ys) h in
      ((all-contains xs ys).0 parts.0 p, (all-contains ys xs).0 parts.1 p),
  λ h. rw ((all-contains xs ys).1 (λ p. (h p).0), (all-contains ys xs).1 (λ p. (h p).1)) refl,
)

Member-snoc : (ps : List ℕ) (q p : ℕ) → Member p (ps ++ q ∷ []) ↔ (Member p ps ⊎ (q ≡ p))
Member-snoc [] q p = ground arith
Member-snoc (x ∷ ps) q p = let rest = Member-snoc ps q p in ground arith

module _ {ℓ} {T : Type ℓ} where
  -- The coordinator is a process of the view, and no process of the view has a smaller number; a
  -- view has one unless it has no process.
  pub get_coordinator_lem :
      (g : GroupView T) (m : ℕ)
      → get_coordinator g ≡ some m
      → Member m g.processes × ((p : ℕ) → Member p g.processes → m ≤ p)
  unfolding get_coordinator
  get_coordinator_lem g m h = (minimum-Member g.processes m h, minimum-le g.processes m h)

  -- `==` on views answers true exactly if they have the same processes and the same node numbers,
  -- whatever the order and however often each occurs.
  pub eq_same_members :
      (a b : GroupView T)
      → (eq a b ≡ true) ↔ (
          ((p : ℕ) → Member p a.processes ↔ Member p b.processes)
          × ((i : ℕ) → Member i (node_ids a) ↔ Member i (node_ids b)))
  unfolding eq
  eq_same_members a b =
      let procs = same_set_iff a.processes b.processes in
      let nodes = same_set_iff (node_ids a) (node_ids b) in
      (
        λ h.
            let parts =
              and_true (same_set a.processes b.processes) (same_set (node_ids a) (node_ids b)) h in
            (procs.0 parts.0, nodes.0 parts.1),
        λ h. rw (procs.1 h.0, nodes.1 h.1) refl,
      )

  -- `add_process` adds the process and no other, and adding it again changes nothing.
  pub add_process_lem :
      (g : GroupView T) (pid p : ℕ)
      → (Member p (add_process pid g).processes ↔ (Member p g.processes ⊎ (pid ≡ p)))
        × (add_process pid (add_process pid g) ≡ add_process pid g)
  unfolding add_process
  add_process_lem g pid p = elim (Bool-cases (contains g.processes pid)) [
    | inl there ↦
        let known = (contains_iff g.processes pid).0 there in
        rw (there, there)
          (
            (
              λ m. inl m,
              λ s. elim s [ inl m ↦ m | inr same ↦ subst (λ q. Member q g.processes) same known ],
            ),
            refl,
          )
    | inr missing ↦
        let now =
          (contains_iff (g.processes ++ pid ∷ []) pid).1
            ((Member-snoc g.processes pid pid).1 (inr refl)) in
        rw (missing, now) (Member-snoc g.processes pid p, refl)
  ]
