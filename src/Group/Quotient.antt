-- ===== src/Group/Quotient.antt =====
-- Views up to `==`: the order of processes and nodes does not matter.
use mathlib.Core.Quot
use mathlib.Core.Quot.{Quot, Quot-set}
use rep_cxl.Prelude.{
  ℕ, ◌≤◌, ◌≡◌, refl, sym, ap, ◌∙◌, ◌⊎◌, inl, inr, true, Option, none, some, Option-cases,
  Bool-cases, contains, List, [], ◌∷◌, ◌++◌, arith,
}
use rep_cxl.Config.Checks.{Member, contains_iff}
use rep_cxl.Group.{GroupView, minimum, smaller, add_process, get_coordinator, node_ids, eq}
use rep_cxl.Group.View.{get_coordinator_lem, eq_same_members, add_process_lem}

minimum-none : (ps : List ℕ) (p : ℕ) → minimum ps ≡ none → ¬ (Member p ps)
minimum-none [] p h m = m
minimum-none (q ∷ qs) p h m = cc

minimum-snoc : (ps : List ℕ) (p : ℕ) → minimum (ps ++ p ∷ []) ≡ some (smaller p (minimum ps))
minimum-snoc [] p = refl
minimum-snoc (q ∷ qs) p =
    let rest = minimum-snoc qs p in
    elim (Option-cases (minimum qs)) [
      | inl alone ↦ ground (arith, alone)
      | inr (m, found) ↦ ground (arith, found)
    ]

abbrev pub SameView {ℓ} : {T : Type ℓ} → GroupView T → GroupView T → Type 0
SameView a b = eq a b ≡ true

-- Views up to `==`.
abbrev pub Views {ℓ} : Type ℓ → Type ℓ
Views T = Quot (SameView {T = T})

module _ {ℓ} {T : Type ℓ} where
  differs :
      (a b : GroupView T) (m : ℕ)
      → SameView a b
      → get_coordinator a ≡ none
      → ¬ (get_coordinator b ≡ some m)
  unfolding get_coordinator
  differs a b m same no_a at_b =
      let members = ((eq_same_members a b).0 same).0 in
      let there = (get_coordinator_lem b m at_b).0 in
      minimum-none a.processes m no_a ((members m).1 there)

  -- A view with a process has a coordinator.
  pub no_coordinator :
      (g : GroupView T) (p : ℕ) → get_coordinator g ≡ none → ¬ (Member p g.processes)
  unfolding get_coordinator
  no_coordinator g p nobody = minimum-none g.processes p nobody

  SameView_sym : (a b : GroupView T) → SameView a b → SameView b a
  SameView_sym a b same =
      let (procs, nodes) = (eq_same_members a b).0 same in
      (eq_same_members b a).1 (λ p. ((procs p).1, (procs p).0), λ i. ((nodes i).1, (nodes i).0))

  -- Two equal views have the same coordinator.
  pub get_coordinator-eq :
      (a b : GroupView T) → SameView a b → get_coordinator a ≡ get_coordinator b
  get_coordinator-eq a b same =
      let members = ((eq_same_members a b).0 same).0 in
      elim (Option-cases (get_coordinator a)) [
        | inl no_a ↦ elim (Option-cases (get_coordinator b)) [
          | inl no_b ↦ no_a ∙ sym no_b
          | inr (m, at_b) ↦ absurd (differs a b m same no_a at_b)
        ]
        | inr (m, at_a) ↦ elim (Option-cases (get_coordinator b)) [
          | inl no_b ↦ absurd (differs b a m (SameView_sym a b same) no_b at_a)
          | inr (n, at_b) ↦
              let (in_a, low_a) = get_coordinator_lem a m at_a in
              let (in_b, low_b) = get_coordinator_lem b n at_b in
              let le = low_a n ((members n).1 in_b) in
              let ge = low_b m ((members m).0 in_a) in
              let same_one : m ≡ n = omega arith in at_a ∙ ap some same_one ∙ sym at_b
        ]
      ]

  node_ids-add_process : (pid : ℕ) (g : GroupView T) → node_ids (add_process pid g) ≡ node_ids g
  unfolding add_process
  node_ids-add_process pid g = ground arith

  add_process-eq :
      (pid : ℕ) (a b : GroupView T)
      → SameView a b
      → SameView (add_process pid a) (add_process pid b)
  add_process-eq pid a b same =
      let (procs, nodes) = (eq_same_members a b).0 same in
      (eq_same_members (add_process pid a) (add_process pid b)).1 (
        λ p.
            let at_a = (add_process_lem a pid p).0 in
            let at_b = (add_process_lem b pid p).0 in
            (
              (λ m. at_b.1 (moved (procs p).0 (at_a.0 m))),
              λ m. at_a.1 (moved (procs p).1 (at_b.0 m)),
            ),
        λ i. rw (node_ids-add_process pid a, node_ids-add_process pid b) (nodes i),
      )
    where
      moved : {A B C : Type 0} → (A → B) → A ⊎ C → B ⊎ C
      moved f (inl a) = inl (f a)
      moved f (inr c) = inr c

  pub coordinator : Views T → Option ℕ
  coordinator = Quot.lift (hlevel) get_coordinator get_coordinator-eq

  pub add : ℕ → Views T → Views T
  add pid =
      Quot.lift Quot-set (λ g. Quot.mk (add_process pid g))
        (λ a b same. Quot.sound (add_process-eq pid a b same))

  Member-swap :
      (p q x : ℕ) (g : GroupView T)
      → Member x (add_process p (add_process q g)).processes
      → Member x (add_process q (add_process p g)).processes
  Member-swap p q x g m =
      let outer = (add_process_lem (add_process q g) p x).0 in
      let inner = (add_process_lem g q x).0 in
      let outer' = (add_process_lem (add_process p g) q x).0 in
      let inner' = (add_process_lem g p x).0 in
      elim (outer.0 m) [
        | inl deep ↦ elim (inner.0 deep) [
          | inl old ↦ outer'.1 (inl (inner'.1 (inl old)))
          | inr new ↦ outer'.1 (inr new)
        ]
        | inr new ↦ outer'.1 (inl (inner'.1 (inr new)))
      ]

  add_process-swap :
      (p q : ℕ) (g : GroupView T)
      → SameView (add_process p (add_process q g)) (add_process q (add_process p g))
  add_process-swap p q g =
      (eq_same_members (add_process p (add_process q g)) (add_process q (add_process p g))).1 (
        λ x. (Member-swap p q x g, Member-swap q p x g),
        λ i.
            rw
              (
                node_ids-add_process p (add_process q g),
                node_ids-add_process q g,
                node_ids-add_process q (add_process p g),
                node_ids-add_process p g,
              )
              (λ m. m, λ m. m),
      )

  get_coordinator-add_process :
      (pid : ℕ) (g : GroupView T)
      → get_coordinator (add_process pid g) ≡ some (smaller pid (get_coordinator g))
  unfolding get_coordinator add_process
  get_coordinator-add_process pid g = elim (Bool-cases (contains g.processes pid)) [
    | inr missing ↦ rw missing (minimum-snoc g.processes pid)
    | inl there ↦
        let known = (contains_iff g.processes pid).0 there in
        elim (Option-cases (minimum g.processes)) [
          | inl nobody ↦ absurd (minimum-none g.processes pid nobody known)
          | inr (m, found) ↦
              let low : m ≤ pid = (get_coordinator_lem g m found).1 pid known in
              rw there (ground (arith, found, low))
        ]
  ]

  -- On views up to `==`: the order in which processes are added does not matter, adding a process
  -- again changes nothing, and the coordinator after a process was added is the smaller of that
  -- process and the coordinator before, if there was one.
  pub add_laws :
      (p q : ℕ) (v : Views T)
      → (add p (add q v) ≡ add q (add p v))
        × (add p (add p v) ≡ add p v)
        × (coordinator (add p v) ≡ some (smaller p (coordinator v)))
  unfolding add coordinator
  add_laws p q =
      Quot.ind (λ v. hlevel Quot-set)
        (λ g. (
          Quot.sound (add_process-swap p q g),
          ap Quot.mk (add_process_lem g p p).1,
          get_coordinator-add_process p g,
        ))

-- No process stands twice in the list.
abbrev pub Distinct : List ℕ → Type 0
Distinct [] = Unit
Distinct (p ∷ ps) = (¬ (Member p ps)) × Distinct ps

Member-snoc : (x p : ℕ) (ps : List ℕ) → Member x (ps ++ p ∷ []) → Member x ps ⊎ (p ≡ x)
Member-snoc x p [] m = elim m [ inl same ↦ inr same | inr never ↦ absurd never ]
Member-snoc x p (q ∷ ps) m = elim m [
  | inl here ↦ inl (inl here)
  | inr later ↦ elim (Member-snoc x p ps later) [
    | inl there ↦ inl (inr there)
    | inr last ↦ inr last
  ]
]

Distinct-snoc : (p : ℕ) (ps : List ℕ) → Distinct ps → ¬ (Member p ps) → Distinct (ps ++ p ∷ [])
Distinct-snoc p [] d missing = (λ never. never, tt)
Distinct-snoc p (q ∷ ps) d missing = (
  λ m. elim (Member-snoc q p ps m) [ inl again ↦ d.0 again | inr same ↦ missing (inl (sym same)) ],
  Distinct-snoc p ps d.1 (λ m. missing (inr m)),
)

module _ {ℓ} {T : Type ℓ} where
  add_process-Distinct :
      (p : ℕ) (g : GroupView T) → Distinct g.processes → Distinct (add_process p g).processes
  unfolding add_process
  add_process-Distinct p g d = elim (Bool-cases (contains g.processes p)) [
    | inl there ↦ rw there d
    | inr missing ↦
        rw missing
          (Distinct-snoc p g.processes d (λ m. let there = (contains_iff g.processes p).1 m in cc))
  ]

  -- For a view in which no process stands twice: adding a process again gives the very same view, and
  -- no process stands twice then either. Up to `==`, the order in which processes are added does not
  -- matter, and the coordinator after a process was added is the smaller of that process and the
  -- coordinator before, if there was one.
  pub add_process_laws :
      (p q : ℕ) (g : GroupView T)
      → Distinct g.processes
      → (add_process p (add_process p g) ≡ add_process p g)
        × Distinct (add_process p g).processes
        × (add p (add q (Quot.mk g)) ≡ add q (add p (Quot.mk g)))
        × (coordinator (add p (Quot.mk g)) ≡ some (smaller p (coordinator (Quot.mk g))))
  add_process_laws p q g d =
      let (swap, again, least) = add_laws p q (Quot.mk g) in
      ((add_process_lem g p p).1, add_process-Distinct p g d, swap, least)
