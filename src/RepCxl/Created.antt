-- ===== src/RepCxl/Created.antt =====
-- The instance that `RepCXL::new` of src/lib.rs makes.
use Prim.Native.String.{String}
use Prim.Native.Nat.{ℕ, zero, suc, ◌≤◌, ◌<◌}
use rep_cxl.Prelude.{
  ◌≡◌, refl, sym, ap, ◌∙◌, some, Option-cases, inl, inr, ltb, false, List, [], ◌∷◌, ◌++◌, map,
  length, arith,
}
use rep_cxl.Prelude.Run.{Run, ok, >>=-eq-ok}
use rep_cxl.Config.{Config, as_usize, validate}
use rep_cxl.Config.Processes.{count_from}
use rep_cxl.Config.Checks.{Member, NotEmpty, Accepted, validate_iff}
use rep_cxl.Shmem.{MemoryNode, min_by_id}
use rep_cxl.Group
use rep_cxl.Group.{GroupView, get_coordinator, get_master_node, push_node, node_ids, minimum}
use rep_cxl.Group.View.{get_coordinator_lem}
use rep_cxl.Group.Quotient.{no_coordinator}
use mathlib.Core.List.{append-nil}
use mathlib.Core.Path.{subst}
use rep_cxl.RepCxl.{RepCxl, open_nodes, new_view, instance_of, new}

module _ {ℓ} {T : Type ℓ} where
  -- A node has the number with which it was opened.
  abbrev pub Numbered : (ℕ → String → ℕ → Run (MemoryNode T)) → Type ℓ
  Numbered from_file =
      (id : ℕ) (path : String) (size : ℕ) (n : MemoryNode T)
      → from_file id path size ≡ ok n
      → n.id ≡ id

  map-snoc :
      (ns : List (MemoryNode T)) (n : MemoryNode T) (ids : List ℕ)
      → map (λ m. m.id) (ns ++ n ∷ []) ++ ids ≡ map (λ m. m.id) ns ++ n.id ∷ ids
  map-snoc [] n ids = refl
  map-snoc (m ∷ ns) n ids = ap (λ rest. m.id ∷ rest) (map-snoc ns n ids)

  length-snoc :
      (ns : List (MemoryNode T)) (n : MemoryNode T) → length (ns ++ n ∷ []) ≡ suc (length ns)
  length-snoc [] n = refl
  length-snoc (m ∷ ns) n = ap suc (length-snoc ns n)

  open_nodes_lem :
      (from_file : ℕ → String → ℕ → Run (MemoryNode T)) (mem_size : ℕ) (paths : List String)
      (g g' : GroupView T)
      → Numbered from_file
      → open_nodes from_file mem_size paths g ≡ ok g'
      → (node_ids g' ≡ node_ids g ++ count_from (length g.memory_nodes) (length paths))
        × (g'.processes ≡ g.processes)
        × (g'.self_id ≡ g.self_id)
  unfolding push_node
  open_nodes_lem from_file mem_size [] g g' numbered h =
      let same : g' ≡ g = cc in rw same (sym (append-nil _), refl, refl)
  open_nodes_lem from_file mem_size (path ∷ paths) g g' numbered h =
      let (n, opened, rest) = >>=-eq-ok (from_file (length g.memory_nodes) path mem_size) _ h in
      let named = numbered (length g.memory_nodes) path mem_size n opened in
      let (ids, procs, self) =
        open_nodes_lem from_file mem_size paths (push_node n g) g' numbered rest in
      let more =
        map-snoc g.memory_nodes n (count_from (suc (length g.memory_nodes)) (length paths)) in
      (ids ∙ rw (length-snoc g.memory_nodes n, more, named) refl, procs, self)

  -- The node with the number 0 is the master, if it stands first.
  min_by_id-zero :
      (n : MemoryNode T) (ns : List (MemoryNode T)) → n.id ≡ 0 → min_by_id (n ∷ ns) ≡ some n
  unfolding min_by_id
  min_by_id-zero n ns zero_id = elim (Option-cases (min_by_id ns)) [
    | inl alone ↦ rw alone refl
    | inr (m, found) ↦
        let least : ltb m.id n.id ≡ false = ground (arith, zero_id) in rw (found, least) refl
  ]

  master_of :
      (ns : List (MemoryNode T)) (count : ℕ)
      → 0 < count
      → map (λ n. n.id) ns ≡ count_from 0 count
      → (n : MemoryNode T) × (min_by_id ns ≡ some n) × (n.id ≡ 0)
  master_of ns zero some_node ids = absurd (omega arith)
  master_of [] (suc count) some_node ids = absurd (cc)
  master_of (n ∷ ns) (suc count) some_node ids =
      let zero_id : n.id ≡ 0 = cc in (n, min_by_id-zero n ns zero_id, zero_id)

  coordinator_of :
      (g : GroupView T) (p : ℕ)
      → Member p g.processes
      → (m : ℕ) × (get_coordinator g ≡ some m) × Member m g.processes × (m ≤ p)
  coordinator_of g p listed = elim (Option-cases (get_coordinator g)) [
    | inl nobody ↦ absurd (no_coordinator g p nobody listed)
    | inr (m, found) ↦
        let (there, low) = get_coordinator_lem g m found in (m, found, there, low p listed)
  ]

NotEmpty-pos {ℓ} : {A : Type ℓ} (xs : List A) → NotEmpty xs → 0 < length xs
NotEmpty-pos [] h = absurd h
NotEmpty-pos (x ∷ xs) h = omega arith

-- If a node has the number with which it is opened: an instance that `new` returns has an accepted
-- configuration, and its view has the configuration's own process and its processes, one node for
-- each path, numbered in their order from 0, the first of these as the master, and a coordinator,
-- which is one of the processes and at most the own.
pub new_complete {ℓ} :
    {F : Type 0} {T : Type ℓ} (from_file : ℕ → String → ℕ → Run (MemoryNode T)) (c : Config F)
    (now : ℕ) (r : RepCxl F T)
    → Numbered from_file
    → new from_file c now ≡ ok r
    → (p : ℕ) × Accepted c p
      × (r.view.self_id ≡ p)
      × (r.view.processes ≡ c.processes)
      × (node_ids r.view ≡ count_from 0 (length c.mem_nodes))
      × ((n : MemoryNode T) × (get_master_node r.view ≡ some n) × (n.id ≡ 0))
      × ((m : ℕ) × (get_coordinator r.view ≡ some m) × Member m r.view.processes × (m ≤ p))
unfolding new get_master_node Group.new
new_complete from_file c now r numbered h = elim (Option-cases (validate c)) [
  | inr (e, bad) ↦ absurd (let stuck = rw (bad, new) at h in cc)
  | inl valid ↦
      let (view, opened, made) =
        >>=-eq-ok (open_nodes from_file c.mem_size c.mem_nodes (new_view c)) _
          (rw (valid, new) at h) in
      let (p, accepted) = (validate_iff c).0 valid in
      let (own, listed, few, some_path, core) = accepted in
      let (ids, procs, self) =
        open_nodes_lem from_file c.mem_size c.mem_nodes (new_view c) view numbered opened in
      let same : instance_of c now view ≡ r = cc in
      let here : Member p view.processes = subst (λ ps. Member p ps) (sym procs) listed in
      rw (← same) (
        p,
        accepted,
        self ∙ ap as_usize own,
        procs,
        ids,
        master_of view.memory_nodes (length c.mem_nodes) (NotEmpty-pos c.mem_nodes some_path) ids,
        coordinator_of view p here,
      )
]
