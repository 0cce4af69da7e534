-- ===== src/Monster/Read.antt =====
-- `monster_read` of src/algorithms/monster.rs, with its wait for the read offset. The nodes are those
-- at the time of the two reads behind the wait.
use rep_cxl.Prelude.{
  ℕ, ◌≤◌, ◌<◌, ◌+◌, ◌-◌, ◌/◌, suc, Option-cases, ap, ◌==◌, if◌then◌else◌, ◌≡◌, refl, Bool, true,
  false, Bool-cases, Option, none, some, inl, inr, ◌&&◌, List, [], ◌∷◌, length, All, arith,
}
use rep_cxl.Prelude.Run.{Run, ok, ◌>>=◌}
use rep_cxl.Request
use rep_cxl.Request.{Wid, ReadReturn, read_safe, read_dirty}
use rep_cxl.Shmem.{ObjectMemoryEntry, MemoryNode}
use rep_cxl.Memio.{MemResult, done, memory_error, Snapshots, at_rest, mem_readends}
use rep_cxl.Timer.{Clock, round_start_of, wait_round_progress}
use rep_cxl.Timer.Rounds.{spin_until_ends}
use mathlib.Core.Path.{subst}
use rep_cxl.Memio.Replicas.{
  Ready, AllHold, store_first, mem_readends-store_first, mem_readends-AllHold,
}

-- `Result<ReadReturn<T>, String>`: the error messages, one with the node that failed.
pub data ReadResult {ℓ} (T : Type ℓ) : Type ℓ where
  got : ReadReturn T → ReadResult T
  read_failed : ℕ → ReadResult T
  read_ack_lost : ReadResult T
  -- The fuel of the wait ran out.
  read_waits : ReadResult T

-- What a read knows of its context.
pub record ReadEnv (F : Type 0) : Type 0 where
  pub start_instant : ℕ
  pub round_time : ℕ
  pub read_offset : Option F

-- What the wait of a read meets: the operations on `f64`, ROUND_SLEEP_RATIO, and the clock from the
-- reading `reading` on, for at most `fuel` readings in its loop.
pub record Waiting (F : Type 0) : Type 0 where
  pub in_unit : F → Bool
  pub less : F → F → Bool
  pub mul_f64 : ℕ → F → ℕ
  pub round_sleep_ratio : F
  pub fuel : ℕ
  pub clock : Clock
  pub reading : ℕ

-- What a whole read meets.
abbrev pub Meets {ℓ} : Type 0 → Type ℓ → Type ℓ
Meets F T = Waiting F × Snapshots T

-- The reading of the clock that ended the wait.
unfoldable pub wait_offset : {F : Type 0} → ReadEnv F → Waiting F → Run (Option ℕ)
unfolding wait_round_progress
wait_offset env w = elim env.read_offset [
  | none ↦ ok (some w.reading)
  | some offset ↦
      wait_round_progress w.in_unit w.less w.mul_f64 w.fuel w.clock w.reading offset
        env.start_instant env.round_time w.round_sleep_ratio
]

module _ {ℓ} {T : Type ℓ} where
  -- The fold over the states behind the first: whether all have its identifier, and the latest.
  unfoldable pub scan :
      Wid → Bool → ObjectMemoryEntry T → List (ObjectMemoryEntry T) → Bool × ObjectMemoryEntry T
  unfolding Request.eq Request.gt
  scan first same best [] = (same, best)
  scan first same best (s ∷ rest) =
      scan first (same && Request.eq s.wid first) (if Request.gt s.wid best.wid then s else best)
        rest

  unfoldable pub read_return : ObjectMemoryEntry T × ObjectMemoryEntry T → ReadReturn T
  unfolding scan
  read_return (first, last) =
      let (consistent, latest) = scan first.wid true first (last ∷ []) in
      if consistent then read_safe latest.value else read_dirty latest.value

  abbrev pub read_result : MemResult (ObjectMemoryEntry T × ObjectMemoryEntry T) → ReadResult T
  unfolding read_return
  read_result (done ends) = got (read_return ends)
  read_result (memory_error k) = read_failed k

  abbrev pub read_after : (ℕ → Bool) → ℕ → Snapshots T → Option ℕ → Run (ReadResult T)
  unfolding read_return mem_readends
  read_after fails offset nodes none = ok read_waits
  read_after fails offset nodes (some k) = do
    ends ← mem_readends fails offset nodes
    ok (read_result ends)

  unfoldable pub monster_read :
      {F : Type 0} → ReadEnv F → (ℕ → Bool) → ℕ → Meets F T → Run (ReadResult T)
  unfolding wait_offset read_return mem_readends
  monster_read env fails offset (w, nodes) = do
    waited ← wait_offset env w
    read_after fails offset nodes waited

module _ {F : Type 0} where
  -- The end of the wait for an offset within the round of the first reading.
  unfoldable pub target_of : ReadEnv F → Waiting F → F → ℕ
  unfolding round_start_of
  target_of env w offset =
      round_start_of env.start_instant env.round_time
        ((w.clock w.reading - env.start_instant) / env.round_time)
      + w.mul_f64 env.round_time offset

  -- There is no read offset; or the ratio of the sleep and the offset are fractions, the offset not
  -- below the ratio, rounds take time, and the clock reaches the end of the wait within the fuel.
  abbrev pub EndsAt : ReadEnv F → Waiting F → Option F → Type 0
  EndsAt env w none = Unit
  EndsAt env w (some offset) =
      (w.in_unit w.round_sleep_ratio ≡ true)
      × (w.in_unit offset ≡ true)
      × (w.less offset w.round_sleep_ratio ≡ false)
      × (0 < env.round_time)
      × ((n : ℕ) × (n < w.fuel) × (target_of env w offset ≤ w.clock (suc w.reading + n)))

  abbrev pub Ends : ReadEnv F → Waiting F → Type 0
  Ends env w = EndsAt env w env.read_offset

  pub wait_offset-Ends :
      (env : ReadEnv F) (w : Waiting F) → Ends env w → (k : ℕ) × (wait_offset env w ≡ ok (some k))
  unfolding wait_offset wait_round_progress target_of
  wait_offset-Ends env w ends = elim (Option-cases env.read_offset) [
    | inl none_set ↦ (w.reading, rw none_set refl)
    | inr (offset, set_to) ↦
        let at_offset : EndsAt env w (some offset) = subst (EndsAt env w) set_to ends in
        let (ratio, fraction, order, long, (n, few, reach)) = at_offset in
        let (k, e) =
          spin_until_ends w.fuel w.clock (target_of env w offset) (suc w.reading) n few reach in
        let positive : (env.round_time == 0) ≡ false = ground arith in
        (k, rw (set_to, ratio, fraction, order, positive) (ap ok e))
  ]

eq_refl : (a : Wid) → Request.eq a a ≡ true
unfolding Request.eq
eq_refl a = ground arith

eq_sym : (a b : Wid) → Request.eq a b ≡ false → Request.eq b a ≡ false
unfolding Request.eq
eq_sym a b h = ground arith

module _ {ℓ} {T : Type ℓ} where
  read_return_equal : (e : ObjectMemoryEntry T) → read_return (e, e) ≡ read_safe e.value
  unfolding read_return
  read_return_equal e = elim (Bool-cases (Request.gt e.wid e.wid)) [
    | inl later ↦ rw (eq_refl e.wid, later) refl
    | inr not_later ↦ rw (eq_refl e.wid, not_later) refl
  ]

  read_return_differs :
      (new old : ObjectMemoryEntry T)
      → Request.eq old.wid new.wid ≡ false
      → read_return (new, old)
        ≡ read_dirty (if Request.gt old.wid new.wid then old.value else new.value)
  unfolding read_return
  read_return_differs new old differ = elim (Bool-cases (Request.gt old.wid new.wid)) [
    | inl later ↦ rw (differ, later) refl
    | inr not_later ↦ rw (differ, not_later) refl
  ]

  -- What a read answers of a write of `new` over `old` that had reached `k` of `n` nodes when the
  -- first was read, and `later` when the last was: "new-old" and "old-new" are dirty.
  unfoldable pub answer_during :
      ObjectMemoryEntry T → ObjectMemoryEntry T → ℕ → ℕ → ℕ → ReadReturn T
  answer_during new old k later n =
      if k == 0
      then (if later == n
          then read_dirty (if Request.gt new.wid old.wid then new.value else old.value)
          else read_safe old.value)
      else if later == n
      then read_safe new.value
      else read_dirty (if Request.gt old.wid new.wid then old.value else new.value)

  -- When all nodes hold one entry, none fails and all accept the offset, `monster_read` is safe with
  -- its value.
  pub monster_read-AllHold :
      {F : Type 0} (env : ReadEnv F) (w : Waiting F) (fails : ℕ → Bool) (offset : ℕ)
      (ome : ObjectMemoryEntry T) (ns : List (MemoryNode T))
      → Ends env w
      → 0 < length ns
      → All (Ready fails offset) ns
      → AllHold fails offset ome ns
      → monster_read env fails offset (w, at_rest ns) ≡ ok (got (read_safe ome.value))
  unfolding monster_read read_after
  monster_read-AllHold env w fails offset ome ns ends some_node ready held =
      let (k, over) = wait_offset-Ends env w ends in
      rw
        (over, mem_readends-AllHold fails offset ome ns some_node ready held, read_return_equal ome)
        refl

  -- For a write of `new` over `old` with different identifiers that has reached the first `k` of
  -- the nodes when the first is read, and the first `later` when the last is read, where no node
  -- fails and all accept the offset, `monster_read`, once its wait for the read offset is over,
  -- answers: if `k` is 0, safe with the old value, but dirty if `later` is all nodes; otherwise
  -- dirty, but safe with the new value if `later` is all nodes. A dirty answer has the value of
  -- the later identifier. The wait ends if the ratio of its sleep and the offset are between 0 and
  -- 1, the offset is not below that ratio, the round time is positive, and the clock reaches the
  -- point in the round within the fuel.
  pub monster_read-store_first :
      {F : Type 0} (env : ReadEnv F) (w : Waiting F) (fails : ℕ → Bool) (offset : ℕ)
      (new old : ObjectMemoryEntry T) (k later : ℕ) (ns : List (MemoryNode T))
      → Ends env w
      → Request.eq old.wid new.wid ≡ false
      → 0 < length ns
      → k ≤ later
      → later ≤ length ns
      → All (Ready fails offset) ns
      → AllHold fails offset old ns
      → monster_read env fails offset
          (w, (store_first fails offset new k ns, store_first fails offset new later ns))
        ≡ ok (got (answer_during new old k later (length ns)))
  unfolding monster_read read_after answer_during
  monster_read-store_first env w fails offset new old k later ns ends differ some_node order le
        ready held =
      let (reading, over) = wait_offset-Ends env w ends in
      let shown =
        mem_readends-store_first fails offset new old k later ns some_node le ready held in
      elim (Bool-cases (k == 0)) [
        | inl first ↦ elim (Bool-cases (later == length ns)) [
          | inl last ↦
              rw
                (
                  over,
                  shown,
                  first,
                  last,
                  read_return_differs old new (eq_sym old.wid new.wid differ),
                )
                refl
          | inr partial ↦ rw (over, shown, first, partial, read_return_equal old) refl
        ]
        | inr some_done ↦ elim (Bool-cases (later == length ns)) [
          | inl last ↦ rw (over, shown, some_done, last, read_return_equal new) refl
          | inr partial ↦
              rw (over, shown, some_done, partial, read_return_differs new old differ) refl
        ]
      ]
