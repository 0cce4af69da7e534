-- ===== src/Shmem/Mapping.antt =====
-- `MemoryNode::from_file` and `addr_at` of src/shmem.rs, with addresses counted from the start of
-- the mapping. `size_of::<SharedState>()` depends on the layout that the compiler chooses, and the
-- file and the mapping are the system's: all three are parameters.
use rep_cxl.Prelude.{
  ℕ, ◌+◌, ◌*◌, ◌/◌, ◌≤◌, ◌<◌, ltb, leb, ◌≡◌, refl, ◌↔◌, ◌-◌, ◌%◌, Bool, true, Bool-cases, lt→ltb,
  inl, inr, arith,
}
use rep_cxl.Prelude.Run.{Run, ok, assert, ◌>>◌}

pub record Mapping : Type 0 where
  pub id : ℕ
  pub mapped : ℕ
  pub obj_start : ℕ
  pub size : ℕ

-- 2 MiB
abbrev pub page : ℕ
page = 2 * 1024 * 1024

module _ (state_size : ℕ) where
  unfoldable pub from_file : ℕ → Bool → Bool → ℕ → Run Mapping
  from_file id file_opens mmap_works size = do
    assert (ltb state_size size)
    assert file_opens
    assert (leb page size)
    assert mmap_works
    ok (record { id = id; mapped = size / page * page; obj_start = state_size; size = size })

unfoldable pub addr_at : Mapping → ℕ → Run ℕ
addr_at m offset = do assert (ltb offset m.size); ok (m.obj_start + offset)

-- Every address that a node hands out lies in its mapping.
pub InMapping : Mapping → Type 0
unfolding addr_at
InMapping m = (offset a : ℕ) → addr_at m offset ≡ ok a → a < m.mapped

fields :
    (state_size id size : ℕ) (m : Mapping)
    → from_file state_size id true true size ≡ ok m
    → (m.mapped ≡ size / page * page) × (m.obj_start ≡ state_size) × (m.size ≡ size) × (page ≤ size)
unfolding from_file
fields state_size id size m h = (ground arith, ground arith, ground arith, ground arith)

accepted :
    (m : Mapping) (offset : ℕ) → offset < m.size → addr_at m offset ≡ ok (m.obj_start + offset)
unfolding addr_at
accepted m offset low = rw (lt→ltb offset m.size low) refl

handed_out :
    (m : Mapping) (offset a : ℕ)
    → addr_at m offset ≡ ok a
    → (offset < m.size) × (m.obj_start + offset ≡ a)
unfolding addr_at
handed_out m offset a h = elim (Bool-cases (ltb offset m.size)) [
  | inl low ↦ (ground (arith, low), let e = rw low at h in cc)
  | inr high ↦ absurd (let stopped = rw high at h in cc)
]

-- A node that `from_file` maps hands out an address for an offset, the one behind the shared state by
-- that offset, exactly if the offset is below the size that was asked for. All these addresses lie in
-- the mapping exactly if the shared state is empty and the size is a whole number of pages: otherwise
-- `addr_at` accepts offsets whose addresses are behind the mapping.
pub addr_at-InMapping :
    (state_size id size offset : ℕ) (m : Mapping)
    → from_file state_size id true true size ≡ ok m
    → ((addr_at m offset ≡ ok (state_size + offset)) ↔ (offset < size))
      × (InMapping m ↔ ((state_size ≡ 0) × (size % page ≡ 0)))
unfolding InMapping
addr_at-InMapping state_size id size offset m h =
    let (pages, start, whole, room) = fields state_size id size m h in
    (
      (
        λ e. let (low, same) = handed_out m offset (state_size + offset) e in omega arith,
        λ low. rw (← start) (accepted m offset (omega arith)),
      ),
      (
        λ inside.
            let last = inside (size - 1) _ (accepted m (size - 1) (omega arith)) in
            (omega (arith, last), omega (arith, last)),
        λ (empty, even) o a e. let (low, same) = handed_out m o a e in omega arith,
      ),
    )
