-- ===== src/Wcc/Fast/Agree.antt =====
-- The two ways in which `FastWCC` of src/shmem/wcc.rs names the winner of an object.
use mathlib.Core.Bool.{false≢true}
use mathlib.Core.Option.{some-injective}
use rep_cxl.Prelude.{
  ℕ, ◌<◌, ltb, ◌==◌, ==_iff, if◌then◌else◌, ◌≡◌, refl, sym, ap, ◌∙◌, ◌↔◌, inl, inr, true, some, set,
  get_elem?, get_elem?-lt, get_elem?-set_self, arith, dec_lt,
}
use rep_cxl.Prelude.Run.{ok}
use rep_cxl.ObjectIndex.{max_objects}
use rep_cxl.Wcc.{max_processes}
use rep_cxl.Wcc.Bitmap.{Bitmap, set_bit, is_smallest, smallest}
use rep_cxl.Wcc.Bitmap.Members.{member, IsValid, set_bit-IsValid, member-set_bit, smallest_lem}
use rep_cxl.Wcc.Bitmap.Smallest.{is_smallest_iff}
use rep_cxl.Wcc.Fast.{FastWcc, bitmap_at, write, is_last, last}

-- For a member of a valid bitmap `is_smallest` and `smallest` agree.
pub is_smallest-smallest :
    (b : Bitmap) (pid : ℕ)
    → IsValid b
    → pid < max_processes
    → member b pid ≡ true
    → (is_smallest b pid ≡ true) ↔ (smallest b ≡ some pid)
is_smallest-smallest b pid v small inside =
    let law = is_smallest_iff b pid v small in
    elim (smallest_lem b v) [
      | inl (nobody, clear) ↦ absurd (false≢true (sym (clear pid) ∙ inside))
      | inr (p, found, low, there, least) ↦ (
        λ e.
            found
            ∙ ap some (elim (dec_lt p pid) [
              | yes below ↦ absurd (false≢true (sym (law.0 e p below) ∙ there))
              | no above ↦ elim (dec_lt pid p) [
                | yes over ↦ absurd (false≢true (sym (least pid over) ∙ inside))
                | no equal ↦ omega arith
              ]
            ]),
        λ e.
            let same : p ≡ pid = some-injective _ _ (sym found ∙ e) in
            law.1 (λ q lt. least q (omega arith)),
      )
    ]

module _ (f : FastWcc) (b : Bitmap) (oid : ℕ) (here : get_elem? f.obm oid ≡ some b)
    (known : oid < max_objects) where
  seen : bitmap_at f oid ≡ ok b
  seen = rw (bitmap_at, here) refl

  is_last_at : (pid : ℕ) → pid < max_processes → is_last f oid pid ≡ ok (is_smallest b pid)
  unfolding is_last
  is_last_at pid small =
      let o : ltb oid max_objects ≡ true = ground arith in
      let p : ltb pid max_processes ≡ true = ground arith in rw (o, p, seen) refl

  last_at : last f oid ≡ ok (smallest b)
  unfolding last
  last_at = let o : ltb oid max_objects ≡ true = ground arith in rw (o, seen) refl

  write_at :
      (pid : ℕ)
      → pid < max_processes
      → write f oid pid ≡ ok (record f { obm = set f.obm oid (set_bit b pid true) })
  unfolding write
  write_at pid small =
      let o : ltb oid max_objects ≡ true = ground arith in
      let p : ltb pid max_processes ≡ true = ground arith in rw (o, p, seen) refl

-- After a process below the maximal number has written to an object below theirs with a valid bitmap,
-- `is_last` accepts it exactly if `last` answers it.
pub is_last-last :
    (f : FastWcc) (b : Bitmap) (oid pid : ℕ)
    → get_elem? f.obm oid ≡ some b
    → IsValid b
    → oid < max_objects
    → pid < max_processes
    → (f' : FastWcc) × (write f oid pid ≡ ok f')
      × ((is_last f' oid pid ≡ ok true) ↔ (last f' oid ≡ ok (some pid)))
is_last-last f b oid pid here v known small =
    let b' = set_bit b pid true in
    let f' : FastWcc = record f { obm = set f.obm oid b' } in
    let there = get_elem?-set_self f.obm oid b' (get_elem?-lt f.obm oid here) in
    let same : (pid == pid) ≡ true = (==_iff pid pid).1 refl in
    let inside : member b' pid ≡ true =
      member-set_bit b pid true pid v small ∙ ap (λ t. if t then true else member b pid) same in
    let law = is_smallest-smallest b' pid (set_bit-IsValid b pid true v) small inside in
    let a = is_last_at f' b' oid there known pid small in
    let c = last_at f' b' oid there known in
    (
      f',
      write_at f b oid here known pid small,
      (
        λ e. c ∙ ap ok (law.0 (ok-injective (sym a ∙ e))),
        λ e. a ∙ ap ok (law.1 (ok-injective (sym c ∙ e))),
      ),
    )
  where
    ok-injective : {A : Type 0} {x y : A} → ok x ≡ ok y → x ≡ y
    ok-injective h = cc
