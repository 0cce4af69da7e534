-- ===== src/Request.antt =====
-- src/request.rs: write identifiers, the two kinds of request, and what a read returns.
-- The sender of a kanal channel is the number of the channel; `fetch_add` on the trace counter is
-- explicit, and the time of `Instant::now()` is an argument.
pub mod Order
use rep_cxl.Prelude.{ℕ, ◌==◌, compare, Ordering, Bool, true, false, ◌&&◌}
use rep_cxl.Prelude.Words.{add64}
use rep_cxl.ObjectIndex.{ObjectInfo}

pub record Wid : Type 0 where
  pub round_num : ℕ
  pub process_id : ℕ

unfoldable pub eq : Wid → Wid → Bool
eq a b = a.round_num == b.round_num && a.process_id == b.process_id

unfoldable pub cmp : Wid → Wid → Ordering
cmp a b = elim (compare a.round_num b.round_num) [
  | Ordering.gt ↦ Ordering.gt
  | Ordering.lt ↦ Ordering.lt
  | Ordering.eq ↦ compare b.process_id a.process_id
]

-- `a < b` and `a > b`, from `partial_cmp`
unfoldable pub lt : Wid → Wid → Bool
unfolding cmp
lt a b = elim (cmp a b) [ Ordering.lt ↦ true | _ ↦ false ]

unfoldable pub gt : Wid → Wid → Bool
unfolding cmp
gt a b = elim (cmp a b) [ Ordering.gt ↦ true | _ ↦ false ]

pub data ReadReturn {ℓ} (T : Type ℓ) : Type ℓ where
  read_safe : T → ReadReturn T
  read_dirty : T → ReadReturn T

pub record WriteRequest {ℓ} (T : Type ℓ) : Type ℓ where
  pub obj_info : ObjectInfo
  pub value : T
  pub ack_tx : ℕ
  pub trace_id : ℕ
  pub enqueue_at : ℕ

pub record ReadRequest : Type 0 where
  pub obj_info : ObjectInfo
  pub ack_tx : ℕ

module _ {ℓ} {T : Type ℓ} where
  -- the request, and the trace counter after it
  unfoldable pub new_write_request : ObjectInfo → T → ℕ → ℕ → ℕ → WriteRequest T × ℕ
  new_write_request info value ack now trace = (
    record { obj_info = info; value = value; ack_tx = ack; trace_id = trace; enqueue_at = now },
    add64 trace 1,
  )

  unfoldable pub to_tuple : WriteRequest T → ObjectInfo × T × ℕ
  to_tuple r = (r.obj_info, r.value, r.ack_tx)
