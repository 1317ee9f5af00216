-- ===== src/Priorityq.antt =====
-- include/lib/dsa/priorityq.h: 256 queues, one for each priority, and the set of the priorities
-- whose queue is not empty. A `u8 priority` is a number below 256; -1 is `none`.
pub mod Invariant
pub mod Push
pub mod Pop
use twan.Base.{ℕ, Bool, Option, none, some, if◌then◌else◌, update}
use twan.Bitmap.{Bmp256, bmp256_set, bmp256_unset, bmp256_fls}
use twan.Dq.{
  Links, Dq, dq_pushfront, dq_pushback, dq_push, dq_dequeue, dq_peekfront, dq_popfront, dq_is_empty,
  dq_is_queued,
}

pub record Priorityq : Type 0 where
  pub priority_bins : ℕ → Dq
  pub priority_bitmap : Bmp256

pub priorityq_set_priority : Priorityq → ℕ → Priorityq
priorityq_set_priority q priority = record q {
  priority_bitmap = bmp256_set q.priority_bitmap priority;
}

pub priorityq_unset_priority : Priorityq → ℕ → Priorityq
priorityq_unset_priority q priority = record q {
  priority_bitmap = bmp256_unset q.priority_bitmap priority;
}

pub priorityq_awaiting_priority : Priorityq → Option ℕ
priorityq_awaiting_priority q = bmp256_fls q.priority_bitmap

-- A queue of the array is changed in place.
abbrev pub set_bin : Priorityq → ℕ → Dq → Priorityq
set_bin q priority d = record q { priority_bins = update q.priority_bins priority d }

pub priorityq_pushfront : (node priority : ℕ) → Links × Priorityq → Links × Priorityq
unfolding priorityq_set_priority
priorityq_pushfront node priority (m, q) =
    let (m1, d) = dq_pushfront node (m, q.priority_bins priority) in
    (m1, priorityq_set_priority (set_bin q priority d) priority)

pub priorityq_pushback : (node priority : ℕ) → Links × Priorityq → Links × Priorityq
unfolding priorityq_set_priority
priorityq_pushback node priority (m, q) =
    let (m1, d) = dq_pushback node (m, q.priority_bins priority) in
    (m1, priorityq_set_priority (set_bin q priority d) priority)

pub priorityq_push : (node priority : ℕ) (direction : Bool) → Links × Priorityq → Links × Priorityq
unfolding priorityq_set_priority
priorityq_push node priority direction (m, q) =
    let (m1, d) = dq_push node direction (m, q.priority_bins priority) in
    (m1, priorityq_set_priority (set_bin q priority d) priority)

-- the end of `priorityq_dequeue` and `priorityq_popfront`
abbrev pub drop_if_empty : ℕ → Dq → Priorityq → Priorityq
drop_if_empty priority d q = if dq_is_empty d then priorityq_unset_priority q priority else q

pub priorityq_dequeue : (node priority : ℕ) → Links × Priorityq → Links × Priorityq
unfolding priorityq_unset_priority
priorityq_dequeue node priority (m, q) =
    let (m1, d) = dq_dequeue node (m, q.priority_bins priority) in
    (m1, drop_if_empty priority d (set_bin q priority d))

pub priorityq_peekfront : Priorityq → ℕ
unfolding priorityq_awaiting_priority
priorityq_peekfront q = elim (priorityq_awaiting_priority q) [
  | none ↦ 0
  | some priority ↦ dq_peekfront (q.priority_bins priority)
]

-- `priorityq_popfront` once the priority is found
pub pop_at : ℕ → Links × Priorityq → ℕ × Links × Priorityq
unfolding priorityq_unset_priority
pop_at priority (m, q) =
    let (node, m1, d) = dq_popfront (m, q.priority_bins priority) in
    (node, m1, drop_if_empty priority d (set_bin q priority d))

pub priorityq_popfront : Links × Priorityq → ℕ × Links × Priorityq
unfolding priorityq_awaiting_priority pop_at
priorityq_popfront (m, q) = elim (priorityq_awaiting_priority q) [
  | none ↦ (0, m, q)
  | some priority ↦ pop_at priority (m, q)
]

pub priorityq_is_queued : (node priority : ℕ) → Links × Priorityq → Bool
priorityq_is_queued node priority (m, q) = dq_is_queued node (m, q.priority_bins priority)

pub priorityq_requeue :
    (node new_priority old_priority : ℕ) (direction : Bool) → Links × Priorityq → Links × Priorityq
unfolding priorityq_dequeue priorityq_push
priorityq_requeue node new_priority old_priority direction s =
    priorityq_push node new_priority direction (priorityq_dequeue node old_priority s)
