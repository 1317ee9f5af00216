-- ===== src/Dq.antt =====
-- include/lib/dsa/dq.h: the intrusive doubly linked list. A node stands in the object that it links,
-- so every node exists: the store gives the two links of each address, and address 0 is NULL.
-- A function takes the store with the list that it changes, and returns both.
pub mod Chain
pub mod Insert
pub mod Remove
pub mod Pop
use twan.Base.{ℕ, zero, suc, Bool, true, false, not, ◌&&◌, ◌||◌, ◌==◌, if◌then◌else◌, update}

-- `struct list_double`
pub record Link : Type 0 where
  pub next : ℕ
  pub prev : ℕ

abbrev pub Links : Type 0
Links = ℕ → Link

abbrev pub link : ℕ → ℕ → Link
link n p = record { next = n; prev = p }

pub record Dq : Type 0 where
  pub front : ℕ
  pub rear : ℕ

abbrev pub dq : ℕ → ℕ → Dq
dq f r = record { front = f; rear = r }

abbrev pub set_next : Links → ℕ → ℕ → Links
set_next m a n = update m a (link n (m a).prev)

abbrev pub set_prev : Links → ℕ → ℕ → Links
set_prev m a p = update m a (link (m a).next p)

unfoldable pub dq_pushfront : ℕ → Links × Dq → Links × Dq
dq_pushfront node (m, d) =
    let m1 = set_prev m node 0 in
    let m2 = set_next m1 node d.front in
    let d2 = record d { front = node } in
    if (m2 node).next == 0
    then (m2, record d2 { rear = node })
    else (set_prev m2 (m2 node).next node, d2)

unfoldable pub dq_pushback : ℕ → Links × Dq → Links × Dq
dq_pushback node (m, d) =
    let m1 = set_next m node 0 in
    let m2 = set_prev m1 node d.rear in
    let d2 = record d { rear = node } in
    if (m2 node).prev == 0
    then (m2, record d2 { front = node })
    else (set_next m2 (m2 node).prev node, d2)

-- PUSHFRONT is `true`
unfoldable pub dq_push : ℕ → Bool → Links × Dq → Links × Dq
dq_push node direction s = if direction then dq_pushfront node s else dq_pushback node s

unfoldable pub dq_dequeue : ℕ → Links × Dq → Links × Dq
dq_dequeue node (m, d) =
    let s : Links × Dq =
      if (m node).next == 0
      then (m, record d { rear = (m node).prev })
      else (set_prev m (m node).next (m node).prev, d) in
    let (m1, d1) = s in
    let t : Links × Dq =
      if (m1 node).prev == 0
      then (m1, record d1 { front = (m1 node).next })
      else (set_next m1 (m1 node).prev (m1 node).next, d1) in
    let (m2, d2) = t in (set_prev (set_next m2 node 0) node 0, d2)

unfoldable pub dq_peekfront : Dq → ℕ
dq_peekfront d = d.front

-- The node that is returned comes first; 0 is NULL.
unfoldable pub dq_popfront : Links × Dq → ℕ × Links × Dq
dq_popfront (m, d) =
    let node = d.front in
    let d1 = record d { front = (m node).next } in
    let s : Links × Dq =
      if d1.front == 0 then (m, record d1 { rear = 0 }) else (set_prev m d1.front 0, d1) in
    let (m2, d2) = s in
    if node == 0 then (0, m, d) else (node, set_next (set_prev m2 node 0) node 0, d2)

pub dq_insert : (node prev next : ℕ) → Links × Dq → Links × Dq
dq_insert node prev next (m, d) =
    let m1 = set_next (set_prev m node prev) node next in
    let s : Links × Dq =
      if next == 0 then (m1, record d { rear = node }) else (set_prev m1 next node, d) in
    let (m2, d2) = s in
    if prev == 0 then (m2, record d2 { front = node }) else (set_next m2 prev node, d2)

pub dq_is_queued : ℕ → Links × Dq → Bool
dq_is_queued node (m, d) = not ((m node).prev == 0) || (not ((m node).next == 0) || d.front == node)

pub dq_is_empty : Dq → Bool
dq_is_empty d = d.front == 0

-- The loop of `dq_clear`, on one round for each node and one for the end.
clear_loop : ℕ → ℕ → Links → Links
clear_loop zero cur m = m
clear_loop (suc rounds) cur m = elim (cur == 0) [
  | true ↦ m
  | false ↦ clear_loop rounds (m cur).next (set_next (set_prev m cur 0) cur 0)
]

pub dq_clear : (rounds : ℕ) → Links × Dq → Links × Dq
unfolding clear_loop
dq_clear rounds (m, d) = (clear_loop rounds d.front m, dq 0 0)
