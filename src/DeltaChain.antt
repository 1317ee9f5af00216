-- ===== src/DeltaChain.antt =====
-- include/lib/dsa/delta_chain.h: the queue of timeouts. Each node holds the ticks that it is due after
-- the one before it. A node and the `struct list_double` inside it go by one address.
-- A loop runs on rounds: one for each node and one for the end.
pub mod Due
pub mod Parted
pub mod Insert
pub mod Tick
pub mod Dequeue
use twan.Base.{
  ℕ, zero, suc, ◌+◌, ◌-◌, ◌%◌, ◌^◌, Bool, true, false, ◌||◌, List, [], ◌∷◌, ◌==◌, ltb,
  if◌then◌else◌, update,
}
use twan.Dq.{
  Links, link, Dq, dq, set_next, set_prev, dq_pushfront, dq_insert, dq_dequeue, dq_peekfront,
  dq_popfront, dq_is_empty, dq_is_queued,
}

pub record DeltaChain : Type 0 where
  pub links : Links
  pub queue : Dq
  pub delta : ℕ → ℕ

pub delta_chain_init : DeltaChain → DeltaChain
delta_chain_init c = record c { queue = dq 0 0 }

-- the variables of the loop of `delta_chain_insert`
pub record Scan : Type 0 where
  pub cur : ℕ
  pub prev : ℕ
  pub remaining : ℕ
  pub deltas : ℕ → ℕ

pub insert_loop : ℕ → Links → Scan → Scan
insert_loop zero m s = s
insert_loop (suc rounds) m s = elim (s.cur == 0) [
  | true ↦ s
  | false ↦ elim (ltb s.remaining (s.deltas s.cur)) [
    | true ↦ record s { deltas = update s.deltas s.cur (s.deltas s.cur - s.remaining) }
    | false ↦
        insert_loop rounds m (record s {
          cur = (m s.cur).next;
          prev = s.cur;
          remaining = s.remaining - s.deltas s.cur;
        })
  ]
]

pub delta_chain_insert : (rounds node ticks : ℕ) → DeltaChain → DeltaChain
unfolding insert_loop
delta_chain_insert rounds node ticks c =
    let m = set_next (set_prev c.links node 0) node 0 in
    let (m1, d1) = dq_pushfront node (m, c.queue) in
    let s =
      insert_loop rounds m
        (record { cur = c.queue.front; prev = 0; remaining = ticks; deltas = c.delta }) in
    let (m2, d2) = dq_insert node s.prev s.cur (m, c.queue) in
    if dq_is_empty c.queue
    then record { links = m1; queue = d1; delta = update c.delta node ticks }
    else record { links = m2; queue = d2; delta = update s.deltas node s.remaining }

-- The nodes that the callback is given come in order; a callback leaves the chain alone.
advance_loop : ℕ → DeltaChain → List ℕ × DeltaChain
advance_loop zero c = ([], c)
advance_loop (suc rounds) c =
    let node = dq_peekfront c.queue in
    let (taken, m, d) = dq_popfront (c.links, c.queue) in
    elim (node == 0) [
      | true ↦ ([], c)
      | false ↦ elim (c.delta node == 0) [
        | false ↦ ([], c)
        | true ↦
            let (fired, c') = advance_loop rounds (record c { links = m; queue = d }) in
            (node ∷ fired, c')
      ]
    ]

pub delta_chain_advance : (rounds : ℕ) → DeltaChain → List ℕ × DeltaChain
unfolding advance_loop
delta_chain_advance rounds c = advance_loop rounds c

-- `--node->delta` is made only if the delta is not zero.
pub delta_chain_tick : (rounds : ℕ) → DeltaChain → List ℕ × DeltaChain
unfolding delta_chain_advance
delta_chain_tick rounds c =
    let node = c.queue.front in
    let c' = record c { delta = update c.delta node (c.delta node - 1) } in
    if dq_is_empty c.queue
    then ([], c)
    else if c.delta node == 0
    then delta_chain_advance rounds c
    else if c'.delta node == 0
    then delta_chain_advance rounds c'
    else ([], c')

pub delta_chain_dequeue_no_callback : (node : ℕ) → DeltaChain → DeltaChain
delta_chain_dequeue_no_callback node c =
    let next = (c.links node).next in
    let sum = (c.delta next + c.delta node) % 2 ^ 64 in
    let (m, d) = dq_dequeue node (c.links, c.queue) in
    record { links = m; queue = d; delta = if next == 0 then c.delta else update c.delta next sum }

pub delta_chain_is_queued : (node : ℕ) → DeltaChain → Bool
delta_chain_is_queued node c = dq_is_queued node (c.links, c.queue)

pub delta_chain_is_empty : DeltaChain → Bool
delta_chain_is_empty c = dq_is_empty c.queue

-- NULL is 0 for the node as for its link.
pub delta_chain_peekfront : DeltaChain → ℕ
delta_chain_peekfront c = dq_peekfront c.queue

pub delta_chain_is_front : (node : ℕ) → DeltaChain → Bool
unfolding delta_chain_peekfront
delta_chain_is_front node c = delta_chain_peekfront c == node

pub delta_chain_popfront_noupdate : DeltaChain → ℕ × DeltaChain
delta_chain_popfront_noupdate c =
    let (node, m, d) = dq_popfront (c.links, c.queue) in (node, record c { links = m; queue = d })
