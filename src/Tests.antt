-- ===== src/Tests.antt =====
-- Concrete states of the queues, and the theorems on the queues at one of them.
mod Sets
mod Sched
mod Memory
mod Sync
mod Locks
mod Mutex
mod Paging
mod Tlsf
mod Vsched
mod Vemulate
use twan.Base.{
  ℕ, ◌%◌, ◌<◌, ◌≡◌, refl, inl, true, false, [], ◌∷◌, ◌-◌, ◌^◌, none, arith, update, if◌then◌else◌,
  ◌==◌,
}
use twan.Bitmap.{
  Bmp256, bmp256_test, bmp256_set, bmp256_unset, bmp256_unset_all, bmp256_unset_all_above,
  bmp256_fls, bmp256_ffs,
}
use twan.Bitmap.Laws.{
  IsWords, test-unset_all, unset_all-IsWords, set-IsWords, test-unset, test-unset_all_above,
}
use twan.Bitmap.Scan.{HighestBelow, LowestFrom, bmp256_fls_lem, bmp256_ffs_lem}
use twan.Bitmap.Wide.{Bmp512, bmp512_set, bmp512_ffs2, bmp512_ffs_unset, ffs2_loop}
use twan.Bitmap.Wide.Laws.{IsWide, set-IsWide, member-set, Taken, ffs_unset_takes}
use twan.Bitmap.Wide.Pairs.{IsPair, OnlyThree, ffs2-IsPair, ffs2_misses}
use twan.Word.{fls64, ffs64}
use twan.Word.Highest.{IsHighest, fls64_nonzero}
use twan.Word.Lowest.{IsLowest, ffs64_nonzero}
use twan.Buddy.{
  buddy_alloc, BuddyArena, num_orders, buddy_is_block_free, buddy_block_set_free, buddy_block_clear,
  buddy_find_block_at_order, buddy_order_can_alloc, buddy_addr_to_block_idx,
  buddy_block_idx_to_addr,
}
use twan.Buddy.Blocks.{free-set_free, free-clear, IsFirstFree, find_block_lem, some-IsBlock}
use twan.Buddy.Alloc.{IsArena, Allocated, buddy_alloc_lem}
use twan.Buddy.Addresses.{SomeOrder, order_can_alloc_lem, addr_round_trip}
use twan.Sched.{
  Metadata, SchedPriorityq, sched_priorityq_push, sched_priorityq_dequeue, sched_priorityq_pop,
  sched_priorityq_get_bin, sched_pop, sched_age,
}
use twan.Sched.Push.{IsSched, sched_priorityq_push_lem, push-criticality_level}
use twan.Sched.Dequeue.{sched_priorityq_dequeue_lem}
use twan.Sched.Pop.{Found, TaskPopped, sched_priorityq_get_bin_lem, sched_priorityq_pop_lem}
use twan.Sched.Aging.{Aged, sched_age_lem}
use twan.Sched.Switch.{Decided, sched_pop_lem}
use twan.DeltaChain.{
  DeltaChain, delta_chain_insert, delta_chain_tick, delta_chain_dequeue_no_callback,
}
use twan.DeltaChain.Due.{total, due, total-cons, total-nil}
use twan.DeltaChain.Insert.{Inserted, delta_chain_insert_lem}
use twan.DeltaChain.Tick.{Ticked, delta_chain_tick_lem}
use twan.DeltaChain.Dequeue.{delta_chain_dequeue_lem}
use twan.Dq.{
  Links, link, Dq, dq, dq_pushback, dq_popfront, dq_insert, dq_dequeue, dq_clear, dq_is_queued,
}
use twan.Dq.Chain.{IsDq}
use twan.Dq.Insert.{Holds, dq_insert_lem, dq_pushback_lem}
use twan.Dq.Remove.{Left, dq_dequeue_lem}
use twan.Dq.Pop.{Popped, dq_popfront_lem, is_queued_lem, Cleared, dq_clear_lem}
use twan.Priorityq.{
  Priorityq, priorityq_push, priorityq_pushback, priorityq_popfront, priorityq_dequeue,
  priorityq_requeue,
}
use twan.Priorityq.Invariant.{Queues, IsPriorityq}
use twan.Priorityq.Push.{IsFree, priorityq_push_lem, priorityq_pushback_lem, priorityq_dequeue_lem}
use twan.Priorityq.Pop.{PoppedHighest, priorityq_popfront_lem, priorityq_requeue_lem}

abbrev unlinked : Links
unlinked a = link 0 0

abbrev no_bits : Bmp256
no_bits = bmp256_unset_all (record { bmp = λ i. 0 })

abbrev no_nodes : Queues
no_nodes i = []

abbrev empty_priorityq : Priorityq
empty_priorityq = record { priority_bins = λ i. dq 0 0; priority_bitmap = no_bits }

nil-IsDq : IsDq unlinked (dq 0 0) []
nil-IsDq = record {
  front_first = refl;
  rear_last = refl;
  chain = tt;
  distinct = tt;
  no_null = refl;
}

empty-IsPriorityq : IsPriorityq unlinked empty_priorityq no_nodes
empty-IsPriorityq = record {
  bins = λ i h. nil-IsDq;
  bits = λ i h. test-unset_all _ i h;
  words = unset_all-IsWords _;
  apart = λ i j a hi hj h k. ground arith;
}

-- node 5 at priority 7
abbrev one_node : Links × Priorityq
one_node = priorityq_pushback 5 7 (unlinked, empty_priorityq)

abbrev one_queue : Queues
one_queue = update no_nodes 7 (5 ∷ [])

one-IsPriorityq : IsPriorityq one_node.0 one_node.1 one_queue
one-IsPriorityq =
    priorityq_pushback_lem unlinked empty_priorityq no_nodes 5 7 empty-IsPriorityq (omega arith)
      (omega arith, λ i h. refl)

IsFree-six : IsFree one_queue 6
IsFree-six = (omega arith, λ i h. ground arith)

-- nodes 5 and 6 at priority 7
abbrev two_nodes : Links × Priorityq
two_nodes = priorityq_pushback 6 7 one_node

abbrev two_queue : Queues
two_queue = update one_queue 7 (5 ∷ 6 ∷ [])

two-IsPriorityq : IsPriorityq two_nodes.0 two_nodes.1 two_queue
two-IsPriorityq =
    priorityq_pushback_lem one_node.0 one_node.1 one_queue 6 7 one-IsPriorityq (omega arith)
      IsFree-six

priorityq_popfront_example :
    PoppedHighest two_nodes.0 two_nodes.1 two_queue (priorityq_popfront two_nodes)
priorityq_popfront_example =
    priorityq_popfront_lem two_nodes.0 two_nodes.1 two_queue two-IsPriorityq

-- nodes 1 and 2 in a queue
abbrev pair_steps : Links × Dq
pair_steps = dq_pushback 2 (dq_pushback 1 (unlinked, dq 0 0))

pair-IsDq : IsDq pair_steps.0 pair_steps.1 (1 ∷ 2 ∷ [])
pair-IsDq =
    let one = (dq_pushback_lem unlinked (dq 0 0) [] 1 nil-IsDq refl (omega arith)).0 in
    (dq_pushback_lem _ _ (1 ∷ []) 2 one refl (omega arith)).0

dq_insert_example : Holds pair_steps.0 (1 ∷ 3 ∷ 2 ∷ []) (dq_insert 3 1 2 pair_steps)
dq_insert_example =
    dq_insert_lem pair_steps.0 pair_steps.1 (1 ∷ []) (2 ∷ []) 3 pair-IsDq refl (omega arith)

dq_dequeue_example : Left pair_steps.0 (1 ∷ 2 ∷ []) 1 (2 ∷ []) (dq_dequeue 1 pair_steps)
dq_dequeue_example = dq_dequeue_lem pair_steps.0 pair_steps.1 [] (2 ∷ []) 1 pair-IsDq

dq_clear_example :
    let (g, d') = dq_clear 3 pair_steps in Cleared pair_steps.0 (1 ∷ 2 ∷ []) g × IsDq g d' []
dq_clear_example = dq_clear_lem 3 pair_steps.0 pair_steps.1 (1 ∷ 2 ∷ []) pair-IsDq (omega arith)

-- node 1 due in 2 ticks, node 2 in 5
abbrev two_timeouts : DeltaChain
two_timeouts = record {
  links = pair_steps.0;
  queue = pair_steps.1;
  delta = λ a. if a == 1 then 2 else 3;
}

delta_chain_insert_example :
    Inserted two_timeouts.delta (1 ∷ 2 ∷ []) 3 4 (delta_chain_insert 3 3 4 two_timeouts)
delta_chain_insert_example =
    delta_chain_insert_lem two_timeouts (1 ∷ 2 ∷ []) 3 4 3 pair-IsDq refl (omega arith)
      (omega arith)

delta_chain_tick_example :
    Ticked two_timeouts.delta (1 ∷ 2 ∷ []) 1 (delta_chain_tick 3 two_timeouts)
delta_chain_tick_example = delta_chain_tick_lem 3 two_timeouts (1 ∷ 2 ∷ []) pair-IsDq (omega arith)

two_timeouts_total : total two_timeouts.delta (1 ∷ 2 ∷ []) < 2 ^ 64
two_timeouts_total = ground (
  arith,
  total-cons two_timeouts.delta 1 (2 ∷ []),
  total-cons two_timeouts.delta 2 [],
  total-nil two_timeouts.delta,
)
