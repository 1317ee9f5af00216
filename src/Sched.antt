-- ===== src/Sched.antt =====
-- src/kernel/sched/sched_dsa.c, sched_queue.c and sched_mcs.c: the queue of the ready tasks, with one
-- queue for all processors (CONFIG_KERNEL_SCHED_GLOBAL_QUEUE). There is a priority queue, a bin, for
-- each criticality; a task stands in the bin of each criticality up to its own, by a node for each.
-- `levels` is CONFIG_KERNEL_SCHED_NUM_CRITICALITIES. The lock around each operation is not modelled.
pub mod Bins
pub mod Push
pub mod Dequeue
pub mod Pop
pub mod Switch
pub mod Aging
use twan.Base.{
  ℕ, zero, suc, ◌+◌, ◌-◌, ◌*◌, ◌/◌, ◌%◌, ◌^◌, Bool, true, false, ◌&&◌, ◌||◌, Option, none, some,
  ◌==◌, ltb, leb, if◌then◌else◌, update,
}
use twan.Bitmap.{
  Bmp256, bmp256_and, bmp256_test, bmp256_unset, bmp256_fls, bmp256_set_all, bmp256_unset_all_above,
}
use twan.Dq.{Links}
use twan.Priorityq.{
  Priorityq, priorityq_awaiting_priority, priorityq_push, priorityq_dequeue, priorityq_peekfront,
  priorityq_is_queued,
}

-- the fields of `task->metadata` that the queue reads
pub record Metadata : Type 0 where
  pub priority : ℕ
  pub criticality : ℕ

pub record SchedPriorityq : Type 0 where
  pub bins : ℕ → Priorityq
  pub criticality_level : ℕ
  pub aging_bitmap : Bmp256
  pub iteration : ℕ

-- A bin of the array is changed in place.
abbrev pub put_bin : SchedPriorityq → ℕ → Priorityq → SchedPriorityq
put_bin q i b = record q { bins = update q.bins i b }

-- The priority and the criticality that the pointer arguments receive; the bin is that of the
-- criticality.
pub sched_priorityq_get_bin : SchedPriorityq → Option (ℕ × ℕ)
sched_priorityq_get_bin q = elim (priorityq_awaiting_priority (q.bins q.criticality_level)) [
  | some priority ↦ some (priority, q.criticality_level)
  | none ↦ elim (q.criticality_level == 0) [
    | true ↦ none
    | false ↦ elim (priorityq_awaiting_priority (q.bins 0)) [
      | none ↦ none
      | some priority ↦ some (priority, 0)
    ]
  ]
]

pub sched_priorityq_highest_priority : SchedPriorityq → Option ℕ
sched_priorityq_highest_priority q =
    elim (priorityq_awaiting_priority (q.bins q.criticality_level)) [
      | some priority ↦ some priority
      | none ↦ if ltb 0 q.criticality_level then priorityq_awaiting_priority (q.bins 0) else none
    ]

pub sched_reset_age : SchedPriorityq → SchedPriorityq
sched_reset_age q = record q { aging_bitmap = bmp256_set_all q.aging_bitmap; iteration = 0 }

-- A priority of -1 is `none`; `iteration` is a `u32`.
pub sched_age : (last_priority : ℕ) → SchedPriorityq → SchedPriorityq
unfolding sched_reset_age
sched_age last_priority q =
    let above = bmp256_unset_all_above q.aging_bitmap last_priority in
    let q1 = record q { aging_bitmap = above } in
    elim (bmp256_fls above) [
      | none ↦ sched_reset_age q1
      | some priority ↦
          if priority == 0
          then sched_reset_age q1
          else if q.iteration == priority * 2
          then record q1 { aging_bitmap = bmp256_unset above priority; iteration = 0 }
          else record q1 { iteration = (q.iteration + 1) % 2 ^ 32 }
    ]

abbrev pub put_bitmap : SchedPriorityq → ℕ → Bmp256 → SchedPriorityq
put_bitmap q i bitmap = put_bin q i (record (q.bins i) { priority_bitmap = bitmap })

-- sched_mcs.c; an error is `none`
pub sched_mcs_read_criticality_level : SchedPriorityq → ℕ
sched_mcs_read_criticality_level q = q.criticality_level

pub sched_mcs_dec_criticality_level : SchedPriorityq → Bool × SchedPriorityq
sched_mcs_dec_criticality_level q =
    if ltb 0 q.criticality_level
    then (true, record q { criticality_level = q.criticality_level - 1 })
    else (false, q)

module _ (levels : ℕ) where
  pub sched_mcs_write_criticality_level : (criticality : ℕ) → SchedPriorityq → Option SchedPriorityq
  sched_mcs_write_criticality_level criticality q =
      if ltb (levels - 1) criticality
      then none
      else some (record q { criticality_level = criticality })

  pub sched_mcs_inc_criticality_level : SchedPriorityq → Bool × SchedPriorityq
  sched_mcs_inc_criticality_level q =
      if ltb q.criticality_level (levels - 1)
      then (true, record q { criticality_level = q.criticality_level + 1 })
      else (false, q)

  -- `&task->nodes[i]`: the nodes of a task are numbered from `task * levels`.
  abbrev pub node_of : (task i : ℕ) → ℕ
  node_of task i = task * levels + i

  abbrev pub node_to_task : (node criticality : ℕ) → ℕ
  node_to_task node criticality = (node - criticality) / levels

  module _ (tasks : ℕ → Metadata) where
    -- the first rounds of the loop of `__sched_priorityq_push`
    push_bins : (rounds task : ℕ) → Links × SchedPriorityq → Links × SchedPriorityq
    push_bins zero task s = s
    push_bins (suc i) task s =
        let (m, q) = push_bins i task s in
        let (m1, b) = priorityq_push (node_of task i) (tasks task).priority false (m, q.bins i) in
        (m1, put_bin q i b)

    pub sched_priorityq_push : (task : ℕ) → Links × SchedPriorityq → Links × SchedPriorityq
    unfolding push_bins
    sched_priorityq_push task s = push_bins (suc (tasks task).criticality) task s

    -- the first rounds of the loop of `__sched_priorityq_dequeue`
    dequeue_bins : (rounds task : ℕ) → Links × SchedPriorityq → Links × SchedPriorityq
    dequeue_bins zero task s = s
    dequeue_bins (suc i) task s =
        let (m, q) = dequeue_bins i task s in
        let (m1, b) = priorityq_dequeue (node_of task i) (tasks task).priority (m, q.bins i) in
        (m1, put_bin q i b)

    pub sched_priorityq_dequeue : (task : ℕ) → Links × SchedPriorityq → Links × SchedPriorityq
    unfolding dequeue_bins
    sched_priorityq_dequeue task s = dequeue_bins (suc (tasks task).criticality) task s

    -- `__sched_priorityq_pop` of the bin that was found; the task comes first, and 0 is NULL
    pub pop_bin : (criticality : ℕ) → Links × SchedPriorityq → ℕ × Links × SchedPriorityq
    unfolding sched_priorityq_dequeue
    pop_bin criticality (m, q) =
        let node = priorityq_peekfront (q.bins criticality) in
        let task = node_to_task node criticality in
        let (m1, q1) = sched_priorityq_dequeue task (m, q) in (task, m1, q1)

    pub sched_priorityq_pop : Links × SchedPriorityq → ℕ × Links × SchedPriorityq
    unfolding sched_priorityq_get_bin pop_bin
    sched_priorityq_pop (m, q) = elim (sched_priorityq_get_bin q) [
      | none ↦ (0, m, q)
      | some (priority, criticality) ↦ pop_bin criticality (m, q)
    ]

    pub sched_priorityq_is_queued : (task : ℕ) → Links × SchedPriorityq → Bool
    sched_priorityq_is_queued task (m, q) =
        priorityq_is_queued (node_of task 0) (tasks task).priority (m, q.bins 0)

    -- the end of `__sched_priorityq_pop_age`: `bitmap` is the bin's own, `next` the priority
    pub pop_aged :
        (criticality next : ℕ) (bitmap : Bmp256)
        → Links × SchedPriorityq
        → ℕ × Links × SchedPriorityq
    unfolding sched_priorityq_pop sched_age
    pop_aged criticality next bitmap s =
        let (task, m1, q1) = sched_priorityq_pop s in
        let bitmap1 =
          if bmp256_test (q1.bins criticality).priority_bitmap next
          then bitmap
          else bmp256_unset bitmap next in
        (task, m1, put_bitmap (sched_age next q1) criticality bitmap1)

    pub sched_priorityq_pop_age : Links × SchedPriorityq → ℕ × Links × SchedPriorityq
    unfolding sched_priorityq_get_bin sched_reset_age pop_aged
    sched_priorityq_pop_age (m, q) = elim (sched_priorityq_get_bin q) [
      | none ↦ (0, m, q)
      | some (priority, criticality) ↦
          let bitmap = (q.bins criticality).priority_bitmap in
          let masked = put_bitmap q criticality (bmp256_and bitmap q.aging_bitmap) in
          let reset = put_bitmap (sched_reset_age masked) criticality bitmap in
          elim (priorityq_awaiting_priority (masked.bins criticality)) [
            | some next ↦ pop_aged criticality next bitmap (m, masked)
            | none ↦ elim (priorityq_awaiting_priority (reset.bins criticality)) [
              | none ↦ (0, m, reset)
              | some next ↦ pop_aged criticality next bitmap (m, reset)
            ]
          ]
    ]

    -- sched_queue.c without CONFIG_KERNEL_SCHED_AGING
    pub sched_pop_clean : Links × SchedPriorityq → ℕ × Links × SchedPriorityq
    unfolding sched_priorityq_pop
    sched_pop_clean (m, q) = elim (sched_priorityq_highest_priority q) [
      | none ↦ (0, m, q)
      | some priority ↦ sched_priorityq_pop (m, q)
    ]

    -- whether the task that comes next takes the processor from `current`
    abbrev pub takes_over : (level : ℕ) (current : Metadata) (next : ℕ × ℕ) → Bool
    takes_over level current (next_priority, next_criticality) =
        if leb level current.criticality
        then leb level next_criticality && leb current.priority next_priority
        else leb level next_criticality || leb current.priority next_priority

    pub sched_pop : (current : ℕ) → Links × SchedPriorityq → ℕ × Links × SchedPriorityq
    unfolding sched_priorityq_pop
    sched_pop current (m, q) = elim (sched_priorityq_get_bin q) [
      | none ↦ (0, m, q)
      | some next ↦
          if takes_over q.criticality_level (tasks current) next
          then sched_priorityq_pop (m, q)
          else (0, m, q)
    ]
