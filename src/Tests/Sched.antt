-- ===== src/Tests/Sched.antt =====
-- The theorems on the queue of the ready tasks at one task.
use twan.Base.{ℕ, ◌%◌, ◌<◌, refl, [], ◌∷◌, arith, update}
use twan.Bitmap.{bmp256_set}
use twan.Bitmap.Laws.{set-IsWords}
use twan.Sched.{
  Metadata, SchedPriorityq, sched_priorityq_push, sched_priorityq_dequeue, sched_priorityq_pop,
  sched_pop, sched_age,
}
use twan.Sched.Push.{IsSched, sched_priorityq_push_lem, push-criticality_level}
use twan.Sched.Dequeue.{sched_priorityq_dequeue_lem}
use twan.Sched.Pop.{TaskPopped, sched_priorityq_pop_lem}
use twan.Sched.Aging.{Aged, sched_age_lem}
use twan.Sched.Switch.{Decided, sched_pop_lem}
use twan.Dq.{Links}
use twan.Priorityq.Invariant.{Queues}
use twan.Tests.{unlinked, no_bits, no_nodes, empty_priorityq, empty-IsPriorityq}
use twan.Tests.Sets.{one_bit, one-IsWords}

-- two levels of criticality, at level 1; each task has the priority of its number, and the odd tasks
-- are of criticality 1
abbrev metadata : ℕ → Metadata
metadata t = record { priority = t % 256; criticality = t % 2 }

abbrev no_tasks : SchedPriorityq
no_tasks = record {
  bins = λ i. empty_priorityq;
  criticality_level = 1;
  aging_bitmap = no_bits;
  iteration = 0;
}

no_tasks-IsSched : IsSched 2 metadata unlinked no_tasks no_nodes
no_tasks-IsSched = record { in_bins = λ i h. empty-IsPriorityq; ready = λ p t hp h. ground arith }

-- task 3 is ready
abbrev one_task : Links × SchedPriorityq
one_task = sched_priorityq_push 2 metadata 3 (unlinked, no_tasks)

abbrev one_ready : Queues
one_ready = update no_nodes 3 (3 ∷ [])

one_task-IsSched : IsSched 2 metadata one_task.0 one_task.1 one_ready
one_task-IsSched =
    sched_priorityq_push_lem 2 metadata unlinked no_tasks no_nodes 3 no_tasks-IsSched (omega arith)
      (omega arith) (omega arith) (λ p h. refl)

sched_priorityq_push_example :
    let (g, q') = sched_priorityq_push 2 metadata 4 one_task in
    IsSched 2 metadata g q' (update one_ready 4 (4 ∷ []))
sched_priorityq_push_example =
    sched_priorityq_push_lem 2 metadata one_task.0 one_task.1 one_ready 4 one_task-IsSched
      (omega arith) (omega arith) (omega arith) (λ p h. ground arith)

sched_priorityq_dequeue_example :
    let (g, q') = sched_priorityq_dequeue 2 metadata 3 one_task in
    IsSched 2 metadata g q' (update one_ready 3 [])
sched_priorityq_dequeue_example =
    sched_priorityq_dequeue_lem 2 metadata one_task.0 one_task.1 one_ready 3 [] [] one_task-IsSched
      (omega arith) refl

one_level : one_task.1.criticality_level < 2
one_level = omega (arith, push-criticality_level 2 metadata 3 (unlinked, no_tasks))

sched_priorityq_pop_example :
    TaskPopped 2 metadata one_task.1.criticality_level one_task.0 one_task.1 one_ready
      (sched_priorityq_pop 2 metadata one_task)
sched_priorityq_pop_example =
    sched_priorityq_pop_lem 2 metadata one_task.0 one_task.1 one_ready one_task-IsSched one_level

sched_pop_example :
    Decided 2 metadata 2 one_task.0 one_task.1 one_ready (sched_pop 2 metadata 2 one_task)
sched_pop_example =
    sched_pop_lem 2 metadata one_task.0 one_task.1 one_ready 2 one_task-IsSched one_level

-- priorities up to 100, and more rounds counted than those of priority 3
abbrev aged_tasks : SchedPriorityq
aged_tasks = record no_tasks { aging_bitmap = bmp256_set one_bit 3; iteration = 7 }

sched_age_example : Aged aged_tasks 3 (sched_age 3 aged_tasks)
sched_age_example = sched_age_lem aged_tasks 3 (set-IsWords one_bit 3 one-IsWords) (omega arith)
