-- ===== src/Tests/Sync.antt =====
-- Runs of the locks of subsys/sync.
use twan.Base.{ℕ, ◌≡◌, ◌≤◌, ◌⊎◌, refl, arith, update}
use twan.Sync.Spinlock.{spinlock, Spinlock, spinlock_init, idle, spin, entered, take, enter, unlock}
use twan.Sync.Spinlock.System.{System, by, Reach, initially, and_then, IsPromptRun}
use twan.Sync.Spinlock.System.Invariant.{served_before}
use twan.Sync.Spinlock.System.Safety.{mutual_exclusion, no_deadlock, no_overtaking}

abbrev lock : Spinlock
lock = spinlock 7 9

-- Processor 0 takes a ticket and enters; then processor 1 takes the next one.
abbrev one_inside : System
one_inside = record {
  shared = record { lock = spinlock 2 0; taken = 2 };
  procs = update (update (update (λ _. idle) 0 (spin 0)) 0 entered) 1 (spin 1);
}

abbrev one_run : Reach 2 lock one_inside
unfolding spinlock_init
one_run =
    and_then
      (and_then (and_then initially (by 0 (omega arith) take)) (by 0 (omega arith) (enter refl)))
      (by 1 (omega arith) take)

one_run-IsPromptRun : IsPromptRun one_run
unfolding spinlock_init IsPromptRun one_run
one_run-IsPromptRun = (((tt, λ i. tt), λ i. ground arith), λ i. ground arith)

mutual_exclusion_example : ◌≡◌ {A = ℕ} 0 0
mutual_exclusion_example = mutual_exclusion (omega arith) one_run one_run-IsPromptRun 0 0 refl refl

no_deadlock_example : (j : ℕ) × ((one_inside.procs j ≡ entered) ⊎ (one_inside.procs j ≡ spin 0))
no_deadlock_example = no_deadlock (omega arith) one_run one_run-IsPromptRun 1 1 refl

no_overtaking_example :
    served_before (record { lock = spinlock 2 1; taken = 2 }) 1 ≤ served_before one_inside.shared 1
no_overtaking_example =
    no_overtaking (omega arith) one_run one_run-IsPromptRun _ (by 0 (omega arith) unlock)
      (λ i. ground arith) 1 1 refl
