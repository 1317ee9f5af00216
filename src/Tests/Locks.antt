-- ===== src/Tests/Locks.antt =====
-- Runs of the lock of readers and writers and of the queue lock.
use twan.Base.{ℕ, ◌≡◌, refl, true, false, none, some, arith, update}
use twan.Sync.Interleave.{System, by, initially, and_then}
use twan.Sync.Rwlock.{
  Rwlock, rwlock_init, reading, read_spin, write_spin, announce, drain, writing, read_busy,
  write_take, write_turn, write_announce, drain_end, writer_bits,
}
use twan.Sync.Rwlock
use twan.Sync.Rwlock.Safety.{write_exclusion, phase_fair, never_stuck}
use twan.Sync.Rwlock.Safety as RwlockRuns
use twan.Sync.Mcslock.{
  Mcslock, mcslock_init, link, await, owner, ready, init_next, clear_next, clear_state, swap_free,
  swap_queued, set_link, queued,
}
use twan.Sync.Mcslock
use twan.Sync.Mcslock.Safety.{one_owner, target-queued, waiter_progress}
use twan.Sync.Mcslock.Safety as McslockRuns

abbrev rw_lock : Rwlock
rw_lock = record { rin = 5; rout = 6; win = 7; wout = 8 }

-- Processor 0 writes; then processor 1 comes to read.
abbrev one_writes : System Rwlock Rwlock.Pc
one_writes = record {
  mem = record { rin = 258; rout = 0; win = 1; wout = 0 };
  procs =
      update
        (update
          (update (update (update (λ _. Rwlock.outside) 0 (write_spin 0)) 0 (announce 0)) 0
            (drain 0))
          0 writing)
        1 (read_spin 2);
}

rw_run : RwlockRuns.Runs 2 rw_lock one_writes
unfolding rwlock_init
rw_run =
    and_then
      (and_then
        (and_then
          (and_then (and_then initially (by 0 (omega arith) write_take))
            (by 0 (omega arith) (write_turn refl)))
          (by 0 (omega arith) write_announce))
        (by 0 (omega arith) (drain_end refl)))
      (by 1 (omega arith) (read_busy (omega arith)))

write_exclusion_example : ◌≡◌ {A = ℕ} 0 0
write_exclusion_example =
    write_exclusion rw_lock (omega arith) rw_run 0 0 (omega arith) (omega arith) refl refl

phase_fair_example : 2 ≡ writer_bits 258
phase_fair_example =
    phase_fair rw_lock (omega arith) rw_run 0 1 2 (omega arith) (omega arith) refl refl

never_stuck_example : (j : ℕ) × Rwlock.CanGo one_writes.mem (one_writes.procs j)
never_stuck_example = never_stuck rw_lock (omega arith) rw_run 1 (omega arith) (λ q. cc)

abbrev mcs_lock : Mcslock
mcs_lock = record { tail = some 4; next = λ _. some 3; unlocked = λ _. true }

-- Processor 0 has the lock; then processor 1 has taken the tail.
abbrev one_queues : System Mcslock Mcslock.Pc
one_queues = record {
  mem = record {
    tail = some 1;
    next = update (update (λ _. some 3) 0 none) 1 none;
    unlocked = update (update (λ _. true) 0 false) 1 false;
  };
  procs =
      update
        (update
          (update (update (update (update (λ _. Mcslock.outside) 0 init_next) 0 ready) 0 owner) 1
            init_next)
          1 ready)
        1 (link 0);
}

mcs_run : McslockRuns.Runs 2 mcs_lock one_queues
unfolding mcslock_init
mcs_run =
    and_then
      (and_then
        (and_then
          (and_then
            (and_then (and_then initially (by 0 (omega arith) clear_next))
              (by 0 (omega arith) clear_state))
            (by 0 (omega arith) (swap_free refl)))
          (by 1 (omega arith) clear_next))
        (by 1 (omega arith) clear_state))
      (by 1 (omega arith) (swap_queued refl))

one_owner_example : ◌≡◌ {A = ℕ} 0 0
one_owner_example = one_owner mcs_lock mcs_run 0 0 refl refl

target-queued_example : queued (one_queues.procs 0) ≡ true
target-queued_example = target-queued mcs_lock mcs_run 1 0 refl

waiter_progress_example : (j : ℕ) × Mcslock.CanGo j one_queues.mem (one_queues.procs j)
waiter_progress_example = waiter_progress mcs_lock mcs_run 1 (λ q. cc)
