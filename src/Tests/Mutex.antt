-- ===== src/Tests/Mutex.antt =====
-- A run of tasks on one mutex, and nested locks of one task.
use twan.Base.{ℕ, ◌≡◌, refl, true, false, Option, none, some, arith, update}
use twan.Sync.Interleave.{System, Reach, by, initially, and_then}
use twan.Sync.Mutex.{
  Mem, Mutex, Level, Pc, outside, locking, asleep, inside, Move, begin, enter, sleep,
  mutex_ipcp_lock,
}
use twan.Sync.Mutex.Safety.{initial, mutex_exclusion}
use twan.Sync.Mutex.Nesting.{trylocks, unlocks, unlocks-trylocks, unlock-relock}

abbrev low : Level
low = record { priority = 3; criticality = 0 }

abbrev ceiling : Level
ceiling = record { priority = 9; criticality = 1 }

abbrev some_mutex : (holder : Option ℕ) (count : ℕ) → Mutex
some_mutex holder count = record { ceiling = ceiling; last = low; holder = holder; count = count }

abbrev fresh : Mem
fresh = record { mutex = some_mutex none 0; waiting = λ _. false; levels = λ _. low }

-- Task 0 is inside and task 1 sleeps.
abbrev one_sleeps : System Mem Pc
one_sleeps = record {
  mem = record {
    mutex = some_mutex (some 0) 1;
    waiting = update (λ _. false) 1 true;
    levels = update (update (update (λ _. low) 0 ceiling) 0 ceiling) 1 ceiling;
  };
  procs =
      update
        (update (update (update (λ _. outside) 0 (locking 0 low)) 0 (inside 1)) 1 (locking 0 low)) 1
        (asleep 0 low);
}

sleep_run : Reach Move 2 (initial ceiling (λ _. low)) one_sleeps
sleep_run =
    and_then
      (and_then
        (and_then (and_then initially (by 0 (omega arith) begin))
          (by 0 (omega arith) (enter refl (omega arith))))
        (by 1 (omega arith) begin))
      (by 1 (omega arith) (sleep refl))

mutex_exclusion_example :
    ((◌≡◌ {A = ℕ} 0 0)
      × (one_sleeps.mem.mutex.holder ≡ some 0)
      × (one_sleeps.mem.levels 0 ≡ one_sleeps.mem.mutex.ceiling)
      × (one_sleeps.mem.mutex.count ≡ 1))
mutex_exclusion_example = mutex_exclusion ceiling (λ _. low) sleep_run 0 0 1 1 refl refl

unlocks-trylocks_example :
    let m' = unlocks 3 2 (trylocks 3 2 fresh) in
    (m'.mutex.holder ≡ none) × ((i : ℕ) → m'.levels i ≡ low)
unlocks-trylocks_example = unlocks-trylocks 3 2 fresh refl (omega arith)

unlock-relock_example :
    let m' = unlocks 3 1 (mutex_ipcp_lock 3 (mutex_ipcp_lock 3 fresh).1).1 in
    (m'.mutex.holder ≡ none) × (m'.levels 3 ≡ ceiling)
unlock-relock_example = unlock-relock 3 fresh refl
