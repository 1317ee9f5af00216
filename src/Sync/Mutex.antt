-- ===== src/Sync/Mutex.antt =====
-- subsys/sync/mutex.c: the mutex that raises its holder to a ceiling. A task is a number, and `none` is NULL. The wait
-- queue stands here as the set of the tasks that entered it and were not taken out: whom of them `waitq_wakeup_front` takes,
-- or whether it takes any, is left open. Of the tree behind the queue it is assumed that it gives out no other task.
pub mod Holding
pub mod Keeps
pub mod Safety
pub mod Nesting
use twan.Base.{
  ℕ, ◌+◌, ◌-◌, ◌^◌, ◌%◌, ◌<◌, ◌≤◌, ◌≡◌, ◌≢◌, Bool, true, false, Option, none, some, ◌==◌, ltb,
  if◌then◌else◌, update,
}

-- a priority and a criticality
pub record Level : Type 0 where
  pub priority : ℕ
  pub criticality : ℕ

-- `struct mutex_ipcp` without the wait queue
pub record Mutex : Type 0 where
  pub ceiling : Level
  pub last : Level
  pub holder : Option ℕ
  pub count : ℕ

-- the mutex, its wait queue, and the levels that the tasks run at
pub record Mem : Type 0 where
  pub mutex : Mutex
  pub waiting : ℕ → Bool
  pub levels : ℕ → Level

-- `INITIALIZE_MUTEX_IPCP`, whose wait queue is empty; `levels` are those that the tasks run at.
abbrev pub initialize_mutex_ipcp : (ceiling : Level) (levels : ℕ → Level) → Mem
initialize_mutex_ipcp ceiling levels = record {
  mutex = record {
    ceiling = ceiling;
    last = record { priority = 0; criticality = 0 };
    holder = none;
    count = 0;
  };
  waiting = λ _. false;
  levels = levels;
}

-- `current_task_write` of task `me`
abbrev pub current_task_write : (me : ℕ) → Mem → Level → Mem
current_task_write me m level = record m { levels = update m.levels me level }

abbrev pub take_over : (me : ℕ) → Mem → Mem
take_over me m = record (current_task_write me m m.mutex.ceiling) {
  mutex = record m.mutex { holder = some me; last = m.levels me; count = 1 };
}

abbrev pub trylock_held : (me : ℕ) → Mem → Option ℕ → Bool × Mem
trylock_held me m none = (true, take_over me m)
trylock_held me m (some holder) =
    if holder == me
    then (true, record m { mutex = record m.mutex { count = (m.mutex.count + 1) % 2 ^ 64 } })
    else (false, m)

abbrev pub mutex_ipcp_trylock : (me : ℕ) → Mem → Bool × Mem
mutex_ipcp_trylock me m = trylock_held me m m.mutex.holder

-- The condition of the wait in `mutex_ipcp_lock`, and what follows the wait.
abbrev pub finish : (saved : Level) → Bool × Mem → Bool × Mem
finish saved (false, m) = (false, m)
finish saved (true, m) = (true, record m { mutex = record m.mutex { last = saved } })

abbrev pub lock_attempt : (me : ℕ) (saved : Level) → Mem → Bool × Mem
lock_attempt me saved m = finish saved (mutex_ipcp_trylock me m)

-- `mutex_ipcp_lock` up to the first test of the condition: with true it returns, with false it waits.
abbrev pub mutex_ipcp_lock : (me : ℕ) → Mem → Bool × Mem
mutex_ipcp_lock me m = lock_attempt me (m.levels me) (current_task_write me m m.mutex.ceiling)

abbrev pub waitq_remove : Option ℕ → (ℕ → Bool) → ℕ → Bool
waitq_remove none waiting = waiting
waitq_remove (some task) waiting = update waiting task false

-- `mutex_ipcp_unlock`, where `waitq_wakeup_front` takes `woken` and stores it as the holder
abbrev pub mutex_ipcp_unlock : (me : ℕ) (woken : Option ℕ) → Mem → Mem
mutex_ipcp_unlock me woken m =
    let count = m.mutex.count - 1 in
    if ltb 0 count
    then record m { mutex = record m.mutex { count = count } }
    else record (current_task_write me m m.mutex.last) {
      mutex = record m.mutex { count = count; holder = woken };
      waiting = waitq_remove woken m.waiting;
    }

-- Where a task stands; `depth` is how often it has locked the mutex and not yet unlocked it.
pub data Pc : Type 0 where
  outside : Pc
  locking : (depth : ℕ) (saved : Level) → Pc  -- in `mutex_ipcp_lock`, before the test of the condition
  asleep : (depth : ℕ) (saved : Level) → Pc  -- in `mutex_ipcp_lock`, in the wait queue or just taken out of it
  inside : (depth : ℕ) → Pc

-- One step of task `me`. The test of the condition and the entry into the queue are one step, under the queue's lock. The
-- bounds on `count` are assertions of the code. The last unlock takes a task that entered the queue, or nobody.
pub data Move (me : ℕ) (m : Mem) : Pc → Mem → Pc → Type 0 where
  begin : Move me m outside (current_task_write me m m.mutex.ceiling) (locking 0 (m.levels me))
  begin_nested :
      {depth : ℕ}
      → Move me m
          (inside depth)
          (current_task_write me m m.mutex.ceiling)
          (locking depth (m.levels me))
  enter :
      {depth : ℕ} {saved : Level}
      → (lock_attempt me saved m).0 ≡ true
      → m.mutex.count + 1 < 2 ^ 64
      → Move me m (locking depth saved) (lock_attempt me saved m).1 (inside (depth + 1))
  sleep :
      {depth : ℕ} {saved : Level}
      → (lock_attempt me saved m).0 ≡ false
      → Move me m
          (locking depth saved)
          (record m { waiting = update m.waiting me true })
          (asleep depth saved)
  wake :
      {depth : ℕ} {saved : Level}
      → m.waiting me ≡ false
      → Move me m (asleep depth saved) m (locking depth saved)
  try :
      (mutex_ipcp_trylock me m).0 ≡ true
      → m.mutex.count + 1 < 2 ^ 64
      → Move me m outside (mutex_ipcp_trylock me m).1 (inside 1)
  try_nested :
      {depth : ℕ}
      → (mutex_ipcp_trylock me m).0 ≡ true
      → m.mutex.count + 1 < 2 ^ 64
      → Move me m (inside depth) (mutex_ipcp_trylock me m).1 (inside (depth + 1))
  try_fails : (mutex_ipcp_trylock me m).0 ≡ false → Move me m outside m outside
  unlock_nested :
      {depth : ℕ}
      → 1 < m.mutex.count
      → Move me m (inside depth) (mutex_ipcp_unlock me none m) (inside (depth - 1))
  unlock :
      {depth : ℕ}
      → m.mutex.count ≤ 1
      → Move me m (inside depth) (mutex_ipcp_unlock me none m) outside
  unlock_wakes :
      {depth : ℕ}
      → (woken : ℕ) → m.mutex.count ≤ 1
      → m.waiting woken ≡ true
      → Move me m (inside depth) (mutex_ipcp_unlock me (some woken) m) outside

-- inside, or between a lock and a nested one
abbrev pub depth_of : Pc → ℕ
depth_of (locking depth saved) = depth
depth_of (inside depth) = depth
depth_of _ = 0
