-- ===== src/Sync/Spinlock.antt =====
-- subsys/sync/spinlock.c: the ticket lock. The tickets are `int`s that wrap round, kept here as numbers below
-- 2 ^ 32. A processor does one atomic access at a time; other processors may come in between any two.
pub mod System
use twan.Base.{ℕ, ◌+◌, ◌%◌, ◌^◌, ◌≡◌, ◌≢◌, Bool, true, false}

-- `struct spinlock`
pub record Spinlock : Type 0 where
  pub next_ticket : ℕ
  pub current_ticket : ℕ

abbrev pub spinlock : ℕ → ℕ → Spinlock
spinlock next current = record { next_ticket = next; current_ticket = current }

unfoldable pub spinlock_init : Spinlock → Spinlock
spinlock_init lock = record lock { next_ticket = 0; current_ticket = 0 }

-- `atomic32_inc` and the store of `atomic32_fetch_and_add`
abbrev pub inc : ℕ → ℕ
inc ticket = (ticket + 1) % 2 ^ 32

-- The lock, and the number of tickets that were taken since the start. The code has no such count: it is kept
-- to say what happened between two accesses.
pub record Shared : Type 0 where
  pub lock : Spinlock
  pub taken : ℕ

abbrev pub take_ticket : Shared → (next : ℕ) → Shared
take_ticket m next = record { lock = record m.lock { next_ticket = inc next }; taken = m.taken + 1 }

-- Where a processor stands, with the local variables that are live there. `since` is the count of tickets when
-- `__spin_trylock` began.
pub data Pc : Type 0 where
  idle : Pc  -- outside
  spin : (ticket : ℕ) → Pc  -- the `spin_until` of `__spin_lock`
  got_current : (current since : ℕ) → Pc  -- `__spin_trylock` before the second read
  got_next : (expected since : ℕ) → Pc  -- `__spin_trylock` before the compare and exchange
  entered : Pc  -- from the return of `__spin_lock`, or of true, to the write of `__spin_unlock`

-- One access of one processor.
pub data Move (m : Shared) : Pc → Shared → Pc → Type 0 where
  take : Move m idle (take_ticket m m.lock.next_ticket) (spin m.lock.next_ticket)
  wait : {ticket : ℕ} → m.lock.current_ticket ≢ ticket → Move m (spin ticket) m (spin ticket)
  enter : {ticket : ℕ} → m.lock.current_ticket ≡ ticket → Move m (spin ticket) m entered
  read_current : Move m idle m (got_current m.lock.current_ticket m.taken)
  try_busy :
      {current since : ℕ} → current ≢ m.lock.next_ticket → Move m (got_current current since) m idle
  try_free :
      {current since : ℕ}
      → current ≡ m.lock.next_ticket
      → Move m (got_current current since) m (got_next m.lock.next_ticket since)
  exchange :
      {expected since : ℕ}
      → m.lock.next_ticket ≡ expected
      → Move m (got_next expected since) (take_ticket m expected) entered
  lose :
      {expected since : ℕ} → m.lock.next_ticket ≢ expected → Move m (got_next expected since) m idle
  unlock :
      Move m entered
        (record m { lock = record m.lock { current_ticket = inc m.lock.current_ticket } })
        idle

-- A processor that has the lock.
abbrev pub critical : Pc → Bool
critical entered = true
critical _ = false
