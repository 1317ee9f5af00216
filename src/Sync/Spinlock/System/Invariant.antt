-- ===== src/Sync/Spinlock/System/Invariant.antt =====
-- Who holds which ticket, modulo 2 ^ 32.
use twan.Base.{ℕ, ◌+◌, ◌-◌, ◌%◌, ◌^◌, ◌≤◌, ◌<◌, ◌≡◌, Option, none, some, total}
use twan.Sync.Spinlock.{Shared, Pc, spin, got_current, got_next, entered}

-- the ticket of a processor, which for the owner is the one that is served
abbrev pub ticket_of : Shared → Pc → Option ℕ
ticket_of m entered = some m.lock.current_ticket
ticket_of m (spin t) = some t
ticket_of m _ = none

abbrev pub has_ticket : Pc → ℕ
has_ticket entered = 1
has_ticket (spin _) = 1
has_ticket _ = 0

-- how many tickets are served before `t`
abbrev pub served_before : Shared → ℕ → ℕ
served_before m t = (t + 2 ^ 32 - m.lock.current_ticket) % 2 ^ 32

-- how many tickets were not yet served when the count was `since` and the served one was `current`
abbrev pub lag : (since current : ℕ) → ℕ
lag since current = (since % 2 ^ 32 + 2 ^ 32 - current) % 2 ^ 32

-- What the locals of `__spin_trylock` say, where `h` tickets are held by `n` processors: as long as no ticket was
-- taken since, the tickets in use are not more than at its start.
abbrev pub IsFresh : (n h : ℕ) → Shared → Pc → Type 0
IsFresh n h m (got_current current since) =
    (since ≤ m.taken)
    × (current < 2 ^ 32)
    × (lag since current ≤ n)
    × (m.taken ≡ since → h ≤ lag since current)
IsFresh n h m (got_next expected since) =
    (since ≤ m.taken) × (expected ≡ since % 2 ^ 32) × (m.taken ≡ since → h ≡ 0)
IsFresh n h m _ = Unit

-- a processor whose ticket is served when `place` others were
abbrev pub HolderOf : Shared → (ℕ → Pc) → (place : ℕ) → Type 0
HolderOf m procs place =
    let served = m.lock.current_ticket in
    (who : ℕ) × (ticket_of m (procs who) ≡ some ((served + place) % 2 ^ 32))

pub record IsTicketed (n : ℕ) (m : Shared) (procs : ℕ → Pc) : Type 0 where
  pub counted : m.lock.next_ticket ≡ m.taken % 2 ^ 32
  pub current_fits : m.lock.current_ticket < 2 ^ 32
  pub handed_out : m.lock.next_ticket ≡ (m.lock.current_ticket + total has_ticket n procs) % 2 ^ 32
  pub fewer : n < 2 ^ 32
  pub one_holder :
      (a b t : ℕ) → ticket_of m (procs a) ≡ some t → ticket_of m (procs b) ≡ some t → a ≡ b
  pub in_use :
      (who t : ℕ)
      → ticket_of m (procs who) ≡ some t
      → (t < 2 ^ 32) × (served_before m t < total has_ticket n procs)
  pub reads : (who : ℕ) → IsFresh n (total has_ticket n procs) m (procs who)
  pub each_held : (place : ℕ) → place < total has_ticket n procs → HolderOf m procs place
