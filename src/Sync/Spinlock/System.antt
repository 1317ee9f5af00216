-- ===== src/Sync/Spinlock/System.antt =====
-- `n` processors and one ticket lock.
pub mod Invariant
pub mod Moves
pub mod Safety
use twan.Base.{ℕ, ◌+◌, ◌^◌, ◌<◌, update}
use twan.Sync.Spinlock.{Spinlock, spinlock_init, Shared, Pc, idle, got_current, got_next, Move}

pub record System : Type 0 where
  pub procs : ℕ → Pc
  pub shared : Shared

-- One access of processor `who`; the others keep their places.
pub data Access (n : ℕ) (s : System) : System → Type 0 where
  by :
      (who : ℕ) {after : Shared} {place : Pc}
      → who < n
      → Move s.shared (s.procs who) after place
      → Access n s (record { procs = update s.procs who place; shared = after })

-- after `spinlock_init`, with nobody inside
abbrev pub initial : Spinlock → System
initial lock = record {
  procs = λ who. idle;
  shared = record { taken = 0; lock = spinlock_init lock };
}

-- the runs of `n` processors on a lock that was initialised
pub data Reach (n : ℕ) (lock : Spinlock) : System → Type 0 where
  initially : Reach n lock (initial lock)
  and_then :
      {before after : System} → Reach n lock before → Access n before after → Reach n lock after

-- Since a `__spin_trylock` under way began, the other processors have not taken all but `n` of the 2 ^ 32 tickets:
-- its tests compare words, which do not tell a ticket from the one a full round later.
abbrev pub IsPrompt : (n : ℕ) → Shared → Pc → Type 0
IsPrompt n m (got_current current since) = m.taken + n < since + 2 ^ 32
IsPrompt n m (got_next expected since) = m.taken + n < since + 2 ^ 32
IsPrompt n m _ = Unit

-- No `__spin_trylock` of the run is held up that long.
unfoldable pub IsPromptRun : {n : ℕ} {lock : Spinlock} {s : System} → Reach n lock s → Type 0
IsPromptRun initially = Unit
IsPromptRun {n} (and_then {before} r step) =
    IsPromptRun r × ((i : ℕ) → IsPrompt n before.shared (before.procs i))
