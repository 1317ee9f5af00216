-- ===== src/Sync/Interleave.antt =====
-- Processors that share a memory: the accesses of all of them, one after the other, in any order.
use twan.Base.{ℕ, ◌<◌, update}

pub record System (Mem Pc : Type 0) : Type 0 where
  pub procs : ℕ → Pc
  pub mem : Mem

-- `move who` is one access of processor `who`: the memory and its place before and after
module _ {Mem Pc : Type 0} (move : ℕ → Mem → Pc → Mem → Pc → Type 0) (n : ℕ) where
  -- One access of one of `n` processors; the others keep their places.
  pub data Access (s : System Mem Pc) : System Mem Pc → Type 0 where
    by :
        (who : ℕ) {after : Mem} {place : Pc}
        → who < n
        → move who s.mem (s.procs who) after place
        → Access s (record { procs = update s.procs who place; mem = after })

  -- what the accesses make of a system
  pub data Reach (start : System Mem Pc) : System Mem Pc → Type 0 where
    initially : Reach start start
    and_then :
        {before after : System Mem Pc}
        → Reach start before
        → Access before after
        → Reach start after

  -- What an access keeps holds all along.
  pub Reach-kept :
      {start s : System Mem Pc}
      → (Inv : System Mem Pc → Type 0) → Inv start
      → ((who : ℕ) (before : System Mem Pc) (after : Mem) (place : Pc)
          → who < n
          → move who before.mem (before.procs who) after place
          → Inv before
          → Inv (record { procs = update before.procs who place; mem = after }))
      → Reach start s
      → Inv s
  Reach-kept Inv base kept initially = base
  Reach-kept Inv base kept (and_then {before} r (by who {after} {place} in_range m)) =
      kept who before after place in_range m (Reach-kept Inv base kept r)
