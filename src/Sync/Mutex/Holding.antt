-- ===== src/Sync/Mutex/Holding.antt =====
-- Who holds the mutex, how often, and at which level.
use twan.Base.{ℕ, ◌<◌, ◌≡◌, ◌≢◌, true, false, some}
use twan.Sync.Mutex.{Mem, Pc, outside, locking, asleep, inside}

-- What the place of task `who` says.
abbrev pub IsPlace : (m : Mem) (who : ℕ) → Pc → Type 0
IsPlace m who outside = (m.mutex.holder ≢ some who) × (m.waiting who ≡ false)
IsPlace m who (locking depth saved) =
    (m.levels who ≡ m.mutex.ceiling)
    × (m.waiting who ≡ false)
    × (m.mutex.holder ≡ some who → m.mutex.count ≡ depth)
    × (0 < depth → m.mutex.holder ≡ some who)
IsPlace m who (asleep depth saved) =
    (m.levels who ≡ m.mutex.ceiling)
    × (depth ≡ 0)
    × (m.waiting who ≡ true → m.mutex.holder ≢ some who)
    × (m.waiting who ≡ false → (m.mutex.holder ≡ some who) × (m.mutex.count ≡ 0))
IsPlace m who (inside depth) =
    (m.levels who ≡ m.mutex.ceiling)
    × (m.waiting who ≡ false)
    × (0 < depth)
    × (m.mutex.holder ≡ some who)
    × (m.mutex.count ≡ depth)

pub record IsHeld (m : Mem) (procs : ℕ → Pc) : Type 0 where
  pub places : (who : ℕ) → IsPlace m who (procs who)
