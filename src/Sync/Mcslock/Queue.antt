-- ===== src/Sync/Mcslock/Queue.antt =====
-- The queue of the processors, by the rank at which each joined it.
use twan.Base.{ℕ, ◌+◌, ◌≤◌, ◌<◌, ◌≡◌, ◌↔◌, true, false, Option, none, some}
use twan.Sync.Mcslock.{
  Mcslock, queued, Pc, outside, init_next, ready, link, await, await_next, hand,
}

-- What the place of processor `who` says, where ranks below `served` have left.
abbrev pub IsPlace : (m : Mcslock) (rank : ℕ → ℕ) (served who : ℕ) → Pc → Type 0
IsPlace m rank served who outside = Unit
IsPlace m rank served who init_next = m.next who ≡ none
IsPlace m rank served who ready = (m.next who ≡ none) × (m.unlocked who ≡ false)
IsPlace m rank served who (link _) = m.unlocked who ≡ false
IsPlace m rank served who await = m.unlocked who ≡ true ↔ rank who ≡ served
IsPlace m rank served who (hand next) = (rank who ≡ served) × (m.next who ≡ some next)
IsPlace m rank served who _ = rank who ≡ served

-- the last in the queue
abbrev pub IsTail : (procs : ℕ → Pc) (rank : ℕ → ℕ) (served count : ℕ) → Option ℕ → Type 0
IsTail procs rank served count none = served ≡ count
IsTail procs rank served count (some who) = (queued (procs who) ≡ true) × (rank who + 1 ≡ count)

-- a processor in the queue with rank `r`
abbrev pub RankHeld : (procs : ℕ → Pc) (rank : ℕ → ℕ) (r : ℕ) → Type 0
RankHeld procs rank r = (who : ℕ) × (queued (procs who) ≡ true) × (rank who ≡ r)

-- `count` processors joined, and `served` left.
pub record IsQueue (m : Mcslock) (procs : ℕ → Pc) : Type 0 where
  pub rank : ℕ → ℕ
  pub served : ℕ
  pub count : ℕ
  pub served_le : served ≤ count
  pub ranks_fit : (who : ℕ) → queued (procs who) ≡ true → (served ≤ rank who) × (rank who < count)
  pub one_rank :
      (i j : ℕ) → queued (procs i) ≡ true → queued (procs j) ≡ true → rank i ≡ rank j → i ≡ j
  pub last : IsTail procs rank served count m.tail
  pub places : (who : ℕ) → IsPlace m rank served who (procs who)
  pub behind :
      (who prev : ℕ)
      → procs who ≡ link prev
      → (queued (procs prev) ≡ true) × (rank who ≡ rank prev + 1)
  -- A node's successor is the processor that joined next, and it spins.
  pub linked :
      (i next : ℕ)
      → queued (procs i) ≡ true
      → m.next i ≡ some next
      → (procs next ≡ await) × (rank next ≡ rank i + 1)
  -- A processor that has not shown itself to the one before it is about to.
  pub unlinked :
      (i j : ℕ)
      → queued (procs i) ≡ true
      → queued (procs j) ≡ true
      → rank j ≡ rank i + 1
      → m.next i ≡ none
      → procs j ≡ link i
  pub each_held : (r : ℕ) → served ≤ r → r < count → RankHeld procs rank r
  pub followed : (who : ℕ) → procs who ≡ await_next → rank who + 1 < count
