-- ===== src/Sync/Mcslock.antt =====
-- subsys/sync/mcslock.c: the queue lock. Each processor brings a node; the number of a processor stands for the
-- address of its node, and `none` for NULL.
pub mod Queue
pub mod Keeps
pub mod Safety
use twan.Base.{ℕ, ◌≡◌, ◌≢◌, Bool, true, false, Option, none, some, update}

-- `struct mcslock`, and the members of each `struct mcsnode`: `unlocked` says that `state` is MCS_UNLOCKED.
pub record Mcslock : Type 0 where
  pub tail : Option ℕ
  pub next : ℕ → Option ℕ
  pub unlocked : ℕ → Bool

unfoldable pub mcslock_init : Mcslock → Mcslock
mcslock_init lock = record lock { tail = none }

-- Where a processor stands, with the local variables that are live there.
pub data Pc : Type 0 where
  outside : Pc
  init_next : Pc  -- between the writes of `mcsnode_init`
  ready : Pc  -- before `__mcs_lock`
  link : (prev : ℕ) → Pc  -- `__mcs_lock` before `prev->next` is set
  await : Pc  -- the `spin_until` of `__mcs_lock`
  owner : Pc  -- from the return of `__mcs_lock` to the first read of `__mcs_unlock`
  release : Pc  -- `__mcs_unlock` before the compare and exchange
  await_next : Pc  -- the `spin_until` of `__mcs_unlock`
  hand : (next : ℕ) → Pc  -- before the last write of `__mcs_unlock`

-- One access of processor `who`.
pub data Move (who : ℕ) (m : Mcslock) : Pc → Mcslock → Pc → Type 0 where
  clear_next : Move who m outside (record m { next = update m.next who none }) init_next
  clear_state : Move who m init_next (record m { unlocked = update m.unlocked who false }) ready
  swap_free : m.tail ≡ none → Move who m ready (record m { tail = some who }) owner
  swap_queued :
      {prev : ℕ} → m.tail ≡ some prev → Move who m ready (record m { tail = some who }) (link prev)
  set_link :
      {prev : ℕ} → Move who m (link prev) (record m { next = update m.next prev (some who) }) await
  spin : m.unlocked who ≡ false → Move who m await m await
  enter : m.unlocked who ≡ true → Move who m await m owner
  no_next : m.next who ≡ none → Move who m owner m release
  has_next : {next : ℕ} → m.next who ≡ some next → Move who m owner m (hand next)
  swap_out : m.tail ≡ some who → Move who m release (record m { tail = none }) outside
  swap_fails : m.tail ≢ some who → Move who m release m await_next
  spin_next : m.next who ≡ none → Move who m await_next m await_next
  next_came : {next : ℕ} → m.next who ≡ some next → Move who m await_next m (hand next)
  hand_over :
      {next : ℕ}
      → Move who m (hand next) (record m { unlocked = update m.unlocked next true }) outside

abbrev pub owns : Pc → Bool
owns owner = true
owns _ = false

-- What processor `who` waits for has come, or it waits for nothing.
abbrev pub CanGo : (who : ℕ) → Mcslock → Pc → Type 0
CanGo who m outside = ⊥
CanGo who m await = m.unlocked who ≡ true
CanGo who m await_next = m.next who ≢ none
CanGo who m _ = Unit

-- from the exchange of `__mcs_lock` to the end of `__mcs_unlock`
abbrev pub queued : Pc → Bool
queued outside = false
queued init_next = false
queued ready = false
queued _ = true

-- the node of another processor that the next access of `__mcs_lock` or `__mcs_unlock` writes into
abbrev pub target : Pc → Option ℕ
target (link prev) = some prev
target (hand next) = some next
target _ = none
