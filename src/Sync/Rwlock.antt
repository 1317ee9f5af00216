-- ===== src/Sync/Rwlock.antt =====
-- subsys/sync/rwlock.c: the lock of readers and writers. The words are kept as numbers below 2 ^ 32. `rin` and
-- `rout` count the readers in steps of 256; the two lowest bits of `rin` say that a writer waits or writes, and in
-- which of two phases.
pub mod Phases
pub mod Keeps
pub mod Safety
use twan.Base.{ℕ, ◌+◌, ◌-◌, ◌%◌, ◌^◌, ◌≡◌, ◌≢◌, Bool, true, false}

-- `struct rwlock`
pub record Rwlock : Type 0 where
  pub rin : ℕ
  pub rout : ℕ
  pub win : ℕ
  pub wout : ℕ

unfoldable pub rwlock_init : Rwlock → Rwlock
rwlock_init lock = record lock { rin = 0; rout = 0; win = 0; wout = 0 }

-- the store of an atomic addition to a word
abbrev pub add : ℕ → ℕ → ℕ
add word by = (word + by) % 2 ^ 32

-- `& PF_WRITER_BITS`
abbrev pub writer_bits : ℕ → ℕ
writer_bits word = word % 4

-- `(ticket & PF_PHASE_ID) | PF_WRITER_PRESENT`
abbrev pub present : ℕ → ℕ
present ticket = ticket % 2 + 2

-- `& PF_LSB`, which clears the four lowest bits
abbrev pub no_writer : ℕ → ℕ
no_writer word = word - word % 16

-- Where a processor stands, with the local variables that are live there.
pub data Pc : Type 0 where
  outside : Pc
  read_spin : (wp : ℕ) → Pc  -- the `spin_until` of `__rw_lock_read`
  reading : Pc  -- from the return of `__rw_lock_read` to the write of `__rw_unlock_read`
  write_spin : (ticket : ℕ) → Pc  -- the first `spin_until` of `__rw_lock_write`
  announce : (ticket : ℕ) → Pc  -- before the second `atomic32_fetch_and_add`
  drain : (ticket : ℕ) → Pc  -- the second `spin_until`
  writing : Pc  -- from the return of `__rw_lock_write` to the first write of `__rw_unlock_write`
  leaving : Pc  -- between the writes of `__rw_unlock_write`

-- One access of one processor.
pub data Move (m : Rwlock) : Pc → Rwlock → Pc → Type 0 where
  read_free : writer_bits m.rin ≡ 0 → Move m outside (record m { rin = add m.rin 256 }) reading
  read_busy :
      writer_bits m.rin ≢ 0
      → Move m outside (record m { rin = add m.rin 256 }) (read_spin (writer_bits m.rin))
  read_wait : {wp : ℕ} → writer_bits m.rin ≡ wp → Move m (read_spin wp) m (read_spin wp)
  read_enter : {wp : ℕ} → writer_bits m.rin ≢ wp → Move m (read_spin wp) m reading
  read_unlock : Move m reading (record m { rout = add m.rout 256 }) outside
  write_take : Move m outside (record m { win = add m.win 1 }) (write_spin m.win)
  write_wait : {ticket : ℕ} → ticket ≢ m.wout → Move m (write_spin ticket) m (write_spin ticket)
  write_turn : {ticket : ℕ} → ticket ≡ m.wout → Move m (write_spin ticket) m (announce ticket)
  write_announce :
      {ticket : ℕ}
      → Move m (announce ticket) (record m { rin = add m.rin (present ticket) }) (drain m.rin)
  drain_wait : {ticket : ℕ} → ticket ≢ m.rout → Move m (drain ticket) m (drain ticket)
  drain_end : {ticket : ℕ} → ticket ≡ m.rout → Move m (drain ticket) m writing
  write_clear : Move m writing (record m { rin = no_writer m.rin }) leaving
  write_unlock : Move m leaving (record m { wout = add m.wout 1 }) outside

-- the lock is held for writing, and at all
abbrev pub writes : Pc → Bool
writes writing = true
writes _ = false

abbrev pub holds : Pc → Bool
holds reading = true
holds writing = true
holds _ = false

-- What a processor waits for has come, or it waits for nothing.
abbrev pub CanGo : Rwlock → Pc → Type 0
CanGo m outside = ⊥
CanGo m (read_spin wp) = writer_bits m.rin ≢ wp
CanGo m (write_spin ticket) = ticket ≡ m.wout
CanGo m (drain ticket) = ticket ≡ m.rout
CanGo m _ = Unit
