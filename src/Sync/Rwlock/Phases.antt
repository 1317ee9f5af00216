-- ===== src/Sync/Rwlock/Phases.antt =====
-- What the words of the lock say of the processors.
use twan.Base.{
  ℕ, ◌+◌, ◌-◌, ◌*◌, ◌%◌, ◌^◌, ◌<◌, ◌≤◌, ◌≡◌, ◌⊎◌, Bool, true, false, Option, none, some, ◌==◌,
  if◌then◌else◌, total,
}
use twan.Sync.Rwlock.{Rwlock, Pc, read_spin, reading, write_spin, announce, drain, writing, leaving}

-- the ticket of a writer, which for the one whose turn it is is the one that is served
abbrev pub write_ticket : Rwlock → Pc → Option ℕ
write_ticket m (write_spin t) = some t
write_ticket m (announce _) = some m.wout
write_ticket m (drain _) = some m.wout
write_ticket m writing = some m.wout
write_ticket m leaving = some m.wout
write_ticket m _ = none

abbrev pub is_writer : Pc → ℕ
is_writer (write_spin _) = 1
is_writer (announce _) = 1
is_writer (drain _) = 1
is_writer writing = 1
is_writer leaving = 1
is_writer _ = 0

abbrev pub is_reader : Pc → ℕ
is_reader (read_spin _) = 1
is_reader reading = 1
is_reader _ = 0

-- A reader that the writer has to wait for: one that reads, or that waits for the writer before.
abbrev pub blocks : (bits : ℕ) → Pc → ℕ
blocks bits (read_spin wp) = if wp == bits then 0 else 1
blocks bits reading = 1
blocks bits _ = 0

-- What the place of a processor says, where `bits` are the bits of the writer, `phase` that of the next writer or of
-- the one that has shown its bits, and `b` readers block it.
abbrev pub IsPlace : (m : Rwlock) (phase bits b : ℕ) → Pc → Type 0
IsPlace m phase bits b (read_spin wp) = (2 ≤ wp) × (wp < 4) × (bits ≡ 0 → wp + phase ≡ 3)
IsPlace m phase bits b (announce t) = (t ≡ m.wout) × (bits ≡ 0) × (phase ≡ m.wout % 2)
IsPlace m phase bits b (drain t) =
    (bits ≡ 2 + phase) × (phase ≡ m.wout % 2) × (t ≡ (m.rout + 256 * b) % 2 ^ 32)
IsPlace m phase bits b writing = (bits ≡ 2 + phase) × (phase ≡ m.wout % 2) × (b ≡ 0)
IsPlace m phase bits b leaving = (bits ≡ 0) × (phase + m.wout % 2 ≡ 1)
IsPlace m phase bits b _ = Unit

-- A writer that has shown its bits, or whose ticket is still served after it took them back.
abbrev pub is_shown : Pc → Bool
is_shown (drain _) = true
is_shown writing = true
is_shown leaving = true
is_shown _ = false

abbrev pub Shown : (procs : ℕ → Pc) → Type 0
Shown procs = (who : ℕ) × (is_shown (procs who) ≡ true)

-- how many tickets of writers are served before `t`
abbrev pub writes_before : Rwlock → ℕ → ℕ
writes_before m t = (t + 2 ^ 32 - m.wout) % 2 ^ 32

-- a writer whose ticket is served when `place` others were
abbrev pub WriterAt : (n : ℕ) → Rwlock → (ℕ → Pc) → (place : ℕ) → Type 0
WriterAt n m procs place =
    (who : ℕ) × (who < n) × (write_ticket m (procs who) ≡ some ((m.wout + place) % 2 ^ 32))

pub record IsPhased (n : ℕ) (m : Rwlock) (procs : ℕ → Pc) : Type 0 where
  pub phase : ℕ
  pub bits : ℕ
  pub two_phases : phase < 2
  pub bits_cases : (bits ≡ 0) ⊎ (bits ≡ 2 + phase)
  pub fewer : n < 2 ^ 24
  pub rout_fits : (m.rout < 2 ^ 32) × (m.rout % 256 ≡ 0)
  pub rin_counts : m.rin ≡ (m.rout + 256 * total is_reader n procs + bits) % 2 ^ 32
  pub wout_fits : m.wout < 2 ^ 32
  pub win_counts : m.win ≡ (m.wout + total is_writer n procs) % 2 ^ 32
  pub one_writer :
      (i j t : ℕ) → write_ticket m (procs i) ≡ some t → write_ticket m (procs j) ≡ some t → i ≡ j
  pub in_use :
      (who t : ℕ)
      → write_ticket m (procs who) ≡ some t
      → (t < 2 ^ 32) × (writes_before m t < total is_writer n procs)
  pub each_held : (place : ℕ) → place < total is_writer n procs → WriterAt n m procs place
  pub places : (who : ℕ) → who < n → IsPlace m phase bits (total (blocks bits) n procs) (procs who)
  pub quiet : ((bits ≡ 0) × (phase ≡ m.wout % 2)) ⊎ Shown procs
