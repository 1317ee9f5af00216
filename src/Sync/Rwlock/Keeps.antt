-- ===== src/Sync/Rwlock/Keeps.antt =====
-- An access of processor `who` keeps each field of `IsPhased`.
use twan.Base.{
  ℕ, ◌+◌, ◌-◌, ◌*◌, ◌%◌, ◌^◌, ◌≤◌, ◌<◌, ◌≡◌, ◌⊎◌, inl, inr, refl, some, arith, update, total,
  total-update, total-le, total-same, member-le-total, dec_lt,
}
use twan.Sync.Rwlock.{
  Rwlock, Pc, announce, drain, leaving, Move, read_free, read_busy, read_enter, write_take,
  write_turn, write_announce, drain_end, write_clear, write_unlock,
}
use twan.Sync.Rwlock.Phases.{
  write_ticket, is_writer, is_reader, blocks, IsPlace, Shown, writes_before, WriterAt, IsPhased,
}

-- The phase and the bits after a step from `x` to `y`.
abbrev next_phase : (phase : ℕ) → Pc → ℕ
next_phase phase leaving = 1 - phase
next_phase phase _ = phase

abbrev next_bits : (phase bits : ℕ) → Pc → Pc → ℕ
next_bits phase bits (announce _) (drain _) = 2 + phase
next_bits phase bits _ leaving = 0
next_bits phase bits _ _ = bits

module _ {n : ℕ} {m : Rwlock} {procs : ℕ → Pc} (ok : IsPhased n m procs) (who : ℕ) where
  open ok use {
    phase, bits, two_phases, bits_cases, fewer, rout_fits, rin_counts, wout_fits, win_counts,
    one_writer, in_use, each_held, places, quiet,
  }

  -- Processor `who` goes from `x` to `y`.
  record Going (x y : Pc) : Type 0 where
    in_range : who < n
    was : procs who ≡ x
    readers_le : total is_reader n procs ≤ n
    writers_le : total is_writer n procs ≤ n
    readers :
        total is_reader n (update procs who y) + is_reader x ≡ total is_reader n procs + is_reader y
    writers :
        total is_writer n (update procs who y) + is_writer x ≡ total is_writer n procs + is_writer y
    blocked :
        total (blocks bits) n (update procs who y) + blocks bits x
        ≡ total (blocks bits) n procs + blocks bits y
    knows : IsPlace m phase bits (total (blocks bits) n procs) x

  going : (y : Pc) → who < n → Going (procs who) y
  going y in_range = record {
    in_range = in_range;
    was = refl;
    readers_le = total-le is_reader (λ x. ground arith) n procs;
    writers_le = total-le is_writer (λ x. ground arith) n procs;
    readers = total-update is_reader procs who y n in_range;
    writers = total-update is_writer procs who y n in_range;
    blocked = total-update (blocks bits) procs who y n in_range;
    knows = places who in_range;
  }

  writer_words :
      {x y : Pc} {after : Rwlock}
      → Going x y
      → Move m x after y
      → (after.wout < 2 ^ 32)
        × (after.win ≡ (after.wout + total is_writer n (update procs who y)) % 2 ^ 32)
  writer_words go write_take = omega arith
  writer_words go access = ground arith

  reader_words :
      {x y : Pc} {after : Rwlock}
      → Going x y
      → Move m x after y
      → (next_phase phase y < 2)
        × (after.rout < 2 ^ 32)
        × (after.rout % 256 ≡ 0)
        × (after.rin
            ≡ (after.rout + 256 * total is_reader n (update procs who y) + next_bits phase bits x y)
              % 2 ^ 32)
  reader_words go write_clear = ground arith
  reader_words go access = ground arith

  still_one_writer :
      (i j t : ℕ) {x y : Pc} {after : Rwlock}
      → Going x y
      → Move m x after y
      → write_ticket after (update procs who y i) ≡ some t
      → write_ticket after (update procs who y j) ≡ some t
      → i ≡ j
  still_one_writer i j t go write_take = ground (arith, one_writer i j t, in_use i t, in_use j t)
  still_one_writer i j t go (write_turn e) =
      ground (arith, one_writer i j t, one_writer who i m.wout, one_writer who j m.wout)
  still_one_writer i j t go access = ground (
    arith,
    one_writer i j t,
    one_writer who i m.wout,
    one_writer who j m.wout,
    in_use i t,
    in_use j t,
  )

  still_in_use :
      (i t : ℕ) {x y : Pc} {after : Rwlock}
      → Going x y
      → Move m x after y
      → write_ticket after (update procs who y i) ≡ some t
      → (t < 2 ^ 32) × (writes_before after t < total is_writer n (update procs who y))
  still_in_use i t go write_take = ground (arith, in_use i t)
  still_in_use i t go (write_turn e) = ground (arith, in_use i t)
  still_in_use i t go access = ground (arith, in_use i t, one_writer who i m.wout)

  still_held :
      (place : ℕ) {x y : Pc} {after : Rwlock}
      → Going x y
      → Move m x after y
      → place < total is_writer n (update procs who y)
      → WriterAt n after (update procs who y) place
  still_held place go write_unlock h =
      let (i, l, has) = each_held (place + 1) (omega arith) in (i, l, ground arith)
  still_held place go write_take h = elim (dec_lt place (total is_writer n procs)) [
    | no new ↦ (who, go.in_range, ground arith)
    | yes old ↦ let (i, l, has) = each_held place old in (i, l, ground arith)
  ]
  still_held place go (write_turn e) h =
      let (i, l, has) = each_held place (omega arith) in (i, l, ground arith)
  still_held place go access h =
      let (i, l, has) = each_held place (omega arith) in (i, l, ground arith)

  still_quiet :
      {x y : Pc} {after : Rwlock}
      → Going x y
      → Move m x after y
      → ((next_bits phase bits x y ≡ 0) × (next_phase phase y ≡ after.wout % 2))
        ⊎ Shown (update procs who y)
  still_quiet go write_unlock = inl (ground arith)
  still_quiet go write_clear = inr (who, ground arith)
  still_quiet go write_announce = inr (who, ground arith)
  still_quiet go access = elim quiet [
    | inl here ↦ inl here
    | inr (i, shown) ↦ inr (i, ground arith)
  ]

  still_bits :
      {x y : Pc} {after : Rwlock}
      → Going x y
      → Move m x after y
      → (next_bits phase bits x y ≡ 0) ⊎ (next_bits phase bits x y ≡ 2 + next_phase phase y)
  still_bits go write_clear = inl refl
  still_bits go write_announce = inr refl
  still_bits go access = bits_cases

  -- All readers that are there when a writer shows its bits block it.
  all_block :
      (t : ℕ)
      → bits ≡ 0
      → total (blocks (2 + phase)) n (update procs who (drain t))
        ≡ total is_reader n (update procs who (drain t))
  all_block t none_shown =
      total-same (blocks (2 + phase)) is_reader n (update procs who (drain t))
        (λ i l. ground (arith, places i l))

  still_places :
      (i : ℕ) {x y : Pc} {after : Rwlock}
      → Going x y
      → Move m x after y
      → i < n
      → IsPlace after
          (next_phase phase y)
          (next_bits phase bits x y)
          (total (blocks (next_bits phase bits x y)) n (update procs who y))
          (update procs who y i)
  still_places i go write_announce l =
      ground (arith, places i l, all_block m.rin (go.knows.1), one_writer who i m.wout)
  still_places i go write_clear l =
      ground (arith, places i l, member-le-total (blocks bits) n procs i l, one_writer who i m.wout)
  still_places i go (read_free e) l = ground (arith, places i l)
  still_places i go (read_busy e) l = ground (arith, places i l)
  still_places i go (read_enter e) l = ground (arith, places i l)
  still_places i go (drain_end e) l = ground (
    arith,
    places i l,
    one_writer who i m.wout,
    total-le (blocks bits) (λ x. ground arith) n procs,
  )
  still_places i go (write_turn e) l = elim quiet [
    | inl here ↦ ground (arith, places i l)
    | inr (j, shown) ↦ absurd (ground (arith, one_writer j who m.wout))
  ]
  still_places i go access l = ground (arith, places i l, one_writer who i m.wout)

  pub access-IsPhased :
      {y : Pc} {after : Rwlock}
      → who < n
      → Move m (procs who) after y
      → IsPhased n after (update procs who y)
  access-IsPhased {y} in_range access =
      let go = going y in_range in
      let (phase_fits, rout_small, rout_steps, rin_counted) = reader_words go access in
      let (wout_small, win_counted) = writer_words go access in
      record {
        phase = next_phase phase y;
        bits = next_bits phase bits (procs who) y;
        two_phases = phase_fits;
        bits_cases = still_bits go access;
        fewer = fewer;
        rout_fits = (rout_small, rout_steps);
        rin_counts = rin_counted;
        wout_fits = wout_small;
        win_counts = win_counted;
        one_writer = λ i j t. still_one_writer i j t go access;
        in_use = λ i t. still_in_use i t go access;
        each_held = λ place. still_held place go access;
        places = λ i. still_places i go access;
        quiet = still_quiet go access;
      }
