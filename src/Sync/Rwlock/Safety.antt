-- ===== src/Sync/Rwlock/Safety.antt =====
-- What holds in every reachable state of `n` processors on one lock.
use twan.Base.{
  ℕ, zero, suc, ◌^◌, ◌<◌, ◌≡◌, ◌≢◌, inl, inr, refl, true, arith, total, member-le-total, total-some,
  dec_lt,
}
use twan.Sync.Interleave.{System, Reach, Reach-kept}
use twan.Sync.Rwlock.{
  Rwlock, rwlock_init, Pc, outside, read_spin, drain, writing, writer_bits, Move, writes, holds,
  CanGo,
}
use twan.Sync.Rwlock.Phases.{is_reader, is_writer, blocks, IsPhased}
use twan.Sync.Rwlock.Keeps.{access-IsPhased}

-- after `rwlock_init`, with nobody inside
abbrev pub initial : Rwlock → System Rwlock Pc
initial lock = record { procs = λ who. outside; mem = rwlock_init lock }

abbrev pub Runs : (n : ℕ) → Rwlock → System Rwlock Pc → Type 0
Runs n lock = Reach (λ who. Move) n (initial lock)

total-outside : (weight : Pc → ℕ) → weight outside ≡ 0 → (n : ℕ) → total weight n (λ _. outside) ≡ 0
unfolding total
total-outside weight none zero = refl
total-outside weight none (suc n) = omega (arith, none, total-outside weight none n)

IsPhased-initial :
    (n : ℕ) (lock : Rwlock) → n < 2 ^ 24 → IsPhased n (initial lock).mem (initial lock).procs
unfolding rwlock_init
IsPhased-initial n lock fewer = record {
  phase = 0;
  bits = 0;
  two_phases = omega arith;
  bits_cases = inl refl;
  fewer = fewer;
  rout_fits = (omega arith, refl);
  rin_counts = omega (arith, total-outside is_reader refl n);
  wout_fits = omega arith;
  win_counts = omega (arith, total-outside is_writer refl n);
  one_writer = λ i j t q. cc;
  in_use = λ i t q. cc;
  each_held = λ place q. absurd (omega (arith, total-outside is_writer refl n, q));
  places = λ who l. tt;
  quiet = inl (refl, refl);
}

module _ {n : ℕ} (lock : Rwlock) {s : System Rwlock Pc} (fewer : n < 2 ^ 24)
    (r : Runs n lock s) where
  phased : IsPhased n s.mem s.procs
  phased =
      Reach-kept (λ who. Move) n (λ t. IsPhased n t.mem t.procs) (IsPhased-initial n lock fewer)
        (λ who before after place in_range access ok. access-IsPhased ok who in_range access) r

  -- Of fewer than 2 ^ 24 processors that read and write under the lock in any interleaving of their accesses, one
  -- that writes has the lock alone: no other reads or writes.
  pub write_exclusion :
      (i j : ℕ) → i < n → j < n → writes (s.procs i) ≡ true → holds (s.procs j) ≡ true → i ≡ j
  write_exclusion i j in_i in_j w h =
      let ok = phased in
      ground (
        arith,
        ok.places i in_i,
        ok.one_writer i j s.mem.wout,
        member-le-total (blocks ok.bits) n s.procs j in_j,
      )

  -- Of fewer than 2 ^ 24 processors: while one writes, the bits that each waiting reader found on its arrival are
  -- those that `rin` shows, so none of them is kept out by the writer of the other phase.
  pub phase_fair :
      (i j wp : ℕ)
      → i < n
      → j < n
      → s.procs i ≡ writing
      → s.procs j ≡ read_spin wp
      → wp ≡ writer_bits s.mem.rin
  phase_fair i j wp in_i in_j w e =
      let ok = phased in
      ground (
        arith,
        ok.places i in_i,
        ok.rin_counts,
        ok.rout_fits,
        ok.two_phases,
        member-le-total (blocks ok.bits) n s.procs j in_j,
      )

  Going : Type 0
  Going = (j : ℕ) × CanGo s.mem (s.procs j)

  rin_bits : writer_bits s.mem.rin ≡ phased.bits
  rin_bits =
      let ok = phased in ground (arith, ok.rin_counts, ok.rout_fits, ok.two_phases, ok.bits_cases)

  -- The writer that drains goes on when nobody blocks it, and one that blocks it can go on.
  drain_goes : (j t : ℕ) → j < n → s.procs j ≡ drain t → Going
  unfolding Going
  drain_goes j t in_j e =
      let ok = phased in
      elim (dec_lt 0 (total (blocks ok.bits) n s.procs)) [
        | no none ↦ (j, ground (arith, ok.places j in_j, ok.rout_fits))
        | yes some_block ↦
            let (k, in_k, here) = total-some (blocks ok.bits) n s.procs some_block in
            (k, ground (arith, rin_bits))
      ]

  writer_goes : 0 < total is_writer n s.procs → Going
  unfolding Going
  writer_goes waiting =
      let ok = phased in
      let (j, in_j, has) = ok.each_held 0 waiting in
      elim (s.procs j) as (λ x. s.procs j ≡ x → Going) [
        | drain t ↦ λ e. drain_goes j t in_j e
        | _ ↦ λ e. (j, ground (arith, ok.wout_fits))
      ]
        refl

  reader_goes :
      (i wp : ℕ) → i < n → total is_writer n s.procs ≡ 0 → s.procs i ≡ read_spin wp → Going
  unfolding Going
  reader_goes i wp in_i no_writers e =
      let ok = phased in
      elim ok.quiet [
        | inl free ↦ (i, ground (arith, rin_bits, ok.places i in_i))
        | inr (j, shown) ↦ absurd (ground (arith, ok.in_use j s.mem.wout))
      ]

  -- No deadlock. Of fewer than 2 ^ 24 processors: while any of them waits or has the lock, one can go on: it has
  -- the lock, or what it waits for has come.
  pub never_stuck : (i : ℕ) → i < n → s.procs i ≢ outside → (j : ℕ) × CanGo s.mem (s.procs j)
  unfolding Going
  never_stuck i in_i inside = elim (dec_lt 0 (total is_writer n s.procs)) [
    | yes waiting ↦ writer_goes waiting
    | no none ↦
        elim (s.procs i) as (λ x. s.procs i ≡ x → Going) [
          | read_spin wp ↦ λ e. reader_goes i wp in_i (omega (arith, none)) e
          | _ ↦ λ e. (i, ground (arith, member-le-total is_writer n s.procs i in_i))
        ]
          refl
  ]
