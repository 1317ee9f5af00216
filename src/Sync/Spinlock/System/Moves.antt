-- ===== src/Sync/Spinlock/System/Moves.antt =====
-- An access of processor `i` keeps each field of `IsTicketed`.
use twan.Base.{
  ℕ, ◌+◌, ◌%◌, ◌^◌, ◌≤◌, ◌<◌, ◌≡◌, refl, some, arith, update, total, total-update, total-le, dec_lt,
}
use twan.Sync.Spinlock.{
  Shared, Pc, spin, Move, take, enter, try_free, exchange, unlock, wait, try_busy, lose,
  read_current, got_current, got_next, entered,
}
use twan.Sync.Spinlock.System.{IsPrompt}
use twan.Sync.Spinlock.System.Invariant.{
  ticket_of, has_ticket, served_before, IsFresh, HolderOf, IsTicketed,
}

-- What the test before a change of place has found.
abbrev Allowed : Shared → Pc → Pc → Type 0
Allowed m (spin ticket) entered = m.lock.current_ticket ≡ ticket
Allowed m (got_current current since) (got_next expected _) = current ≡ m.lock.next_ticket
Allowed m (got_next expected since) entered = m.lock.next_ticket ≡ expected
Allowed m _ _ = Unit

access-Allowed : {m after : Shared} {x y : Pc} → Move m x after y → Allowed m x y
access-Allowed (enter g) = g
access-Allowed (try_free g) = g
access-Allowed (exchange g) = g
access-Allowed (wait g) = tt
access-Allowed (try_busy g) = tt
access-Allowed (lose g) = tt
access-Allowed take = tt
access-Allowed read_current = tt
access-Allowed unlock = tt

-- No more tickets are in use than there are processors.
tickets-le : (n : ℕ) (procs : ℕ → Pc) → total has_ticket n procs ≤ n
tickets-le = total-le has_ticket (λ x. ground arith)

module _ {n : ℕ} {m : Shared} {procs : ℕ → Pc} (ok : IsTicketed n m procs) (who : ℕ) where
  open ok use {fewer, current_fits, counted, handed_out, in_use, one_holder, each_held, reads}

  -- Processor `who` goes from `x` to `y`, and the tickets in use become those of `y`.
  record Going (x y : Pc) : Type 0 where
    bounded : (total has_ticket n procs ≤ n) × (total has_ticket n (update procs who y) ≤ n)
    recount :
        total has_ticket n (update procs who y) + has_ticket x
        ≡ total has_ticket n procs + has_ticket y
    was : procs who ≡ x
    prompt : IsPrompt n m x
    allowed : Allowed m x y
    knows : IsFresh n (total has_ticket n procs) m x

  going :
      (y : Pc) → Allowed m (procs who) y → IsPrompt n m (procs who) → who < n → Going (procs who) y
  going y allowed prompt in_range = record {
    bounded = (tickets-le n procs, tickets-le n (update procs who y));
    recount = total-update has_ticket procs who y n in_range;
    was = refl;
    prompt = prompt;
    allowed = allowed;
    knows = reads who;
  }

  -- The exchange wins only if no ticket is in use.
  words :
      {x y : Pc} {after : Shared}
      → Going x y
      → Move m x after y
      → (after.lock.next_ticket ≡ after.taken % 2 ^ 32)
        × (after.lock.current_ticket < 2 ^ 32)
        × (after.lock.next_ticket
            ≡ (after.lock.current_ticket + total has_ticket n (update procs who y)) % 2 ^ 32)
  words go take = omega arith
  words go access = ground arith

  still_in_use :
      (other t : ℕ) {x y : Pc} {after : Shared}
      → Going x y
      → Move m x after y
      → ticket_of after (update procs who y other) ≡ some t
      → (t < 2 ^ 32) × (served_before after t < total has_ticket n (update procs who y))
  still_in_use other t go take = ground (arith, in_use other t)
  still_in_use other t go access =
      ground (arith, in_use other t, one_holder who other m.lock.current_ticket)

  still_one_holder :
      (a b t : ℕ) {x y : Pc} {after : Shared}
      → Going x y
      → Move m x after y
      → ticket_of after (update procs who y a) ≡ some t
      → ticket_of after (update procs who y b) ≡ some t
      → a ≡ b
  still_one_holder a b t go take = ground (arith, one_holder a b t, in_use a t, in_use b t)
  still_one_holder a b t go access =
      let served = m.lock.current_ticket in
      ground (
        arith,
        one_holder who a served,
        one_holder who b served,
        one_holder a b t,
        in_use a t,
        in_use b t,
      )

  reads-IsFresh :
      (other : ℕ) {x y : Pc} {after : Shared}
      → Going x y
      → Move m x after y
      → IsFresh n (total has_ticket n (update procs who y)) after (update procs who y other)
  reads-IsFresh other go (try_free g) = grind (arith, reads other)
  reads-IsFresh other go (exchange g) = grind (arith, reads other)
  reads-IsFresh other go access = grind (arith, reads other)

  -- A new ticket is that of `who`; an unlock brings each holder one place forward.
  still_held :
      (place : ℕ) {x y : Pc} {after : Shared}
      → Going x y
      → Move m x after y
      → place < total has_ticket n (update procs who y)
      → HolderOf after (update procs who y) place
  still_held place go (exchange g) h = (who, ground arith)
  still_held place go unlock h =
      let (other, has) = each_held (place + 1) (omega arith) in (other, ground arith)
  still_held place go take h = elim (dec_lt place (total has_ticket n procs)) [
    | no new ↦ (who, ground arith)
    | yes old ↦ let (other, has) = each_held place old in (other, ground arith)
  ]
  still_held place go access h =
      let (other, has) = each_held place (omega arith) in (other, ground arith)

  not_more_before :
      (other t : ℕ) {x y : Pc} {after : Shared}
      → Going x y
      → Move m x after y
      → procs other ≡ spin t
      → served_before after t ≤ served_before m t
  not_more_before other t go take h = omega arith
  not_more_before other t go access h = ground (arith, one_holder who other t, in_use other t)

  module _ {y : Pc} {after : Shared} (in_range : who < n) (prompt : IsPrompt n m (procs who))
      (access : Move m (procs who) after y) where
    pub access-served_before :
        (other t : ℕ) → procs other ≡ spin t → served_before after t ≤ served_before m t
    access-served_before other t =
        not_more_before other t (going y (access-Allowed access) prompt in_range) access

    pub access-IsTicketed : IsTicketed n after (update procs who y)
    access-IsTicketed =
        let go = going y (access-Allowed access) prompt in_range in
        let (counted', fits, handed) = words go access in
        record {
          fewer = fewer;
          counted = counted';
          current_fits = fits;
          handed_out = handed;
          one_holder = λ a b t. still_one_holder a b t go access;
          in_use = λ other t. still_in_use other t go access;
          reads = λ other. reads-IsFresh other go access;
          each_held = λ place. still_held place go access;
        }
