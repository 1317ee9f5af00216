-- ===== src/Sync/Mcslock/Safety.antt =====
-- What holds in every reachable state of `n` processors on one lock, each with a node of its own.
use twan.Base.{ℕ, ◌+◌, ◌≡◌, ◌≢◌, refl, true, none, some, arith}
use twan.Sync.Interleave.{System, Reach, Reach-kept}
use twan.Sync.Mcslock.{
  Mcslock, mcslock_init, Pc, outside, init_next, ready, await_next, Move, owns, CanGo, queued,
  target,
}
use twan.Sync.Mcslock.Queue.{IsQueue}
use twan.Sync.Mcslock.Keeps.{access-IsQueue}

-- after `mcslock_init`, with nobody inside
abbrev pub initial : Mcslock → System Mcslock Pc
initial lock = record { procs = λ who. outside; mem = mcslock_init lock }

abbrev pub Runs : (n : ℕ) → Mcslock → System Mcslock Pc → Type 0
Runs n lock = Reach Move n (initial lock)

IsQueue-initial : (lock : Mcslock) → IsQueue (initial lock).mem (initial lock).procs
unfolding mcslock_init
IsQueue-initial lock = record {
  rank = λ i. 0;
  served = 0;
  count = 0;
  served_le = omega arith;
  ranks_fit = λ i q. cc;
  one_rank = λ i j q. cc;
  last = refl;
  places = λ i. tt;
  behind = λ i prev q. cc;
  linked = λ i next q. cc;
  unlinked = λ i j q. cc;
  each_held = λ r l h. absurd (omega (arith, l, h));
  followed = λ i q. cc;
}

module _ {n : ℕ} (lock : Mcslock) {s : System Mcslock Pc} (r : Runs n lock s) where
  queue : IsQueue s.mem s.procs
  queue =
      Reach-kept Move n (λ t. IsQueue t.mem t.procs) (IsQueue-initial lock)
        (λ who before after place in_range access ok. access-IsQueue ok who access) r

  -- Of any number of processors that call `mcsnode_init`, `__mcs_lock` and `__mcs_unlock` in turn, each on its own
  -- node and in any interleaving of their accesses, two never have the lock together.
  pub one_owner : (i j : ℕ) → owns (s.procs i) ≡ true → owns (s.procs j) ≡ true → i ≡ j
  one_owner i j in_i in_j =
      let ok = queue in ground (arith, ok.one_rank i j, ok.places i, ok.places j)

  -- A processor that is about to write into the node of another, in `__mcs_lock` or `__mcs_unlock`, finds that one
  -- still inside: between its exchange of the tail and the end of its `__mcs_unlock`.
  pub target-queued : (i k : ℕ) → target (s.procs i) ≡ some k → queued (s.procs k) ≡ true
  target-queued i k e = let ok = queue in ground (arith, ok.behind i k, ok.places i, ok.linked i k)

  Going : Type 0
  Going = (j : ℕ) × CanGo j s.mem (s.procs j)

  -- An owner that waits for the next node: who comes next has shown itself or is about to.
  next_goes : (j : ℕ) → s.procs j ≡ await_next → Going
  unfolding Going
  next_goes j e =
      let ok = queue in
      elim (s.mem.next j) as (λ x. s.mem.next j ≡ x → Going) [
        | some k ↦ λ q. (j, ground arith)
        | none ↦ λ q.
            let (k, in_k, ranked) =
              ok.each_held (ok.rank j + 1) (ground (arith, ok.places j)) (ok.followed j e) in
            (k, ground (arith, ok.unlinked j k, ok.places j))
      ]
        refl

  first_goes : (i : ℕ) → queued (s.procs i) ≡ true → Going
  unfolding Going
  first_goes i inside =
      let ok = queue in
      let (j, in_j, first) =
        ok.each_held ok.served (omega arith) (omega (arith, ok.ranks_fit i inside)) in
      elim (s.procs j) as (λ x. s.procs j ≡ x → Going) [
        | await_next ↦ λ e. next_goes j e
        | _ ↦ λ e. (j, ground (arith, ok.places j))
      ]
        refl

  -- No deadlock: while any processor waits or has the lock, one can go on: it has the lock, or waits for nothing, or
  -- what it waits for has come.
  pub waiter_progress : (i : ℕ) → s.procs i ≢ outside → (j : ℕ) × CanGo j s.mem (s.procs j)
  unfolding Going
  waiter_progress i inside =
      elim (s.procs i) as (λ x. s.procs i ≡ x → Going) [
        | init_next ↦ λ e. (i, ground arith)
        | ready ↦ λ e. (i, ground arith)
        | _ ↦ λ e. first_goes i (ground arith)
      ]
        refl
