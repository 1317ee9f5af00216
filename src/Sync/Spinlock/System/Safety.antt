-- ===== src/Sync/Spinlock/System/Safety.antt =====
-- What holds in every reachable state.
use twan.Base.{ℕ, zero, suc, ◌^◌, ◌≤◌, ◌<◌, ◌≡◌, ◌⊎◌, refl, true, arith, total}
use twan.Sync.Spinlock.{Spinlock, spinlock_init, idle, spin, entered, critical}
use twan.Sync.Spinlock.System.{
  System, Access, by, initial, Reach, initially, and_then, IsPrompt, IsPromptRun,
}
use twan.Sync.Spinlock.System.Invariant.{has_ticket, served_before, IsTicketed}
use twan.Sync.Spinlock.System.Moves.{access-IsTicketed, access-served_before}

total-idle : (n : ℕ) → total has_ticket n (λ _. idle) ≡ 0
unfolding total
total-idle zero = refl
total-idle (suc n) = omega (arith, total-idle n)

IsTicketed-initial :
    (n : ℕ) (lock : Spinlock) → n < 2 ^ 32 → IsTicketed n (initial lock).shared (initial lock).procs
unfolding spinlock_init
IsTicketed-initial n lock fewer = record {
  fewer = fewer;
  current_fits = omega arith;
  counted = refl;
  handed_out = omega (arith, total-idle n);
  in_use = λ i t q. cc;
  one_holder = λ i j t q r. cc;
  each_held = λ d q. absurd (omega (arith, total-idle n, q));
  reads = λ _. tt;
}

Access-IsTicketed :
    {n : ℕ} {s t : System}
    → Access n s t
    → ((i : ℕ) → IsPrompt n s.shared (s.procs i))
    → IsTicketed n s.shared s.procs
    → IsTicketed n t.shared t.procs
Access-IsTicketed (by i in_range access) prompt ok =
    access-IsTicketed ok i in_range (prompt i) access

Reach-IsTicketed :
    {n : ℕ} {lock : Spinlock} {s : System}
    → n < 2 ^ 32
    → (r : Reach n lock s) → IsPromptRun r
    → IsTicketed n s.shared s.procs
unfolding IsPromptRun
Reach-IsTicketed {n} {lock} fewer initially prompt = IsTicketed-initial n lock fewer
Reach-IsTicketed fewer (and_then r step) (before, prompt) =
    Access-IsTicketed step prompt (Reach-IsTicketed fewer r before)

module _ {n : ℕ} {lock : Spinlock} {s : System} (fewer : n < 2 ^ 32) (r : Reach n lock s)
    (prompt : IsPromptRun r) where
  -- Of fewer than 2 ^ 32 processors that call `__spin_lock`, `__spin_trylock` and `__spin_unlock` in any
  -- interleaving of their accesses, with tickets that wrap round, two never have the lock together. No
  -- `__spin_trylock` may be held up while the others take nearly a full round of tickets.
  pub mutual_exclusion :
      (i j : ℕ) → critical (s.procs i) ≡ true → critical (s.procs j) ≡ true → i ≡ j
  mutual_exclusion i j in_i in_j =
      (Reach-IsTicketed fewer r prompt).one_holder i j s.shared.lock.current_ticket (ground arith)
        (ground arith)

  -- No deadlock. Of fewer than 2 ^ 32 processors, in a run where no `__spin_trylock` is held up while the
  -- others take nearly a full round of tickets: while a processor spins in `__spin_lock`, some processor has
  -- the lock or spins on the very ticket that is served, so that its next read lets it in.
  pub no_deadlock :
      (i t : ℕ)
      → s.procs i ≡ spin t
      → (j : ℕ) × ((s.procs j ≡ entered) ⊎ (s.procs j ≡ spin s.shared.lock.current_ticket))
  no_deadlock i t e =
      let ok = Reach-IsTicketed fewer r prompt in
      let (j, held) = ok.each_held 0 (ground (arith, ok.in_use i t)) in
      (j, ground (arith, ok.current_fits))

  -- First come, first served. Of fewer than 2 ^ 32 processors, in a run where no `__spin_trylock` is held up
  -- while the others take nearly a full round of tickets: no access of any processor puts more tickets before
  -- that of one that spins in `__spin_lock`.
  pub no_overtaking :
      (t : System)
      → Access n s t
      → ((i : ℕ) → IsPrompt n s.shared (s.procs i))
      → (j ticket : ℕ) → s.procs j ≡ spin ticket
      → served_before t.shared ticket ≤ served_before s.shared ticket
  no_overtaking _ (by i in_range access) now j ticket e =
      access-served_before (Reach-IsTicketed fewer r prompt) i in_range (now i) access j ticket e
