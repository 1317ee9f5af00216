-- ===== src/Sync/Mutex/Safety.antt =====
-- What holds in every reachable state of tasks that lock and unlock one mutex.
use twan.Base.{ℕ, ◌≡◌, some, arith}
use twan.Sync.Interleave.{System, Reach, Reach-kept}
use twan.Sync.Mutex.{Mem, Level, Pc, outside, inside, Move, initialize_mutex_ipcp}
use twan.Sync.Mutex.Holding.{IsHeld}
use twan.Sync.Mutex.Keeps.{access-IsHeld}

-- after `INITIALIZE_MUTEX_IPCP`, with nobody inside
abbrev pub initial : (ceiling : Level) (levels : ℕ → Level) → System Mem Pc
initial ceiling levels = record { procs = λ _. outside; mem = initialize_mutex_ipcp ceiling levels }

module _ {n : ℕ} (ceiling : Level) (levels : ℕ → Level) {s : System Mem Pc}
    (r : Reach Move n (initial ceiling levels) s) where
  IsHeld-initial : IsHeld (initialize_mutex_ipcp ceiling levels) (λ _. outside)
  IsHeld-initial = record { places = λ i. ground arith }

  held : IsHeld s.mem s.procs
  held =
      Reach-kept Move n (λ t. IsHeld t.mem t.procs) IsHeld-initial
        (λ who before after place in_range access ok. access-IsHeld ok who access) r

  -- Of any number of tasks that lock, try, nest and unlock a mutex that `INITIALIZE_MUTEX_IPCP` set up, in any order, and
  -- whomever of the waiting tasks an unlock wakes, or if it wakes nobody: two are never inside together; one that is
  -- inside is the holder, runs at the ceiling, and `count` is the depth of its nesting.
  pub mutex_exclusion :
      (i j depth depth' : ℕ)
      → s.procs i ≡ inside depth
      → s.procs j ≡ inside depth'
      → (i ≡ j)
        × (s.mem.mutex.holder ≡ some i)
        × (s.mem.levels i ≡ s.mem.mutex.ceiling)
        × (s.mem.mutex.count ≡ depth)
  mutex_exclusion i j depth depth' in_i in_j =
      let ok = held in ground (arith, ok.places i, ok.places j)
