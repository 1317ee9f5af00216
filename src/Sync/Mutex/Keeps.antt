-- ===== src/Sync/Mutex/Keeps.antt =====
-- A step of task `me` keeps `IsHeld`.
use twan.Base.{ℕ, ◌≡◌, refl, arith, update}
use twan.Sync.Mutex.{
  Mem, Pc, Move, enter, sleep, wake, try, try_nested, unlock_nested, unlock, unlock_wakes,
}
use twan.Sync.Mutex.Holding.{IsPlace, IsHeld}

module _ {m : Mem} {procs : ℕ → Pc} (ok : IsHeld m procs) (me : ℕ) where
  open ok use {places}

  record At (x : Pc) : Type 0 where
    was : procs me ≡ x
    knows : IsPlace m me x

  still_places :
      (i : ℕ) {x y : Pc} {after : Mem}
      → At x
      → Move me m x after y
      → IsPlace after i (update procs me y i)
  still_places i go (enter in_time small) = ground (arith, places i)
  still_places i go (sleep in_time) = ground (arith, places i)
  still_places i go (wake woken) = ground (arith, places i)
  still_places i go (try in_time small) = ground (arith, places i)
  still_places i go (try_nested in_time small) = ground (arith, places i)
  still_places i go (unlock_nested more) = ground (arith, places i)
  still_places i go (unlock last) = ground (arith, places i)
  still_places i go (unlock_wakes w last sleeps) = ground (arith, places i, places w)
  still_places i go access = ground (arith, places i)

  pub access-IsHeld :
      {y : Pc} {after : Mem} → Move me m (procs me) after y → IsHeld after (update procs me y)
  access-IsHeld access =
      let go : At (procs me) = record { was = refl; knows = places me } in
      record { places = λ i. still_places i go access }
