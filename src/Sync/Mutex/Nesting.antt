-- ===== src/Sync/Mutex/Nesting.antt =====
-- What nested locks and their unlocks leave of the level of a task.
use twan.Base.{ℕ, zero, suc, ◌+◌, ◌^◌, ◌<◌, ◌≡◌, none, some, arith, update}
use twan.Sync.Mutex.{Mem, mutex_ipcp_trylock, mutex_ipcp_lock, mutex_ipcp_unlock}

-- `suc k` calls of `mutex_ipcp_trylock`, and of `mutex_ipcp_unlock` with nobody in the wait queue, by task `me`
unfoldable pub trylocks : (me k : ℕ) → Mem → Mem
trylocks me zero m = (mutex_ipcp_trylock me m).1
trylocks me (suc k) m = (mutex_ipcp_trylock me (trylocks me k m)).1

unfoldable pub unlocks : (me k : ℕ) → Mem → Mem
unlocks me zero m = mutex_ipcp_unlock me none m
unlocks me (suc k) m = unlocks me k (mutex_ipcp_unlock me none m)

-- Task `me` has locked the mutex `depth` times since `m`.
record IsNested (me depth : ℕ) (m now : Mem) : Type 0 where
  held : now.mutex.holder ≡ some me
  deep : now.mutex.count ≡ depth
  kept : now.mutex.last ≡ m.levels me
  others : (i : ℕ) → update now.levels me (m.levels me) i ≡ m.levels i

trylocks-IsNested :
    (me k : ℕ) (m : Mem)
    → m.mutex.holder ≡ none
    → k + 1 < 2 ^ 64
    → IsNested me (k + 1) m (trylocks me k m)
unfolding trylocks
trylocks-IsNested me zero m free small = record {
  held = ground arith;
  deep = ground arith;
  kept = ground arith;
  others = λ i. ground arith;
}
trylocks-IsNested me (suc k) m free small =
    let ok = trylocks-IsNested me k m free (omega (arith, small)) in
    record {
      held = ground (arith, ok.held);
      deep = ground (arith, ok.held, ok.deep);
      kept = ground (arith, ok.held, ok.kept);
      others = λ i. ground (arith, ok.held, ok.others i);
    }

unlocks-nested :
    (me k : ℕ) (m now : Mem)
    → IsNested me (k + 1) m now
    → ((unlocks me k now).mutex.holder ≡ none)
      × ((i : ℕ) → (unlocks me k now).levels i ≡ m.levels i)
unfolding unlocks
unlocks-nested me zero m now ok =
    (ground (arith, ok.deep), λ i. ground (arith, ok.deep, ok.kept, ok.others i))
unlocks-nested me (suc k) m now ok = unlocks-nested me k m (mutex_ipcp_unlock me none now) (record {
  held = ground (arith, ok.deep, ok.held);
  deep = ground (arith, ok.deep);
  kept = ground (arith, ok.deep, ok.kept);
  others = λ i. ground (arith, ok.deep, ok.others i);
})

-- From a free mutex, any number of nested `mutex_ipcp_trylock` of one task, from one up to one less than 2 ^ 64, and as
-- many `mutex_ipcp_unlock` with nobody in the wait queue leave the mutex free and give the task, and every other, the
-- level it had.
pub unlocks-trylocks :
    (me k : ℕ) (m : Mem)
    → m.mutex.holder ≡ none
    → k + 1 < 2 ^ 64
    → let m' = unlocks me k (trylocks me k m) in
      (m'.mutex.holder ≡ none) × ((i : ℕ) → m'.levels i ≡ m.levels i)
unlocks-trylocks me k m free small =
    unlocks-nested me k m (trylocks me k m) (trylocks-IsNested me k m free small)

-- From a free mutex, two nested `mutex_ipcp_lock` of one task and two `mutex_ipcp_unlock` with nobody in the wait queue
-- leave the mutex free, but the task at the ceiling: the inner lock stored the ceiling as the level to return to.
pub unlock-relock :
    (me : ℕ) (m : Mem)
    → m.mutex.holder ≡ none
    → let m' = unlocks me 1 (mutex_ipcp_lock me (mutex_ipcp_lock me m).1).1 in
      (m'.mutex.holder ≡ none) × (m'.levels me ≡ m.mutex.ceiling)
unfolding unlocks
unlock-relock me m free = ground arith
