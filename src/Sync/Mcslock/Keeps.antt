-- ===== src/Sync/Mcslock/Keeps.antt =====
-- An access of processor `who` keeps each field of `IsQueue`.
use twan.Base.{ℕ, ◌+◌, ◌≤◌, ◌<◌, ◌≡◌, refl, true, none, some, arith, update, dec_lt}
use twan.Sync.Mcslock.{
  Mcslock, queued, Pc, outside, ready, link, await, release, await_next, hand, Move, swap_free,
  swap_queued, set_link, enter, no_next, has_next, swap_out, swap_fails, next_came, hand_over,
}
use twan.Sync.Mcslock.Queue.{IsPlace, IsTail, RankHeld, IsQueue}

-- The ranks and counts after a step from `x` to `y`.
abbrev next_rank : (rank : ℕ → ℕ) (count who : ℕ) → Pc → ℕ → ℕ
next_rank rank count who ready = update rank who count
next_rank rank count who _ = rank

abbrev next_count : (count : ℕ) → Pc → ℕ
next_count count ready = count + 1
next_count count _ = count

abbrev next_served : (served : ℕ) → Pc → Pc → ℕ
next_served served release outside = served + 1
next_served served (hand _) _ = served + 1
next_served served _ _ = served

module _ {m : Mcslock} {procs : ℕ → Pc} (ok : IsQueue m procs) (who : ℕ) where
  open ok use {
    rank, served, count, served_le, ranks_fit, one_rank, last, places, behind, linked, unlinked,
    each_held, followed,
  }

  -- Processor `who` stands at `x`.
  record At (x : Pc) : Type 0 where
    was : procs who ≡ x
    knows : IsPlace m rank served who x
    fits : queued x ≡ true → (served ≤ rank who) × (rank who < count)

  place-At : At (procs who)
  place-At = record { was = refl; knows = places who; fits = ranks_fit who }

  still_fit :
      (i : ℕ) {x y : Pc} {after : Mcslock}
      → At x
      → Move who m x after y
      → queued (update procs who y i) ≡ true
      → (next_served served x y ≤ next_rank rank count who x i)
        × (next_rank rank count who x i < next_count count x)
  still_fit i go (swap_free e) = ground (arith, ranks_fit i, served_le)
  still_fit i go access = ground (arith, ranks_fit i, one_rank who i, served_le)

  still_one_rank :
      (i j : ℕ) {x y : Pc} {after : Mcslock}
      → At x
      → Move who m x after y
      → queued (update procs who y i) ≡ true
      → queued (update procs who y j) ≡ true
      → next_rank rank count who x i ≡ next_rank rank count who x j
      → i ≡ j
  still_one_rank i j go (swap_free e) = ground (arith, one_rank i j, ranks_fit i, ranks_fit j)
  still_one_rank i j go access = ground (arith, one_rank i j, ranks_fit i, ranks_fit j)

  still_last :
      {x y : Pc} {after : Mcslock}
      → At x
      → Move who m x after y
      → IsTail
          (update procs who y)
          (next_rank rank count who x)
          (next_served served x y)
          (next_count count x)
          after.tail
  still_last go (swap_free e) = ground arith
  still_last go (swap_queued e) = ground arith
  still_last go (swap_out e) = ground (arith, last)
  still_last go (hand_over {next}) = ground (arith, last, linked who next, ranks_fit next)
  still_last go access = ground (arith, last)

  still_served_le :
      {x y : Pc} {after : Mcslock}
      → At x
      → Move who m x after y
      → next_served served x y ≤ next_count count x
  still_served_le go (swap_free e) = ground (arith, served_le)
  still_served_le go access = ground (arith, served_le)

  still_behind :
      (i prev : ℕ) {x y : Pc} {after : Mcslock}
      → At x
      → Move who m x after y
      → update procs who y i ≡ link prev
      → (queued (update procs who y prev) ≡ true)
        × (next_rank rank count who x i ≡ next_rank rank count who x prev + 1)
  still_behind i prev go (swap_free e) = ground (arith, behind i prev, ranks_fit prev)
  still_behind i prev go (swap_queued e) = ground (arith, behind i prev, ranks_fit prev, last)
  still_behind i prev go (swap_out e) = ground (arith, behind i prev, last, ranks_fit i)
  still_behind i prev go (hand_over {next}) =
      ground (arith, behind i prev, linked who next, one_rank i next)
  still_behind i prev go access = ground (arith, behind i prev)

  still_linked :
      (i next : ℕ) {x y : Pc} {after : Mcslock}
      → At x
      → Move who m x after y
      → queued (update procs who y i) ≡ true
      → after.next i ≡ some next
      → (update procs who y next ≡ await)
        × (next_rank rank count who x next ≡ next_rank rank count who x i + 1)
  still_linked i next go (set_link {prev}) = ground (arith, linked i next, behind who prev)
  still_linked i next go (enter e) = ground (arith, linked i next, ranks_fit i)
  still_linked i next go access = ground (arith, linked i next, ranks_fit i)

  still_unlinked :
      (i j : ℕ) {x y : Pc} {after : Mcslock}
      → At x
      → Move who m x after y
      → queued (update procs who y i) ≡ true
      → queued (update procs who y j) ≡ true
      → next_rank rank count who x j ≡ next_rank rank count who x i + 1
      → after.next i ≡ none
      → update procs who y j ≡ link i
  still_unlinked i j go (set_link {prev}) =
      ground (arith, unlinked i j, behind who prev, one_rank i prev)
  still_unlinked i j go (swap_free e) = ground (arith, unlinked i j, ranks_fit i, ranks_fit j, last)
  still_unlinked i j go (swap_queued {prev} e) =
      ground (arith, unlinked i j, ranks_fit i, ranks_fit j, last, one_rank i prev)
  still_unlinked i j go access = ground (arith, unlinked i j, ranks_fit i)

  still_held :
      (r : ℕ) {x y : Pc} {after : Mcslock}
      → At x
      → Move who m x after y
      → next_served served x y ≤ r
      → r < next_count count x
      → RankHeld (update procs who y) (next_rank rank count who x) r
  still_held r go (swap_free e) l h = elim (dec_lt r count) [
    | no new ↦ (who, ground arith, ground arith)
    | yes old ↦ let (i, has, at) = each_held r l old in (i, ground arith, ground arith)
  ]
  still_held r go (swap_queued e) l h = elim (dec_lt r count) [
    | no new ↦ (who, ground arith, ground arith)
    | yes old ↦ let (i, has, at) = each_held r l old in (i, ground arith, ground arith)
  ]
  still_held r go access l h =
      let (i, has, at) = each_held r (omega arith) h in (i, ground arith, ground arith)

  not_linked : (prev : ℕ) → procs who ≡ link prev → m.next prev ≡ none
  not_linked prev e =
      elim (m.next prev) as (λ x. m.next prev ≡ x → m.next prev ≡ none) [
        | none ↦ λ q. q
        | some next ↦
            λ q. absurd (ground (arith, behind who prev, linked prev next, one_rank next who))
      ]
        refl

  still_places :
      (i : ℕ) {x y : Pc} {after : Mcslock}
      → At x
      → Move who m x after y
      → IsPlace after (next_rank rank count who x) (next_served served x y) i (update procs who y i)
  still_places i go (swap_out e) = ground (arith, places i, last, ranks_fit i, one_rank i who)
  still_places i go (hand_over {next}) =
      ground (arith, places i, linked who next, one_rank i next, one_rank i who)
  still_places i go (set_link {prev}) =
      ground (arith, places i, behind who prev, ranks_fit prev, not_linked prev go.was)
  still_places i go (enter e) = ground (arith, places i)
  still_places i go (no_next e) = ground (arith, places i)
  still_places i go (has_next e) = ground (arith, places i)
  still_places i go (next_came e) = ground (arith, places i)
  still_places i go (swap_free e) = ground (arith, places i)
  still_places i go access = ground (arith, places i)

  still_followed :
      (i : ℕ) {x y : Pc} {after : Mcslock}
      → At x
      → Move who m x after y
      → update procs who y i ≡ await_next
      → next_rank rank count who x i + 1 < next_count count x
  still_followed i go (swap_free e) = ground (arith, followed i)
  still_followed i go (swap_fails e) =
      elim m.tail
          as (λ x. m.tail ≡ x → update procs who await_next i ≡ await_next → rank i + 1 < count) [
            | none ↦ λ q h. ground (arith, followed i, last)
            | some j ↦ λ q h. ground (arith, followed i, last, one_rank j who)
          ]
        refl
  still_followed i go access = ground (arith, followed i)

  pub access-IsQueue :
      {y : Pc} {after : Mcslock}
      → Move who m (procs who) after y
      → IsQueue after (update procs who y)
  access-IsQueue {y} access = record {
    rank = next_rank rank count who (procs who);
    served = next_served served (procs who) y;
    count = next_count count (procs who);
    served_le = still_served_le place-At access;
    ranks_fit = λ i. still_fit i place-At access;
    one_rank = λ i j. still_one_rank i j place-At access;
    last = still_last place-At access;
    places = λ i. still_places i place-At access;
    behind = λ i prev. still_behind i prev place-At access;
    linked = λ i next. still_linked i next place-At access;
    unlinked = λ i j. still_unlinked i j place-At access;
    each_held = λ r. still_held r place-At access;
    followed = λ i. still_followed i place-At access;
  }
