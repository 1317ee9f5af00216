-- ===== src/Sched/Aging.antt =====
-- `__sched_age`: how the set of the priorities that may run changes after each choice.
use twan.Base.{
  ℕ, ◌+◌, ◌*◌, ◌%◌, ◌^◌, ◌<◌, ◌≡◌, ◌≢◌, ◌⊎◌, inl, inr, refl, sym, ◌∙◌, Bool, true, false, ◌&&◌,
  Option, none, some, arith, ◌==◌, leb, Bool-cases, if◌then◌else◌,
}
use twan.Bitmap.{Bmp256, bmp256_test, bmp256_fls, bmp256_unset, bmp256_unset_all_above}
use twan.Bitmap.Laws.{
  IsWords, test-unset_all_above, test-set_all, test-unset, unset_all_above-IsWords,
}
use twan.Bitmap.Scan.{HighestBelow, bmp256_fls_lem}
use twan.Sched.{SchedPriorityq, sched_age, sched_reset_age}

-- the members of the set that are at most `last`
abbrev pub may_run : SchedPriorityq → (last c : ℕ) → Bool
may_run q last c = leb c last && bmp256_test q.aging_bitmap c

-- The set is full and the count starts again.
pub record IsReset (q' : SchedPriorityq) : Type 0 where
  pub full : (c : ℕ) → c < 256 → bmp256_test q'.aging_bitmap c ≡ true
  pub restarted : q'.iteration ≡ 0

-- The highest priority left is taken out of the set after its last round, else a round is counted.
pub record IsCounted (q : SchedPriorityq) (last p : ℕ) (q' : SchedPriorityq) : Type 0 where
  pub member : may_run q last p ≡ true
  pub highest : (c : ℕ) → p < c → c < 256 → may_run q last c ≡ false
  pub not_least : p ≢ 0
  pub iteration_after :
      q'.iteration ≡ (if q.iteration == p * 2 then 0 else (q.iteration + 1) % 2 ^ 32)
  pub set_after :
      (c : ℕ)
      → c < 256
      → bmp256_test q'.aging_bitmap c
        ≡ (if (q.iteration == p * 2) && (p == c) then false else may_run q last c)

abbrev pub Aged : SchedPriorityq → (last : ℕ) → SchedPriorityq → Type 0
Aged q last q' =
    (IsReset q' × ((c : ℕ) → 0 < c → c < 256 → may_run q last c ≡ false))
    ⊎ ((p : ℕ) × IsCounted q last p q')

sched_reset_age-IsReset : (q : SchedPriorityq) → IsReset (sched_reset_age q)
unfolding sched_reset_age
sched_reset_age-IsReset q = record {
  full = λ c hc. test-set_all q.aging_bitmap c hc;
  restarted = refl;
}

module _ (q : SchedPriorityq) (last : ℕ) (words : IsWords q.aging_bitmap) (hl : last < 256) where
  above : Bmp256
  above = bmp256_unset_all_above q.aging_bitmap last

  above_is : (c : ℕ) → c < 256 → bmp256_test above c ≡ may_run q last c
  unfolding above
  above_is c hc = test-unset_all_above q.aging_bitmap last c hl hc

  above-IsWords : IsWords above
  unfolding above
  above-IsWords = unset_all_above-IsWords q.aging_bitmap last words

  -- the branches of `__sched_age` once the highest priority `p` is found
  counted : (p : ℕ) → SchedPriorityq
  counted p =
      let q1 = record q { aging_bitmap = above } in
      if q.iteration == p * 2
      then record q1 { aging_bitmap = bmp256_unset above p; iteration = 0 }
      else record q1 { iteration = (q.iteration + 1) % 2 ^ 32 }

  counted-IsCounted :
      (p : ℕ) → HighestBelow above 256 (some p) → p ≢ 0 → IsCounted q last p (counted p)
  unfolding counted
  counted-IsCounted p (hp, set, none_above) ne = record {
    member = sym (above_is p hp) ∙ set;
    highest = λ c l hc. sym (above_is c hc) ∙ none_above c l hc;
    not_least = ne;
    iteration_after = ground arith;
    set_after = λ c hc. elim (Bool-cases (q.iteration == p * 2)) [
      | inl e ↦ rw e (ground (arith, test-unset above p c above-IsWords hp, above_is c hc))
      | inr e ↦ rw e (above_is c hc)
    ];
  }

  -- `__sched_age` of a priority below 256, on words of 64 bits. Only the priorities of the aging set up to
  -- the last one stay. If none of them is above 0, the set becomes full and the count 0; otherwise
  -- the highest of them, `p`, leaves the set, with the count 0, if the count is exactly 2 * p, and
  -- the count goes up by one, modulo 2 ^ 32, if it is anything else.
  pub sched_age_lem : Aged q last (sched_age last q)
  unfolding sched_age above counted
  sched_age_lem = go (bmp256_fls above) (bmp256_fls_lem above above-IsWords)
    where
      go :
          (o : Option ℕ)
          → HighestBelow above 256 o
          → Aged q last (elim o as (λ _. SchedPriorityq) [
            | none ↦ sched_reset_age (record q { aging_bitmap = above })
            | some priority ↦
                if priority == 0
                then sched_reset_age (record q { aging_bitmap = above })
                else counted priority
          ])
      go none h = inl (
        sched_reset_age-IsReset (record q { aging_bitmap = above }),
        λ c l hc. sym (above_is c hc) ∙ h c hc,
      )
      go (some p) h = elim (Bool-cases (p == 0)) [
        | inl e ↦ rw e (
            inl (
              sched_reset_age-IsReset (record q { aging_bitmap = above }),
              λ c l hc. sym (above_is c hc) ∙ h.2 c (ground arith) hc,
            ))
        | inr e ↦ rw e (inr (p, counted-IsCounted p h (ground arith)))
      ]
