-- ===== src/Vsched/Mcfs/Fair.antt =====
-- No ready processor of a high criticality waits for ever.
use mathlib.Core.Bool.{true≢false}
use native.Mathlib.Nat.{mod-eq_of_lt, mod-eq-sub-mod}
use twan.Base.{
  ℕ, zero, suc, ◌+◌, ◌-◌, ◌%◌, ◌^◌, ◌≤◌, ◌<◌, ◌≡◌, ◌⊎◌, inl, inr, refl, sym, ap, ◌∙◌, true, ◌&&◌,
  arith, ltb, leb, if◌then◌else◌, dec_lt, ℕ_discrete,
}
use twan.Vsched.Vcpu.{Vcpus}
use twan.Vsched.Mcfs.{Vscheduler, is_ready, index_of, frame_at, vsched_pop}
use twan.Vsched.Mcfs.Pop.{high_at, ready_at, taken_at, Picked, high, low, idle, vsched_pop_lem}

-- The frames are few enough for the sums of `u32`s.
module _ (num_frames : ℕ) (few : num_frames < 2 ^ 31) where
  -- the rounds before frame `k` is looked at
  abbrev pub rounds_to : (clock k : ℕ) → ℕ
  rounds_to clock k = if leb clock k then k - clock else k + num_frames - clock

  index_of_lem :
      (clock i : ℕ)
      → clock ≤ num_frames
      → i < num_frames
      → index_of num_frames clock i
        ≡ (if ltb (clock + i) num_frames then clock + i else clock + i - num_frames)
  index_of_lem clock i c l =
      let whole : (clock + i) % 2 ^ 32 ≡ clock + i = omega (arith, few, c, l) in
      rw whole (elim (dec_lt (clock + i) num_frames) [
        | yes below ↦ ground (arith, mod-eq_of_lt below)
        | no over ↦
            let back : clock + i - num_frames < num_frames = omega (arith, c, l, over) in
            ground (arith, mod-eq-sub-mod (le_of_not over), mod-eq_of_lt back)
      ])
    where
      le_of_not : ¬ (clock + i < num_frames) → num_frames ≤ clock + i
      le_of_not h = omega (arith, h)

  -- the frame itself
  at_frame :
      (clock k : ℕ)
      → clock ≤ num_frames
      → k < num_frames
      → (rounds_to clock k < num_frames) × (index_of num_frames clock (rounds_to clock k) ≡ k)
  at_frame clock k c l =
      let near : rounds_to clock k < num_frames = ground (arith, c, l) in
      (near, index_of_lem clock (rounds_to clock k) c near ∙ ground (arith, c, l))

  -- After a pop of another processor, frame `k` is nearer.
  record Nearer (k : ℕ) (s t : Vscheduler) : Type 0 where
    pub clock_fits : t.clock ≤ num_frames
    pub same_frames : t.frames ≡ s.frames
    pub same_level : t.vcriticality_level ≡ s.vcriticality_level
    pub nearer : rounds_to t.clock k < rounds_to s.clock k

  module _ (vcpus : Vcpus) (s : Vscheduler) (k v : ℕ) (clock_fits : s.clock ≤ num_frames)
      (in_frames : k < num_frames) (frame : s.frames k ≡ v) (is_v_ready : is_ready vcpus v ≡ true)
      (is_v_high : leb s.vcriticality_level (vcpus v).criticality ≡ true) where
    v_at : frame_at num_frames vcpus s (rounds_to s.clock k) ≡ v
    v_at = ap s.frames (at_frame s.clock k clock_fits in_frames).1 ∙ frame

    high_v : high_at num_frames vcpus s (rounds_to s.clock k) ≡ true
    high_v =
        ap (λ a. is_ready vcpus a && leb s.vcriticality_level (vcpus a).criticality) v_at
        ∙ ground (arith, is_v_ready, is_v_high)

    ready_v : ready_at num_frames vcpus s (rounds_to s.clock k) ≡ true
    ready_v = ap (is_ready vcpus) v_at ∙ is_v_ready

    -- A round before that of frame `k` brings the clock nearer.
    step-Nearer : (i : ℕ) → i < rounds_to s.clock k → Nearer k s (taken_at num_frames vcpus s i).1
    step-Nearer i l =
        let in_row : i < num_frames =
          omega (arith, l, (at_frame s.clock k clock_fits in_frames).0) in
        let at = index_of_lem s.clock i clock_fits in_row in
        record {
          clock_fits = ground (arith, at, clock_fits, in_row);
          same_frames = refl;
          same_level = refl;
          nearer = ground (arith, at, clock_fits, in_row, l);
        }

    pop_step : (p : ℕ × Vscheduler) → Picked num_frames vcpus s p → (p.0 ≡ v) ⊎ Nearer k s p.1
    pop_step _ (high i first) = elim (ℕ_discrete i (rounds_to s.clock k)) [
      | yes e ↦ inl (ap (frame_at num_frames vcpus s) e ∙ v_at)
      | no ne ↦ elim (dec_lt (rounds_to s.clock k) i) [
        | yes past ↦ absurd (true≢false (sym high_v ∙ first.before (rounds_to s.clock k) past))
        | no before ↦ inr (step-Nearer i (omega (arith, ne, before)))
      ]
    ]
    pop_step _ (low i none first) = absurd (
        true≢false
          (sym high_v ∙ none (rounds_to s.clock k) (at_frame s.clock k clock_fits in_frames).0))
    pop_step _ (idle none) = absurd (
        true≢false
          (sym ready_v ∙ none (rounds_to s.clock k) (at_frame s.clock k clock_fits in_frames).0))

  -- the scheduler after `t` calls of `__vsched_pop`, where `world t` is what the call reads of the processors
  pub pops : (world : ℕ → Vcpus) (t : ℕ) → Vscheduler → Vscheduler
  pops world zero s = s
  pops world (suc t) s = pops (λ i. world (suc i)) t (vsched_pop num_frames (world 0) s).1

  -- A call that returns `v`, before `bound` calls.
  pub Taken : (world : ℕ → Vcpus) (v bound : ℕ) → Vscheduler → Type 0
  Taken world v bound s =
      (t : ℕ) × (t < bound) × ((vsched_pop num_frames (world t) (pops world t s)).0 ≡ v)

  Taken-weaken :
      (world : ℕ → Vcpus) (v b c : ℕ) (s : Vscheduler)
      → b ≤ c
      → Taken world v b s
      → Taken world v c s
  unfolding Taken
  Taken-weaken world v b c s l (t, below, e) = (t, omega (arith, l, below), e)

  fair_loop :
      (bound k v level : ℕ) (world : ℕ → Vcpus) (s : Vscheduler)
      → rounds_to s.clock k < bound
      → s.clock ≤ num_frames
      → k < num_frames
      → s.frames k ≡ v
      → s.vcriticality_level ≡ level
      → ((t : ℕ) → (is_ready (world t) v ≡ true) × (leb level (world t v).criticality ≡ true))
      → Taken world v bound s
  unfolding pops Taken
  fair_loop zero k v level world s near fits in_frames frame at stays = absurd (omega (arith, near))
  fair_loop (suc bound) k v level world s near fits in_frames frame at stays =
      elim (pop_step (world 0) s k v fits in_frames frame (stays 0).0 (rw at (stays 0).1) _
        (vsched_pop_lem num_frames (world 0) s)) [
          | inl e ↦ (0, omega arith, e)
          | inr n ↦
              let (t, below, e) =
                fair_loop bound k v level (λ i. world (suc i)) (vsched_pop num_frames (world 0) s).1
                  (omega (arith, near, n.nearer)) n.clock_fits in_frames
                  (ap (λ f. f k) n.same_frames ∙ frame) (n.same_level ∙ at) (λ i. stays (suc i)) in
              (suc t, omega (arith, below), e)
        ]

  -- With fewer than 2 ^ 31 frames and the clock in range: a processor that stands in a frame, and stays ready with a
  -- criticality of at least the level, is returned by one of the next `num_frames` calls of `__vsched_pop`,
  -- whatever becomes of the other processors in between.
  pub no_starvation :
      (k v : ℕ) (world : ℕ → Vcpus) (s : Vscheduler)
      → s.clock ≤ num_frames
      → k < num_frames
      → s.frames k ≡ v
      → ((t : ℕ)
          → (is_ready (world t) v ≡ true)
            × (leb s.vcriticality_level (world t v).criticality ≡ true))
      → Taken world v num_frames s
  no_starvation k v world s fits in_frames frame stays =
      fair_loop num_frames k v s.vcriticality_level world s (at_frame s.clock k fits in_frames).0
        fits in_frames frame refl stays
