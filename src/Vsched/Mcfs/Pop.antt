-- ===== src/Vsched/Mcfs/Pop.antt =====
-- `__vsched_pop` of the scheduler with frames.
use mathlib.Core.Path.{subst}
use twan.Base.{
  ℕ, zero, suc, ℕ_discrete, ◌+◌, ◌<◌, ◌≡◌, ◌⊎◌, inl, inr, refl, ap, ◌∙◌, Bool, true, false, ◌&&◌,
  arith, ◌==◌, if◌then◌else◌, Bool-cases,
}
use twan.Vsched.Vcpu.{Vcpus}
use twan.Vsched.Mcfs.{
  Vscheduler, set_clock, is_ready, index_of, frame_at, is_high, pop_loop, vsched_pop,
}

module _ (num_frames : ℕ) (vcpus : Vcpus) (s : Vscheduler) where
  -- the frame of round `i` holds a ready processor, or one of at least the level
  abbrev pub ready_at : ℕ → Bool
  ready_at i = is_ready vcpus (frame_at num_frames vcpus s i)

  abbrev pub high_at : ℕ → Bool
  high_at i = ready_at i && is_high num_frames vcpus s (frame_at num_frames vcpus s i)

  -- the processor of round `i`, with the clock behind its frame
  abbrev pub taken_at : ℕ → ℕ × Vscheduler
  taken_at i = (frame_at num_frames vcpus s i, set_clock s (index_of num_frames s.clock i + 1))

  -- `i` is the first round below `n` that passes the test.
  pub record IsFirst (test : ℕ → Bool) (n i : ℕ) : Type 0 where
    pub below : i < n
    pub passes : test i ≡ true
    pub before : (j : ℕ) → j < i → test j ≡ false

  abbrev pub NoneOf : (ℕ → Bool) → ℕ → Type 0
  NoneOf test n = (j : ℕ) → j < n → test j ≡ false

  -- The three ways `__vsched_pop` ends, in the order of the frames from the clock on.
  pub data Picked : ℕ × Vscheduler → Type 0 where
    high : (i : ℕ) → IsFirst high_at num_frames i → Picked (taken_at i)
    low : (i : ℕ) → NoneOf high_at num_frames → IsFirst ready_at num_frames i → Picked (taken_at i)
    idle : NoneOf ready_at num_frames → Picked (0, s)

  -- what the two locals say before round `n`
  Firsts : (n first_idx first_vcpu : ℕ) → Type 0
  Firsts n first_idx first_vcpu =
      ((first_vcpu ≡ 0) × NoneOf ready_at n)
      ⊎ ((i : ℕ) × IsFirst ready_at n i
          × (first_idx ≡ index_of num_frames s.clock i)
          × (first_vcpu ≡ frame_at num_frames vcpus s i))

  later_none : (test : ℕ → Bool) (n : ℕ) → NoneOf test n → test n ≡ false → NoneOf test (suc n)
  later_none test n none fails j l = elim (ℕ_discrete j n) [
    | yes e ↦ ap test e ∙ fails
    | no ne ↦ none j (omega (arith, l, ne))
  ]

  -- A frame that passes is no NULL.
  some_frame : (i : ℕ) → ready_at i ≡ true → (frame_at num_frames vcpus s i == 0) ≡ false
  some_frame i h = ground (arith, h)

  loop_end :
      (first_idx first_vcpu : ℕ)
      → NoneOf high_at num_frames
      → Firsts num_frames first_idx first_vcpu
      → Picked (if first_vcpu == 0 then (0, s) else (first_vcpu, set_clock s (first_idx + 1)))
  unfolding Firsts
  loop_end first_idx first_vcpu none (inl (z, n)) = rw z (idle n)
  loop_end first_idx first_vcpu none (inr (i, first, idx, vcpu)) =
      rw (idx, vcpu, some_frame i first.passes) (low i none first)

  next-Firsts :
      (i first_idx first_vcpu : ℕ)
      → Firsts i first_idx first_vcpu
      → Firsts
          (suc i)
          (if ready_at i && first_vcpu == 0 then index_of num_frames s.clock i else first_idx)
          (if ready_at i && first_vcpu == 0 then frame_at num_frames vcpus s i else first_vcpu)
  unfolding Firsts
  next-Firsts i first_idx first_vcpu (inl (z, none)) = elim (Bool-cases (ready_at i)) [
    | inl e ↦
        rw (e, z) (inr (i, record { below = omega arith; passes = e; before = none }, refl, refl))
    | inr e ↦ rw e (inl (z, later_none ready_at i none e))
  ]
  next-Firsts i first_idx first_vcpu (inr (k, first, idx, vcpu)) =
      let kept : (first_vcpu == 0) ≡ false = ap (λ v. v == 0) vcpu ∙ some_frame k first.passes in
      let no_new : (ready_at i && first_vcpu == 0) ≡ false = ground (arith, kept) in
      rw no_new (
        inr (
          k,
          record {
            below = omega (arith, first.below);
            passes = first.passes;
            before = first.before;
          },
          idx,
          vcpu,
        ))

  pop_loop_lem :
      (rounds i first_idx first_vcpu : ℕ)
      → i + rounds ≡ num_frames
      → NoneOf high_at i
      → Firsts i first_idx first_vcpu
      → Picked (pop_loop num_frames vcpus s rounds i first_idx first_vcpu)
  unfolding pop_loop
  pop_loop_lem zero i first_idx first_vcpu e none firsts =
      let all : i ≡ num_frames = omega (arith, e) in
      loop_end first_idx first_vcpu (subst (NoneOf high_at) all none)
        (subst (λ (n : ℕ). Firsts n first_idx first_vcpu) all firsts)
  pop_loop_lem (suc rounds) i first_idx first_vcpu e none firsts = elim (Bool-cases (high_at i)) [
    | inl h ↦ rw h (high i (record { below = omega (arith, e); passes = h; before = none }))
    | inr h ↦ rw h (
        pop_loop_lem rounds (suc i) _ _ (omega (arith, e)) (later_none high_at i none h)
          (next-Firsts i first_idx first_vcpu firsts))
  ]

  -- `__vsched_pop` looks at each frame once, from the clock on, and takes the first ready processor whose
  -- criticality reaches the level; if there is none, the first ready one; and it returns NULL, with nothing
  -- changed, exactly if no frame holds a ready processor. The clock moves behind the frame that was taken.
  pub vsched_pop_lem : Picked (vsched_pop num_frames vcpus s)
  unfolding vsched_pop Firsts
  vsched_pop_lem =
      pop_loop_lem num_frames 0 0 0 (omega arith) (λ j l. absurd (omega (arith, l)))
        (inl (refl, λ j l. absurd (omega (arith, l))))
