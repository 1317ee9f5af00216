-- ===== src/Vsched/Mcfs.antt =====
-- The second half of src/subsys/twanvisor/vsched/vsched_dsa.c: the scheduler with frames
-- (CONFIG_TWANVISOR_VSCHED_MCFS), and the entry and removal of a frame in vemulate/vemulate_utils.c. `num_frames` is
-- CONFIG_TWANVISOR_VSCHED_NUM_FRAMES; an address is a number and NULL is 0. The lock is not modelled.
pub mod Pop
pub mod Fair
use twan.Base.{
  ℕ, zero, suc, ◌+◌, ◌-◌, ◌%◌, ◌^◌, Bool, true, false, not, ◌&&◌, ◌||◌, ◌==◌, ltb, leb,
  if◌then◌else◌, update,
}
use twan.Vsched.Vcpu.{VcpuState, ready, state_is_ready, VschedMetadata, Vcpus}

-- `struct vscheduler`; `kick` is whether the idle processor was called
pub record Vscheduler : Type 0 where
  pub frames : ℕ → ℕ
  pub clock : ℕ
  pub vcriticality_level : ℕ
  pub kick : Bool

abbrev pub set_clock : Vscheduler → ℕ → Vscheduler
set_clock s clock = record s { clock = clock }

-- `vcpu && vcpu->vsched_metadata.state == VREADY`
abbrev pub is_ready : Vcpus → (vcpu : ℕ) → Bool
is_ready vcpus vcpu = not (vcpu == 0) && state_is_ready (vcpus vcpu).state

module _ (num_frames : ℕ) where
  -- `cur_idx` of a round; `clock` and `i` are `u32`
  abbrev pub index_of : (clock i : ℕ) → ℕ
  index_of clock i = (clock + i) % 2 ^ 32 % num_frames

  module _ (vcpus : Vcpus) (s : Vscheduler) where
    -- the frame that is looked at in round `i`
    abbrev pub frame_at : (i : ℕ) → ℕ
    frame_at i = s.frames (index_of s.clock i)

    abbrev pub is_high : (vcpu : ℕ) → Bool
    is_high vcpu = leb s.vcriticality_level (vcpus vcpu).criticality

    -- the loop of `__vsched_is_current_preemptible`, `rounds` before the end
    unfoldable pub preemptible_loop : (rounds i criticality : ℕ) → Bool
    preemptible_loop zero i criticality = false
    preemptible_loop (suc rounds) i criticality =
        let rest = preemptible_loop rounds (suc i) criticality in
        let vcpu = frame_at i in
        if is_ready vcpus vcpu && (ltb criticality s.vcriticality_level || is_high vcpu)
        then true
        else rest

    unfoldable pub vsched_is_current_preemptible : (current : ℕ) → Bool
    unfolding preemptible_loop
    vsched_is_current_preemptible current =
        preemptible_loop (num_frames - 1) 0 (vcpus current).criticality

    -- the loop of `__vsched_pop` and what follows it
    unfoldable pub pop_loop : (rounds i first_idx first_vcpu : ℕ) → ℕ × Vscheduler
    pop_loop zero i first_idx first_vcpu =
        if first_vcpu == 0 then (0, s) else (first_vcpu, set_clock s (first_idx + 1))
    pop_loop (suc rounds) i first_idx first_vcpu =
        let cur_idx = index_of s.clock i in
        let vcpu = frame_at i in
        let is_first = is_ready vcpus vcpu && first_vcpu == 0 in
        let rest =
          pop_loop rounds (suc i) (if is_first then cur_idx else first_idx)
            (if is_first then vcpu else first_vcpu) in
        if is_ready vcpus vcpu && is_high vcpu then (vcpu, set_clock s (cur_idx + 1)) else rest

    -- The virtual processor comes first.
    unfoldable pub vsched_pop : ℕ × Vscheduler
    unfolding pop_loop
    vsched_pop = pop_loop num_frames 0 0 0

  -- the first rounds of the loop of `__vsched_dequeue`
  dequeue_loop : (rounds vcpu : ℕ) → Vscheduler → Vscheduler
  dequeue_loop zero vcpu s = s
  dequeue_loop (suc i) vcpu s =
      let before = dequeue_loop i vcpu s in
      if before.frames i == vcpu
      then record before { frames = update before.frames i 0 }
      else before

  pub vsched_dequeue : (vcpu : ℕ) → Vscheduler → Vscheduler
  unfolding dequeue_loop
  vsched_dequeue vcpu s = dequeue_loop num_frames vcpu s

  pub vsched_dequeue_paused : (vcpu : ℕ) → Vscheduler → Vscheduler
  unfolding vsched_dequeue
  vsched_dequeue_paused vcpu s = vsched_dequeue vcpu s

pub vsched_unpause : (vcpu : ℕ) → Vcpus × Vscheduler → Vcpus × Vscheduler
vsched_unpause vcpu (vcpus, s) =
    (update vcpus vcpu (record (vcpus vcpu) { state = ready }), record s { kick = true })

pub vsched_update_criticality : (vcpu criticality : ℕ) → Vcpus → Vcpus
vsched_update_criticality vcpu criticality vcpus =
    update vcpus vcpu (record (vcpus vcpu) { criticality = criticality })
