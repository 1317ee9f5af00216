-- ===== src/Vsched/Mcqs.antt =====
-- The first half of src/subsys/twanvisor/vsched/vsched_dsa.c: the scheduler with a queue for each criticality
-- (CONFIG_TWANVISOR_VSCHED_MCQS). A virtual processor has a node for each criticality: `vsched_nodes[i]` of the
-- processor `vcpu` has the address `vcpu * levels + i`, where `levels` is VSCHED_NUM_CRITICALITIES. A `Links` and a
-- `Vscheduler` are the memory that the functions change; the lock is not modelled.
use twan.Base.{
  ℕ, zero, suc, ◌+◌, ◌-◌, ◌*◌, ◌/◌, Bool, true, false, not, ◌||◌, Option, none, some, ◌==◌, ltb,
  leb, if◌then◌else◌, update,
}
use twan.Dq.{Links, Dq, dq_peekfront, dq_popfront, dq_pushback, dq_dequeue, dq_is_queued}
use twan.Vsched.Vcpu.{ready, state_is_ready, Vcpus}

-- `struct vscheduler`; `kick` is whether the idle processor was called
pub record Vscheduler : Type 0 where
  pub queues : ℕ → Dq
  pub paused_queue : Dq
  pub vcriticality_level : ℕ
  pub kick : Bool

-- The criticality that the pointer receives; the queue is that of the criticality.
unfoldable pub vsched_get_bucket : Vscheduler → Option ℕ
vsched_get_bucket s =
    if not (dq_peekfront (s.queues s.vcriticality_level) == 0)
    then some s.vcriticality_level
    else if s.vcriticality_level == 0
    then none
    else if dq_peekfront (s.queues 0) == 0
    then none
    else some 0

pub vsched_is_current_preemptible : Vcpus → Vscheduler → (current : ℕ) → Bool
unfolding vsched_get_bucket
vsched_is_current_preemptible vcpus s current = elim (vsched_get_bucket s) [
  | none ↦ false
  | some next_criticality ↦
      ltb (vcpus current).criticality s.vcriticality_level
      || leb s.vcriticality_level next_criticality
]

abbrev pub put_queue : Vscheduler → ℕ → Dq → Vscheduler
put_queue s i d = record s { queues = update s.queues i d }

module _ (levels : ℕ) where
  -- `&vcpu->vsched_nodes[i]`
  abbrev pub vsched_node : (vcpu i : ℕ) → ℕ
  vsched_node vcpu i = vcpu * levels + i

  abbrev pub vsched_node_to_vcpu : (node criticality : ℕ) → ℕ
  vsched_node_to_vcpu node criticality = (node - criticality) / levels

  -- the first rounds of the loop of `__vsched_push`
  unfoldable pub push_queues : (rounds vcpu : ℕ) → Links × Vscheduler → Links × Vscheduler
  push_queues zero vcpu s = s
  push_queues (suc i) vcpu s =
      let (m, q) = push_queues i vcpu s in
      let (m1, d) = dq_pushback (vsched_node vcpu i) (m, q.queues i) in (m1, put_queue q i d)

  unfoldable pub vsched_push : Vcpus → (vcpu : ℕ) → Links × Vscheduler → Links × Vscheduler
  unfolding push_queues
  vsched_push vcpus vcpu s =
      let (m, q) = push_queues (suc (vcpus vcpu).criticality) vcpu s in
      (m, record q { kick = true })

  pub vsched_push_paused : (vcpu : ℕ) → Links × Vscheduler → Links × Vscheduler
  vsched_push_paused vcpu (m, q) =
      let (m1, d) = dq_pushback (vsched_node vcpu 0) (m, q.paused_queue) in
      (m1, record q { paused_queue = d })

  -- The virtual processor comes first; NULL is `none`.
  unfoldable pub vsched_pop : Links × Vscheduler → Option ℕ × Links × Vscheduler
  unfolding vsched_get_bucket
  vsched_pop (m, q) = elim (vsched_get_bucket q) [
    | none ↦ (none, m, q)
    | some criticality ↦
        let (node, m1, d) = dq_popfront (m, q.queues criticality) in
        (some (vsched_node_to_vcpu node criticality), m1, put_queue q criticality d)
  ]

  -- the first rounds of the loop of `__vsched_dequeue`
  dequeue_queues : (rounds vcpu : ℕ) → Links × Vscheduler → Links × Vscheduler
  dequeue_queues zero vcpu s = s
  dequeue_queues (suc i) vcpu s =
      let (m, q) = dequeue_queues i vcpu s in
      let (m1, d) = dq_dequeue (vsched_node vcpu i) (m, q.queues i) in
      if dq_is_queued (vsched_node vcpu i) (m, q.queues i) then (m1, put_queue q i d) else (m, q)

  pub vsched_dequeue : Vcpus → (vcpu : ℕ) → Links × Vscheduler → Links × Vscheduler
  unfolding dequeue_queues
  vsched_dequeue vcpus vcpu s = dequeue_queues (suc (vcpus vcpu).criticality) vcpu s

  pub vsched_dequeue_paused : (vcpu : ℕ) → Links × Vscheduler → Links × Vscheduler
  vsched_dequeue_paused vcpu (m, q) =
      let (m1, d) = dq_dequeue (vsched_node vcpu 0) (m, q.paused_queue) in
      if dq_is_queued (vsched_node vcpu 0) (m, q.paused_queue)
      then (m1, record q { paused_queue = d })
      else (m, q)

  pub vsched_unpause : (vcpu : ℕ) → Vcpus × Links × Vscheduler → Vcpus × Links × Vscheduler
  unfolding vsched_dequeue_paused vsched_push
  vsched_unpause vcpu (vcpus, m, q) =
      let s = vsched_dequeue_paused vcpu (m, q) in
      let vcpus1 = update vcpus vcpu (record (vcpus vcpu) { state = ready }) in
      let (m1, q1) = vsched_push vcpus1 vcpu s in (vcpus1, m1, q1)

  pub vsched_update_criticality :
      (vcpu criticality : ℕ) → Vcpus × Links × Vscheduler → Vcpus × Links × Vscheduler
  unfolding vsched_dequeue vsched_push
  vsched_update_criticality vcpu criticality (vcpus, m, q) =
      let vcpus1 = update vcpus vcpu (record (vcpus vcpu) { criticality = criticality }) in
      let s = vsched_dequeue vcpus vcpu (m, q) in
      let (m1, q1) = vsched_push vcpus1 vcpu s in
      if state_is_ready (vcpus vcpu).state then (vcpus1, m1, q1) else (vcpus1, m, q)
