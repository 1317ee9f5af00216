-- ===== src/Tests/Vsched.antt =====
-- Frames of virtual processors.
use twan.Base.{◌≡◌, ◌*◌, refl, true, false, arith, ◌==◌, if◌then◌else◌}
use twan.Vsched.Vcpu.{ready, running, Vcpus}
use twan.Dq.{Links, link, dq, dq_pushback, dq_popfront, dq_peekfront}
use twan.Vsched.Mcqs.{vsched_node, vsched_push, push_queues, vsched_get_bucket}
use twan.Vsched.Mcqs
use twan.Vsched.Mcfs.{
  Vscheduler, vsched_pop, vsched_is_current_preemptible, preemptible_loop, pop_loop,
}
use twan.Vsched.Mcfs.Fair.{Taken, no_starvation}

-- The processor 20 is critical, 10 is not, and 30 is not ready.
abbrev vcpus : Vcpus
vcpus a = record {
  state = if a == 30 then running else ready;
  criticality = if a == 20 then 3 else 0;
}

abbrev four_frames : Vscheduler
four_frames = record {
  frames = λ i. if i == 0 then 10 else if i == 1 then 30 else if i == 3 then 20 else 0;
  clock = 4;
  vcriticality_level = 2;
  kick = false;
}

-- The first ready processor is passed over for the critical one, and then the clock stands at the end.
picks_critical : vsched_pop 4 vcpus four_frames ≡ (20, four_frames)
unfolding vsched_pop pop_loop
picks_critical = refl

falls_back :
    vsched_pop 4 vcpus (record four_frames { vcriticality_level = 4 })
    ≡ (10, record four_frames { vcriticality_level = 4; clock = 1 })
unfolding vsched_pop pop_loop
falls_back = refl

nobody_ready :
    vsched_pop 2 vcpus (record four_frames { frames = λ i. 30 * i })
    ≡ (0, record four_frames { frames = λ i. 30 * i })
unfolding vsched_pop pop_loop
nobody_ready = refl

preempted : vsched_is_current_preemptible 4 vcpus four_frames 10 ≡ true
unfolding vsched_is_current_preemptible preemptible_loop
preempted = refl

-- The frame before the clock is not looked at.
last_frame_skipped :
    vsched_is_current_preemptible 4 vcpus
      (record four_frames { frames = λ i. if i == 3 then 20 else 0 })
      10
    ≡ false
unfolding vsched_is_current_preemptible preemptible_loop
last_frame_skipped = refl

no_starvation_example : Taken 4 (omega arith) (λ t. vcpus) 20 4 four_frames
no_starvation_example =
    no_starvation 4 (omega arith) 3 20 (λ t. vcpus) four_frames (omega arith) (omega arith) refl
      (λ t. (refl, refl))

-- The queues of two criticalities. A processor of criticality 1 is pushed, popped from queue 1 and pushed again: its node
-- in queue 0, which the pop left there, is then linked to itself.
abbrev no_queues : Links × Mcqs.Vscheduler
no_queues = (
  λ a. link 0 0,
  record { queues = λ i. dq 0 0; paused_queue = dq 0 0; vcriticality_level = 1; kick = false },
)

abbrev both_levels : Vcpus
both_levels a = record { state = ready; criticality = 1 }

abbrev popped : Links × Mcqs.Vscheduler
unfolding Mcqs.vsched_pop
popped = let (vcpu, m, q) = Mcqs.vsched_pop 2 (vsched_push 2 both_levels 5 no_queues) in (m, q)

links_to_itself :
    ((vsched_push 2 both_levels 5 popped).0 (vsched_node 2 5 0)).next ≡ vsched_node 2 5 0
unfolding vsched_push push_queues Mcqs.vsched_pop vsched_get_bucket dq_pushback dq_popfront
    dq_peekfront popped
links_to_itself = refl
