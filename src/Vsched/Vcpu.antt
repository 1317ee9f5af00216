-- ===== src/Vsched/Vcpu.antt =====
-- include/subsys/twanvisor/vsched/vcpu.h: what the schedulers read of a virtual processor, and the counter of
-- vcpu.c.
use twan.Base.{ℕ, Bool, true, false}

-- `vcpu_state_t`
pub data VcpuState : Type 0 where
  ready : VcpuState
  running : VcpuState
  paused : VcpuState
  pv_spinning : VcpuState
  transitioning : VcpuState
  terminated : VcpuState
  initializing : VcpuState

abbrev pub state_is_ready : VcpuState → Bool
state_is_ready ready = true
state_is_ready _ = false

-- the fields of `vsched_metadata` that the queues read
pub record VschedMetadata : Type 0 where
  pub state : VcpuState
  pub criticality : ℕ

-- the virtual processors by address
abbrev pub Vcpus : Type 0
Vcpus = ℕ → VschedMetadata
