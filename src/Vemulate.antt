-- ===== src/Vemulate.antt =====
-- src/subsys/twanvisor/vemulate/vemulate_utils.c: which partition may reach which, and the levels of criticality.
-- The locks are not modelled: a call runs while it has the partitions that it uses.
pub mod Routes
pub mod Revoke
use twan.Base.{
  ℕ, ◌-◌, ◌<◌, Bool, true, false, not, ◌&&◌, ◌||◌, Option, none, some, ◌==◌, ltb, leb,
  if◌then◌else◌, update,
}
use twan.Bitmap.{Bmp256, bmp256_test, bmp256_set, bmp256_unset}
use twan.Vsched.Vcpu.{VcpuState, Vcpus}

-- the negative values that a call returns
pub data Errno : Type 0 where
  einval : Errno
  eperm : Errno
  efault : Errno

pub data Result {ℓ} (A : Type ℓ) : Type ℓ where
  ok : A → Result A
  error : Errno → Result A

-- `vcriticality_perm_t`
pub record CriticalityPerm : Type 0 where
  pub read : Bool
  pub write : Bool
  pub min_criticality_writeable : ℕ
  pub max_criticality_writeable : ℕ

-- `vroute_type_t`
abbrev pub vipi_route : ℕ
vipi_route = 0

abbrev pub vtlb_shootdown_route : ℕ
vtlb_shootdown_route = 1

abbrev pub vread_vcpu_state_route : ℕ
vread_vcpu_state_route = 2

abbrev pub vpv_spin_kick_route : ℕ
vpv_spin_kick_route = 3

abbrev pub num_route_types : ℕ
num_route_types = 4

-- `struct vpartition`: the eight maps of a partition are two families by the type of the route. Processor `i` has the
-- address `vcpus i`.
pub record Vpartition : Type 0 where
  pub receivers : ℕ → Bmp256
  pub senders : ℕ → Bmp256
  pub criticality_perms : ℕ → CriticalityPerm
  pub vcpus : ℕ → ℕ
  pub vcpu_count : ℕ

-- `vpartition_table`: an entry that is not valid is `none`
abbrev pub Table : Type 0
Table = ℕ → Option Vpartition

abbrev pub vpartition_get : Table → (vid : ℕ) → Option Vpartition
vpartition_get table vid = table vid

abbrev pub change_map : (allow : Bool) → Bmp256 → ℕ → Bmp256
change_map allow m vid = if allow then bmp256_set m vid else bmp256_unset m vid

abbrev pub put_receiver : Vpartition → (route_type vid : ℕ) → (allow : Bool) → Vpartition
put_receiver p route_type vid allow = record p {
  receivers = update p.receivers route_type (change_map allow (p.receivers route_type) vid);
}

abbrev pub put_sender : Vpartition → (route_type vid : ℕ) → (allow : Bool) → Vpartition
put_sender p route_type vid allow = record p {
  senders = update p.senders route_type (change_map allow (p.senders route_type) vid);
}

unfoldable pub vemu_set_route :
    Table → (target_vid sender_vid route_type : ℕ) → (allow : Bool) → Result Table
vemu_set_route table target_vid sender_vid route_type allow =
    if sender_vid == target_vid || leb num_route_types route_type
    then error einval
    else elim (vpartition_get table sender_vid) [
      | none ↦ error einval
      | some sender ↦ elim (vpartition_get table target_vid) [
        | none ↦ error einval
        | some target ↦ ok (
            update
              (update table sender_vid (some (put_receiver sender route_type target_vid allow)))
              target_vid (some (put_sender target route_type sender_vid allow)))
      ]
    ]

-- the checks of the calls on a processor of another partition, and the processor's address
pub far_vcpu : Table → (sender_vid target_vid route_type processor_id : ℕ) → Result ℕ
far_vcpu table sender_vid target_vid route_type processor_id =
    if target_vid == sender_vid then error einval else elim (vpartition_get table target_vid) [
      | none ↦ error einval
      | some target ↦
          if not (bmp256_test (target.senders route_type) sender_vid)
            || leb target.vcpu_count processor_id
          then error einval
          else ok (target.vcpus processor_id)
    ]

pub vemu_read_vcpu_state_far :
    Table → Vcpus → (sender_vid target_vid processor_id : ℕ) → Result VcpuState
unfolding far_vcpu
vemu_read_vcpu_state_far table vcpus sender_vid target_vid processor_id =
    elim (far_vcpu table sender_vid target_vid vread_vcpu_state_route processor_id) [
      | ok vcpu ↦ ok (vcpus vcpu).state
      | error e ↦ error e
    ]

-- `num_cpus` is `current->vpartition_num_cpus`
pub vemu_read_vcpu_state_local : Table → Vcpus → (vid num_cpus processor_id : ℕ) → Result VcpuState
vemu_read_vcpu_state_local table vcpus vid num_cpus processor_id =
    if leb num_cpus processor_id then error einval else elim (vpartition_get table vid) [
      | none ↦ error efault
      | some p ↦ ok (vcpus (p.vcpus processor_id)).state
    ]

-- `levels` is VSCHED_NUM_CRITICALITIES, `num_cpus` is `vnum_cpus()`, and `vcriticality_level` gives the level of each
-- processor.
module _ (levels num_cpus : ℕ) where
  pub vsched_mcs_write_criticality_level :
      (vcriticality_level : ℕ → ℕ) → (vprocessor_id criticality : ℕ) → Result (ℕ → ℕ)
  vsched_mcs_write_criticality_level vcriticality_level vprocessor_id criticality =
      if ltb (levels - 1) criticality
      then error einval
      else ok (update vcriticality_level vprocessor_id criticality)

  pub vemu_set_criticality_perm :
      Table → (vid physical_processor_id : ℕ) → CriticalityPerm → Result Table
  vemu_set_criticality_perm table vid physical_processor_id perm =
      let least = perm.min_criticality_writeable in
      let most = perm.max_criticality_writeable in
      if leb num_cpus physical_processor_id
        || (perm.write && (ltb most least || ltb (levels - 1) most))
      then error einval
      else elim (vpartition_get table vid) [
        | none ↦ error einval
        | some p ↦ ok (
            update table vid (
              some (record p {
                criticality_perms = update p.criticality_perms physical_processor_id perm;
              })))
      ]

  pub vemu_read_criticality_level :
      Table → (vcriticality_level : ℕ → ℕ) → (requester_vid physical_processor_id : ℕ) → Result ℕ
  vemu_read_criticality_level table vcriticality_level requester_vid physical_processor_id =
      if leb num_cpus physical_processor_id
      then error einval
      else elim (vpartition_get table requester_vid) [
        | none ↦ error einval
        | some p ↦
            if (p.criticality_perms physical_processor_id).read
            then ok (vcriticality_level physical_processor_id)
            else error eperm
      ]

  pub vemu_write_criticality_level :
      Table
      → (vcriticality_level : ℕ → ℕ) → (requester_vid physical_processor_id criticality_level : ℕ)
      → Result (ℕ → ℕ)
  unfolding vsched_mcs_write_criticality_level
  vemu_write_criticality_level table vcriticality_level requester_vid physical_processor_id
        criticality_level =
      if leb num_cpus physical_processor_id || ltb (levels - 1) criticality_level
      then error einval
      else elim (vpartition_get table requester_vid) [
        | none ↦ error einval
        | some p ↦
            let perm = p.criticality_perms physical_processor_id in
            if perm.write
              && (leb perm.min_criticality_writeable criticality_level
                  && leb criticality_level perm.max_criticality_writeable)
            then vsched_mcs_write_criticality_level vcriticality_level physical_processor_id
                criticality_level
            else error einval
      ]
