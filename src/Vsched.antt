-- ===== src/Vsched.antt =====
-- The hypervisor's schedulers of virtual processors: src/subsys/twanvisor/vsched.
pub mod Vcpu
pub mod Mcfs
pub mod Mcqs
