-- ===== src/Host.antt =====
-- The limits that an agent keeps on its host: agent/internal/api/volumes_headroom.go (volumes that
-- may still be created), agent/internal/sandbox/volume_autogrow.go (growth of database volumes) and
-- agent/internal/sandbox/admission.go (memory). Files, the guest and /proc are parameters.
pub mod Headroom
pub mod Growth
pub mod Grown
pub mod Sweep
pub mod Admission
pub mod Packing
pub mod Examples
