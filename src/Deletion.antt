-- ===== src/Deletion.antt =====
-- The deletion sequence: internal/controller/vcluster_finalizer.go. One function for each step,
-- the loop that runs them, and the pass that releases the object. Durations are in seconds.
pub mod Steps
pub mod Final
pub mod Sequence
pub mod Trace
pub mod Safety
pub mod Covered
pub mod Backed
pub mod Release
pub mod BackupOnce
pub mod BackupRecorded
pub mod RancherBound
pub mod RancherSkipped
