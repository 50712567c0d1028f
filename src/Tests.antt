-- ===== src/Tests.antt =====
-- Runs of the controllers on concrete objects, over a concrete store of conditions.
mod World
mod Deletion
mod Rancher
mod Observation
mod Admission
mod Life
mod Marker
mod Provision
mod Floor
mod Charts
mod Cluster
mod Velero
mod Crossing
mod Office
mod Door
mod Groups
mod Shop
mod Files
