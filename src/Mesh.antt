-- ===== src/Mesh.antt =====
-- src/mesh_engine.cpp: the mesh engine, over the state of World.
pub mod Devices
pub mod Inbox
pub mod Outbox
pub mod Service
pub mod Runs
pub mod Identity
pub mod Keyed
pub mod SendFile
