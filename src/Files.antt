-- ===== src/Files.antt =====
-- src/file_transfer.cpp: files in chunks of 64 KB, sent and received.
pub mod Paths
pub mod Storage
pub mod Receive
pub mod Complete
pub mod Transfer
