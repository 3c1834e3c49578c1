-- ===== src/Xlog.antt =====
-- xlog.py: the names of WAL files, segments, LSNs, history files and the archive check.
pub mod Name
pub mod Segments
pub mod Lsn
pub mod Archive
pub mod History
