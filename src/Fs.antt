-- ===== src/Fs.antt =====
-- fs.rs: the file system's view of the tree. Its keys and values, and the records of its journal.
pub mod Result
pub mod State
pub mod Subvolumes
pub mod Names
pub mod Files
pub mod Reclaim
pub mod Gc
pub mod Snapshots
pub mod Keys
pub mod Values
pub mod Commit
