-- ===== src/Base.antt =====
-- The helpers of directory base/: the blocking queue, threads, times, the logger and the log file.
pub mod BlockQueue
pub mod LogFile
pub mod Thread
pub mod Timestamp
pub mod Logger
