-- ===== src/Pool.antt =====
-- src/http/thread_pool.h and thread_pool.cc: worker threads that share a queue under one mutex.
pub mod Model
pub mod Order
pub mod Wakeups
pub mod Progress
pub mod Shutdown
mod Tests
