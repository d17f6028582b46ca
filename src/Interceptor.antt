-- ===== src/Interceptor.antt =====
-- The system call interceptor, a kernel module: A1/interceptor.c and A1/interceptor.h.
pub mod State
pub mod PidList
pub mod Command
pub mod Hooks
pub mod Effect
pub mod Watch
pub mod Consistent
pub mod Safety
pub mod Exit
pub mod Logging
pub mod Unload
pub mod Session
mod Tests
