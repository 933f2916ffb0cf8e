-- ===== src/Tests.antt =====
-- Runs of the definitions on concrete states, and the theorems at them.
pub mod Bitmaps
pub mod Cpu
pub mod Multitasking
pub mod Files
pub mod Clock
pub mod OpenFiles
pub mod FileCalls
pub mod SystemCalls
pub mod Semaphores
