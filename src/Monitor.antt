-- ===== src/Monitor.antt =====
-- The resource monitors: GPUs, CPUs, and the allocator over both.
pub mod Gpu
pub mod ProcStat
pub mod Cpu
pub mod Resource
