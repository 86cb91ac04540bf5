-- ===== src/Tests.antt =====
-- Concrete collaborators that meet the assumptions, runs over them, and the theorems at such inputs.
pub mod MemoryRedis
pub mod Office
pub mod MemoryTable
pub mod PlainTable
pub mod Outages
pub mod TableRuns
pub mod CacheRuns
pub mod ServiceRuns
pub mod LockRuns
pub mod SchedulerRuns
pub mod ServerRuns
mod DomainRuns
mod ClusterRuns
pub mod FleetRuns
mod CrashRuns
mod DrainRuns
mod ApplicationRuns
mod MainRuns
mod ResendRuns
mod PoolRuns
mod MiddlewareRuns
mod OutageRuns
pub mod MockRuns
mod ProbeRuns
mod ToolRuns
