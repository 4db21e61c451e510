-- ===== src/Tests.antt =====
-- Runs of the model on concrete inputs.
mod Intervals
mod ConsumerRuns
mod AssignorRuns
mod TableRuns
mod OtherRuns
mod SchedulerRuns
mod WindowRuns
mod ConductorRuns
mod BarrierRuns
mod ExpiryRuns
mod ManagerRuns
mod RocksRuns
mod StreamRuns
mod ProducerRuns
