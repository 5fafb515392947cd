-- ===== src/Tests.antt =====
-- Small inputs, runs of the model on them, and the theorems at concrete inputs.
pub mod Plain
pub mod Samples
mod QueueRuns
mod PodRuns
mod CycleRuns
mod SystemRuns
mod StartRuns
mod StoreRuns
mod SimulatorRuns
pub mod ConfigRuns
mod ServiceRuns
mod ConversionRuns
mod ScoreRuns
mod RetriedRuns
