-- ===== src/Examples.antt =====
-- Runs of the code at concrete inputs.
pub mod Samples
pub mod RegistryRuns
pub mod SelectorRuns
pub mod RelayRuns
pub mod PipelineRuns
pub mod OriginRuns
pub mod FlatJson
pub mod ThinkingRuns
pub mod StreamRuns
pub mod AccessRuns
pub mod ManagerRuns
pub mod PrepareRuns
