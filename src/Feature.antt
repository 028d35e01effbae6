-- ===== src/Feature.antt =====
-- The feature pipeline of an instrument: its samplers, its plugin instances, and the table of all.
pub mod Double
pub mod RowBuffer
pub mod Sampler
pub mod Emission
pub mod Bars
pub mod Advancing
pub mod Counting
pub mod Instances
pub mod Engine
pub mod Catalog
pub mod CatalogInvariant
pub mod CatalogColumns
pub mod CatalogSteps
pub mod Returning
pub mod ReadLayout
pub mod EngineInvariant
pub mod EngineEvents
pub mod Pipeline
pub mod PipelineRun
pub mod PipelineTable
pub mod TableRun
pub mod Resolving
pub mod TableApply
pub mod TableFeed
pub mod NewEngine
