-- ===== src/Examples.antt =====
-- Concrete runs, and the theorems at concrete inputs.
mod Environment
mod Books
mod Applications
mod Sampling
mod Pipelines
mod Tables
mod Texts
mod Hosts
mod Catalogs
mod Threads
mod AdapterThreads
mod WriterThreads
mod Runs
mod Sessions
