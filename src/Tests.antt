-- ===== src/Tests.antt =====
-- Runs of the models at fixed inputs, and the theorems at inputs that meet their hypotheses.
mod Samples
mod Narinfos
mod Signing
mod Chunks
mod Stores
mod Registry
mod Caching
mod KeyFiles
mod Collector
mod Upstream
mod Manifests
mod Routing
mod InMemory
