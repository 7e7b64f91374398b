-- ===== src/Docker.antt =====
-- docker.go with upload_manager.go and blob_manager.go: the part of a Docker registry that takes blobs.
-- Each manager is a goroutine that answers one message at a time, and its callers wait for the answer:
-- a call is a step of its state.
pub mod Uploads
pub mod Blobs
pub mod Handlers
pub mod Manifests
