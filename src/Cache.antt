-- ===== src/Cache.antt =====
-- cache.go: the binary cache, and the answers of router.go.
pub mod Names
pub mod Agree
pub mod Handlers
pub mod Serves
pub mod Archives
pub mod Narinfos
pub mod Upstream
pub mod Remote
