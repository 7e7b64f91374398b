-- ===== src/Gc.antt =====
-- gc.go: the collector. `gcOnce` walks over the chunks of the store, walks over the indices while three
-- workers check their contents, and then removes the dead indices and the dead chunks.
pub mod Limit
pub mod Chunks
pub mod Check
pub mod Indices
pub mod Workers
pub mod Sweep
pub mod Once
