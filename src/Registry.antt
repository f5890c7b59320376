-- ===== src/Registry.antt =====
-- Package internal/registry: the tailnets by id, their persisted configuration, and the callbacks
-- that the tailnets get. The broadcaster is the interface `sse.Broadcaster`, over a state `B`.
pub mod Config
pub mod Store
pub mod World
pub mod Running
pub mod Changes
