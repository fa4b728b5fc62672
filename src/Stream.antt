-- ===== src/Stream.antt =====
-- src/search.rs: the state of a streaming search (`StreamingRouteState`), in the module `State`;
-- its progress and reports in `Progress`; the events that it emits in `Events`. The other modules
-- prove what the state and the events promise.
pub mod State
pub mod Progress
pub mod Events
pub mod Session
pub mod Frame
pub mod Best
pub mod Top
pub mod TopRoutes
pub mod Delivery
pub mod Gate
pub mod Stops
pub mod Bounds
