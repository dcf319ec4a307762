-- ===== src/Publication/EventSource.antt =====
-- `EventPublication` of src/g9/event_publication.{hpp,cpp}: the source of one product's event
-- sessions. Each call holds the mutex throughout (the clock is sampled before), so it is one step.
pub mod Types
mod Tests
pub mod Calls
pub mod Publish
pub mod Sessions
