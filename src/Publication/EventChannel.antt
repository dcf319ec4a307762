-- ===== src/Publication/EventChannel.antt =====
-- `EventSubscriberChannel` of src/g9/event_publication.{hpp,cpp}: the channel of an event session,
-- bound to one stream and one source generation.
pub mod Types
pub mod Calls
pub mod Laws
