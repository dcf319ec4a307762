-- ===== src/Publication/Channel.antt =====
-- `SubscriberChannel` of src/g7/order_book_publication.{hpp,cpp}: one bounded egress queue with a
-- reserved terminal slot. A call holds the mutex from its first access to its last, so it is one
-- step; waking waiters changes no state. `Snapshot` and `Update` stand for the protobuf messages
-- `LocalOrderBookSnapshot` and `std::shared_ptr<const DepthUpdate>`, which are only moved.
pub mod Types
mod Tests
pub mod Writer
pub mod Owner
pub mod Invariant
pub mod Delivery
