-- ===== src/Publication.antt =====
-- Publication to subscribers: src/g7/order_book_publication.{hpp,cpp} and
-- src/g9/event_publication.{hpp,cpp}.
pub mod Ring
pub mod Shared
pub mod Channel
pub mod EventChannel
pub mod EventSource
