-- ===== src/Lib.antt =====
-- The Binance market data gateway: a verification of its core, beside the code.
--
-- The gateway reads one or more products of the exchange, keeps a projected order book for each, and
-- serves it to clients over gRPC. What a client receives passes through a bounded queue of its own: a
-- `SubscriberChannel` for the order book (src/g7), an `EventSubscriberChannel` for single events
-- (src/g9), whose source is an `EventPublication`. The producer's thread puts records in and never
-- waits; when a queue is full it ends that session with a terminal record. The handler's thread peeks,
-- writes to the client, and acknowledges. The configuration surface and the lifecycle seam stand in
-- front (src/config.cpp, src/lifecycle.cpp).
--
-- Files and code:
--   Base, Base/*: helpers; the words of 64 bits, decimal numbers (`std::to_string`, `std::from_chars`)
--     and byte strings (`find`, `rfind`, `substr`) as the C++ standard library defines them.
--   Config/Types: include/binance_market_data/gateway/v1/config.hpp. Config/Symbol: `valid_symbol`,
--     Config/Endpoint: `valid_host_token`, `parse_port`, `parse_listen_endpoint`, Config/Validate:
--     `validate_endpoint`, `validate_config`, all of src/config.cpp.
--   Lifecycle: `Foundation` of src/lifecycle.cpp.
--   Publication/Ring: `ring_push_locked`, `ring_pop_locked`, `clear_from_writer_locked`.
--   Publication/Channel: `SubscriberChannel` of src/g7/order_book_publication.cpp; Owner has the calls
--     of the producer, Writer those of the handler. Delivery has the handler's loop with the owner's
--     calls before, between and after `peek` and `acknowledge`.
--   Publication/EventChannel: `EventSubscriberChannel` of src/g9/event_publication.cpp.
--   Publication/EventSource: `EventPublication` of the same file; Sessions has its histories.
--   Daemon: `parse_daemon_config` of src/production/daemon_config.cpp, up to the loading of the file.
--   Registry: `MarketKeyLess` and `MarketRuntimeRegistry` of src/g11/market_key.hpp and
--     src/g11/market_registry.cpp. `std::sort` is an insertion sort; where the two could differ, on
--     equal keys, the constructor throws.
--   Recovery: `classify_failure`, `parse_retry_after`, `normal_backoff_delay`, `record_failure` and the
--     decisions of `coordinator_loop` of src/g5/spot_recovery.cpp; not its loop.
--   Runtime: `MarketRuntime::Impl` of src/g3/market_runtime.{hpp,cpp}. Projection has the projection
--     library and its adapter, a record of types and operations. Calls, Requests and Waits have the
--     calls of other threads, Faults, Publish, Process, Admission and Answers the owner's work, Owner
--     its loop. Handling has what each of the owner's functions keeps; Histories has the histories of
--     calls and owner's steps; Behaviour has single operations. A turn of the owner is two steps, the
--     choice under the lock and the work: calls of other threads come between turns and between those
--     two; finer interleavings, within a work, are not modelled. A call that waits
--     for the owner is split at its wait. Copies into the deques have memory.
--     The projection's reads may throw in the answer to a reset; elsewhere that ends the process.
--   Status: `map_runtime_state` and `collect` of src/g10/gateway_status.cpp, over the observations of
--     the runtimes, the recoveries and the event sources, which are parameters.
--   Tests below each part: the definitions and theorems at concrete inputs.
--
-- State and concurrency: an object is a record of its fields, and a method that changes it returns the
-- new record. Every method of the channels and of the event source holds the object's mutex from its
-- first access to its last, so it is one step, and a concurrent run is a sequence of steps in any
-- order. Waking waiters changes no state. Shared pointers are compared by address, and a shared object
-- carries its address.
--
-- Numbers: `std::uint64_t` and `std::size_t` are natural numbers with the wrap-around written out. A
-- text is a list of bytes. The capacity of a queue is at most 2 ^ 63 where arithmetic on positions
-- must not wrap.
--
-- Fuel: `scan` (the loop of `valid_symbol`) has the length of the text as fuel, and each round takes at
-- least a byte; `clear_rounds` has the size of the ring, and each round pops one item.
--
-- What is a parameter: the allocator (the address that it gives, or a failure), the clock (a sample, or
-- a failure), and the protobuf messages that are only moved.
--
-- Not modelled: the code under BMD_GATEWAY_PERFORMANCE_BASELINE_ENABLED, which measures; the network
-- transports, the gRPC library and the daemon's process handling, which are I/O; and the parts of src
-- not named above.
pub mod Base
pub mod Config
pub mod Lifecycle
pub mod Publication
pub mod Daemon
pub mod Recovery
pub mod Registry
pub mod Runtime
pub mod Status
