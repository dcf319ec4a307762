-- ===== src/Runtime/Histories.antt =====
-- The histories of a runtime: the calls of all threads on it, one after another, in any order, with the
-- steps of the owner between them. src/g3/market_runtime.cpp.
pub mod Invariant
pub mod Handlers
pub mod Steps
pub mod Lifetime
pub mod Tickets
pub mod Choices
pub mod Works
pub mod Turns
pub mod Guarantees
use binance_market_data_gate.Base.{
  ℕ, Bool, true, false, not, ◌&&◌, ◌==◌, Option, List, [], ◌∷◌, if◌then◌else◌,
}
use binance_market_data_gate.Publication.Shared.{Shared}
use binance_market_data_gate.Publication.Channel.Types.{PeekedPublication, SubscriberChannel}
use binance_market_data_gate.Publication.Channel.Writer.{acknowledge, close_from_writer}
use binance_market_data_gate.Runtime.Observed.{ClockSample}
use binance_market_data_gate.Runtime.Projection.{ProjectionApi}
use binance_market_data_gate.Runtime.Types.{
  ValidatedOrderBookSubscription, Channel, RuntimeInput, ResetKind, Work, finished, Runtime,
}
use binance_market_data_gate.Runtime.Calls.{start, request_stop, finish_stop, submit, observe}
use binance_market_data_gate.Runtime.Requests.{
  request_reset, finish_reset, request_snapshot, finish_snapshot, request_admission,
  notify_subscriber_closed, close_publication_admission, request_publication_shutdown,
  release_owner, pause_owner,
}
use binance_market_data_gate.Runtime.Owner.{owner_start, owner_turn}

-- What a session's handler does on its channel.
pub data HandlerCall (Snapshot Update : Type 0) : Type 0 where
  acknowledges : PeekedPublication Snapshot Update → HandlerCall Snapshot Update
  closes_session : HandlerCall Snapshot Update

module _ {Snapshot Update : Type 0} where
  unfoldable pub handler_call :
      HandlerCall Snapshot Update
      → SubscriberChannel Snapshot Update
      → SubscriberChannel Snapshot Update
  handler_call (acknowledges publication) c = (acknowledge publication c).1
  handler_call closes_session c = close_from_writer c

  -- The handler's call on the channel at the address.
  unfoldable pub handle_each :
      ℕ
      → HandlerCall Snapshot Update
      → List (Shared (SubscriberChannel Snapshot Update))
      → List (Shared (SubscriberChannel Snapshot Update))
  unfolding handler_call
  handle_each address o [] = []
  handle_each address o (ch ∷ chs) =
      record ch { target = if ch.address == address then handler_call o ch.target else ch.target }
      ∷ handle_each address o chs

pub data RuntimeCall (api : ProjectionApi) : Type 0 where
  starts : (created : Bool) → RuntimeCall api
  begins_owner turns_owner : RuntimeCall api
  submits : RuntimeInput api → RuntimeCall api
  observes : RuntimeCall api
  requests_reset : ResetKind → RuntimeCall api
  finishes_reset requests_snapshot finishes_snapshot : RuntimeCall api
  requests_admission : Option ℕ → ValidatedOrderBookSubscription → RuntimeCall api
  notifies_closed closes_admission requests_shutdown : RuntimeCall api
  releases_owner pauses_owner requests_stop finishes_stop : RuntimeCall api
  handles : ℕ → HandlerCall api.BookSnapshot (Shared api.DepthUpdate) → RuntimeCall api

module _ {api : ProjectionApi} where
  -- The owner's thread begins once, after the start.
  unfoldable pub begin_owner : Runtime api → Runtime api
  unfolding owner_start
  begin_owner s = if s.started && not s.owner_ready then owner_start s else s

  -- The rest of `stop` waits for the end of the owner's thread.
  unfoldable pub finish_joined : Work api → Runtime api → Runtime api
  unfolding finish_stop
  finish_joined finished s = finish_stop s
  finish_joined _ s = s

  unfoldable pub handle :
      ℕ → HandlerCall api.BookSnapshot (Shared api.DepthUpdate) → Runtime api → Runtime api
  unfolding handle_each
  handle address o s = record s {
    subscribers = handle_each address o s.subscribers;
    released = handle_each address o s.released;
  }

module _ {api : ProjectionApi} (clock : ℕ → Option ClockSample) (allocator : ℕ → Option ℕ) where
  unfoldable pub runtime_call : RuntimeCall api → Runtime api → Runtime api
  runtime_call (starts created) s = (start created s).1
  runtime_call begins_owner s = begin_owner s
  runtime_call turns_owner s = owner_turn clock allocator s.work s
  runtime_call (submits input) s = (submit input s).1
  runtime_call observes s = (observe s).1
  runtime_call (requests_reset kind) s = (request_reset kind s).1
  runtime_call finishes_reset s = (finish_reset s).1
  runtime_call requests_snapshot s = (request_snapshot s).1
  runtime_call finishes_snapshot s = (finish_snapshot s).1
  runtime_call (requests_admission allocated subscription) s =
      (request_admission allocated subscription s).1
  runtime_call notifies_closed s = notify_subscriber_closed s
  runtime_call closes_admission s = close_publication_admission s
  runtime_call requests_shutdown s = (request_publication_shutdown s).1
  runtime_call releases_owner s = release_owner s
  runtime_call pauses_owner s = pause_owner s
  runtime_call requests_stop s = request_stop s
  runtime_call finishes_stop s = finish_joined s.work s
  runtime_call (handles address o) s = handle address o s

  unfoldable pub runtime_calls : List (RuntimeCall api) → Runtime api → Runtime api
  runtime_calls [] s = s
  runtime_calls (o ∷ os) s = runtime_calls os (runtime_call o s)
