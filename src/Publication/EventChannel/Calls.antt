-- ===== src/Publication/EventChannel/Calls.antt =====
-- The calls of `EventSubscriberChannel`: src/g9/event_publication.cpp. `event_stream` is
-- `normalized_event_stream` at the events that `Event` stands for.
use binance_market_data_gate.Base.{
  ℕ, Bool, true, false, not, ◌&&◌, ◌||◌, Option, none, some, List, ◌==◌, if◌then◌else◌, has_value,
}
use binance_market_data_gate.Base.Words.{add_u64, u64_max}
use binance_market_data_gate.Publication.Ring.{ring, ring_push, ring_pop, ring_clear, front}
use binance_market_data_gate.Publication.Shared.{
  Shared, same_pointer, make_shared, ConsumerGapReason, slow_consumer,
  connection_generation_changed, resubscribe, PublicationTime,
}
use binance_market_data_gate.Publication.Channel.Types.{next_after_terminal}
use binance_market_data_gate.Publication.EventChannel.Types.{
  Stream, stream_unspecified, stream_eq, EventOrdinaryPayload, accepted_payload, event_payload,
  EventPublicationRecord, EventTerminalDescriptor, event_descriptor_eq, active, terminal_gap,
  terminal_unavailable, closed, is_active, is_closed, EventAdmissionResult, admitted, terminalized,
  inactive, allocation_failure, EventAcknowledgeResult, acknowledged, ack_closed, mismatch,
  PeekedEventPublication, EventSubscriberChannel,
}

-- The test for a terminal: both are there, and equal.
abbrev same_descriptor : Option EventTerminalDescriptor → Option EventTerminalDescriptor → Bool
same_descriptor (some s) (some t) = event_descriptor_eq s t
same_descriptor _ _ = false

module _ {Event : Type 0} where
  abbrev is_accepted : EventOrdinaryPayload Event → Bool
  is_accepted (accepted_payload _) = true
  is_accepted (event_payload _) = false

  abbrev pub fresh_channel : List ℕ → List ℕ → Stream → ℕ → ℕ → EventSubscriberChannel Event
  fresh_channel subscription_id gateway_instance_id stream source_generation capacity = record {
    subscription_id = subscription_id;
    gateway_instance_id = gateway_instance_id;
    stream = stream;
    source_generation = source_generation;
    ordinary_capacity = capacity;
    ordinary_ring = ring capacity;
    terminal = none;
    state = active;
    next_session_sequence = 1;
  }

  -- The constructor; `none` is `std::invalid_argument`.
  unfoldable pub event_subscriber_channel :
      List ℕ → List ℕ → Stream → ℕ → ℕ → Option (EventSubscriberChannel Event)
  event_subscriber_channel subscription_id gateway_instance_id stream source_generation capacity =
      if capacity == 0 || source_generation == 0 || stream_eq stream stream_unspecified
      then none
      else some
          (fresh_channel subscription_id gateway_instance_id stream source_generation capacity)

  push_accepted :
      Shared (EventPublicationRecord Event)
      → EventSubscriberChannel Event
      → Bool × EventSubscriberChannel Event
  push_accepted accepted c =
      let (ok, r) = ring_push c.ordinary_capacity (some accepted) c.ordinary_ring in
      if not ok
      then (false, c)
      else (true, record c { ordinary_ring = r; next_session_sequence = 2 })

  unfoldable pub stage_accepted :
      Option (Shared (EventPublicationRecord Event))
      → EventSubscriberChannel Event
      → Bool × EventSubscriberChannel Event
  unfolding push_accepted
  stage_accepted none c = (false, c)
  stage_accepted (some accepted) c =
      if not (accepted.target.session_sequence == 1)
        || has_value accepted.target.connection_generation
        || not (is_accepted accepted.target.payload)
      then (false, c)
      else if not (is_active c.state) || not (c.ordinary_ring.size == 0)
      then (false, c)
      else push_accepted accepted c

  -- The part of `admit_event` under `try`, with the record or `none` if the allocation threw.
  admit_record :
      Option (Shared (EventPublicationRecord Event))
      → EventSubscriberChannel Event
      → EventAdmissionResult × EventSubscriberChannel Event
  admit_record none c = (allocation_failure, c)
  admit_record (some item) c =
      let (ok, r) = ring_push c.ordinary_capacity (some item) c.ordinary_ring in
      if not ok then (allocation_failure, c) else (
        admitted,
        record c { ordinary_ring = r; next_session_sequence = add_u64 c.next_session_sequence 1 },
      )

  -- A channel that ends with a gap.
  abbrev gap_at :
      ConsumerGapReason
      → PublicationTime
      → EventSubscriberChannel Event
      → EventSubscriberChannel Event
  gap_at reason published_at c = record c {
    terminal = some (record {
      session_sequence = c.next_session_sequence;
      connection_generation = c.source_generation;
      published_at = published_at;
      reason = reason;
      recovery_action = resubscribe;
    });
    next_session_sequence = next_after_terminal c.next_session_sequence;
    state = terminal_gap;
  }

  -- `allocated` is what the allocator gives to `std::make_shared`; a null event is `none`.
  unfoldable pub admit_event :
      (event_stream : Event → Stream)
      → (allocated : Option ℕ) → Option Event
      → PublicationTime
      → EventSubscriberChannel Event
      → EventAdmissionResult × EventSubscriberChannel Event
  unfolding admit_record
  admit_event event_stream allocated none published_at c =
      if not (is_active c.state) then (inactive, c) else (allocation_failure, c)
  admit_event event_stream allocated (some event) published_at c =
      if not (is_active c.state)
      then (inactive, c)
      else if not (stream_eq (event_stream event) c.stream)
      then (allocation_failure, c)
      else if c.ordinary_ring.size == c.ordinary_capacity
      then (terminalized, gap_at slow_consumer published_at c)
      else if c.next_session_sequence == u64_max
      then (allocation_failure, c)
      else admit_record
          (make_shared allocated (record {
            session_sequence = c.next_session_sequence;
            connection_generation = some c.source_generation;
            published_at = published_at;
            payload = event_payload event;
          }))
          c

  unfoldable pub terminalize_replacement :
      PublicationTime → EventSubscriberChannel Event → Bool × EventSubscriberChannel Event
  terminalize_replacement published_at c =
      if not (is_active c.state) || has_value c.terminal
      then (false, c)
      else (true, gap_at connection_generation_changed published_at c)

  unfoldable pub close_unavailable :
      EventSubscriberChannel Event → Bool × EventSubscriberChannel Event
  close_unavailable c =
      if not (is_active c.state)
      then (false, c)
      else (true, record c { state = terminal_unavailable })

  abbrev pub nothing_peeked : PeekedEventPublication Event
  nothing_peeked = record { ordinary = none; terminal = none }

  unfoldable pub peek : EventSubscriberChannel Event → PeekedEventPublication Event
  peek c =
      if is_closed c.state
      then nothing_peeked
      else if not (c.ordinary_ring.size == 0)
      then record { ordinary = front c.ordinary_ring; terminal = none }
      else if has_value c.terminal
      then record { ordinary = none; terminal = c.terminal }
      else nothing_peeked

  unfoldable pub acknowledge :
      PeekedEventPublication Event
      → EventSubscriberChannel Event
      → EventAcknowledgeResult × EventSubscriberChannel Event
  acknowledge publication c =
      if is_closed c.state
      then (ack_closed, c)
      else if has_value publication.ordinary
      then if c.ordinary_ring.size == 0
          || not (same_pointer (front c.ordinary_ring) publication.ordinary)
        then (mismatch, c)
        else (
          acknowledged,
          record c { ordinary_ring = ring_pop c.ordinary_capacity c.ordinary_ring },
        )
      else if c.ordinary_ring.size == 0 && same_descriptor c.terminal publication.terminal
      then (ack_closed, record c { terminal = none; state = closed })
      else (mismatch, c)

  -- The condition on which `wait_for_change` returns before its time is over.
  unfoldable pub changed : EventSubscriberChannel Event → Bool
  changed c = not (is_active c.state) || not (c.ordinary_ring.size == 0)

  unfoldable pub close_from_owner : EventSubscriberChannel Event → EventSubscriberChannel Event
  close_from_owner c = record c { state = closed }

  unfoldable pub clear_from_writer : EventSubscriberChannel Event → EventSubscriberChannel Event
  clear_from_writer c = record c {
    ordinary_ring = ring_clear c.ordinary_capacity c.ordinary_ring;
    terminal = none;
  }

  unfoldable pub close_from_writer : EventSubscriberChannel Event → EventSubscriberChannel Event
  close_from_writer c = clear_from_writer (record c { state = closed })
