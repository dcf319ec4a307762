-- ===== src/Publication/EventSource/Calls.antt =====
-- The calls of `EventPublication`: src/g9/event_publication.cpp. What the clock gives is an argument,
-- `none` if it threw; so is what the allocator gives. A null event is `none`.
use binance_market_data_gate.Base.{
  ℕ, Bool, true, false, not, ◌||◌, Option, none, some, List, [], ◌∷◌, ◌++◌, ◌==◌, ltb,
  if◌then◌else◌, optional_eq, length, is_empty,
}
use binance_market_data_gate.Base.Words.{add_u64, u64_max}
use binance_market_data_gate.Base.Decimal.{to_string}
use binance_market_data_gate.Publication.Shared.{Shared, make_shared, PublicationTime}
use binance_market_data_gate.Publication.EventChannel.Types.{
  accepted_payload, EventPublicationRecord, EventSubscriberChannel,
}
use binance_market_data_gate.Publication.EventChannel.Calls.{
  event_subscriber_channel, stage_accepted, terminalize_replacement, close_unavailable,
}
use binance_market_data_gate.Publication.EventSource.Types.{
  EventPublicationLimits, ValidatedEventSubscription, EventSourceState, source_closed, opened,
  quiesced, permanently_closed, shutdown, source_unavailable, active_limit, clock_error,
  id_exhausted, internal_error, shutting_down, EventPublication, EventSubscriptionAdmission,
  accepted_subscription, admission_error,
}

abbrev pub is_open : EventSourceState → Bool
is_open opened = true
is_open _ = false

abbrev pub is_quiesced : EventSourceState → Bool
is_quiesced quiesced = true
is_quiesced _ = false

abbrev pub is_source_closed : EventSourceState → Bool
is_source_closed source_closed = true
is_source_closed _ = false

abbrev pub is_permanently_closed : EventSourceState → Bool
is_permanently_closed permanently_closed = true
is_permanently_closed _ = false

abbrev pub is_shutdown : EventSourceState → Bool
is_shutdown shutdown = true
is_shutdown _ = false

-- `!generation_.has_value() || generation > *generation_`.
abbrev pub is_later : ℕ → Option ℕ → Bool
is_later generation none = true
is_later generation (some current) = ltb current generation

abbrev pub maximum_active_event_subscriptions : ℕ
maximum_active_event_subscriptions = 8

abbrev pub event_ordinary_queue_capacity : ℕ
event_ordinary_queue_capacity = 64

-- `"ev-" + std::to_string(n)`.
abbrev pub event_id : ℕ → List ℕ
event_id n = b'e' ∷ b'v' ∷ b'-' ∷ to_string n

module _ {Event : Type 0} where
  -- The constructor; `none` is `std::invalid_argument`. `clocked` says that a clock is given.
  unfoldable pub event_publication :
      List ℕ → (clocked : Bool) → EventPublicationLimits → Option (EventPublication Event)
  event_publication gateway_instance_id clocked limits =
      if is_empty gateway_instance_id
        || not clocked
        || limits.maximum_active_subscriptions == 0
        || ltb maximum_active_event_subscriptions limits.maximum_active_subscriptions
        || limits.ordinary_queue_capacity == 0
        || ltb event_ordinary_queue_capacity limits.ordinary_queue_capacity
      then none
      else some (record {
        gateway_instance_id = gateway_instance_id;
        limits = limits;
        source_state = source_closed;
        source_generation = none;
        next_subscription_id = 1;
        channels = [];
      })

  unfoldable pub open_generation : ℕ → EventPublication Event → Bool × EventPublication Event
  open_generation generation s =
      if generation == 0
        || is_shutdown s.source_state
        || is_permanently_closed s.source_state
        || is_open s.source_state
        || is_quiesced s.source_state
        || not (is_later generation s.source_generation)
      then (false, s)
      else (true, record s { source_generation = some generation; source_state = opened })

  unfoldable pub quiesce_generation : ℕ → EventPublication Event → Bool × EventPublication Event
  quiesce_generation generation s =
      if not (is_open s.source_state) || not (optional_eq s.source_generation (some generation))
      then (false, s)
      else (true, record s { source_state = quiesced })

  unfoldable pub terminalize_replaced :
      ℕ
      → PublicationTime
      → List (Shared (EventSubscriberChannel Event))
      → List (Shared (EventSubscriberChannel Event))
  terminalize_replaced generation at [] = []
  terminalize_replaced generation at (ch ∷ chs) =
      (if ch.target.source_generation == generation
        then record ch { target = (terminalize_replacement at ch.target).1 }
        else ch)
      ∷ terminalize_replaced generation at chs

  unfoldable pub close_generation_replaced :
      (sampled : Option PublicationTime)
      → ℕ
      → EventPublication Event
      → Bool × EventPublication Event
  close_generation_replaced none generation s = (false, s)
  close_generation_replaced (some at) generation s =
      if not (is_quiesced s.source_state) || not (optional_eq s.source_generation (some generation))
      then (false, s)
      else (
        true,
        record s {
          channels = terminalize_replaced generation at s.channels;
          source_state = source_closed;
        },
      )

  unfoldable pub close_all_unavailable :
      ℕ
      → List (Shared (EventSubscriberChannel Event))
      → List (Shared (EventSubscriberChannel Event))
  close_all_unavailable generation [] = []
  close_all_unavailable generation (ch ∷ chs) =
      (if ch.target.source_generation == generation
        then record ch { target = (close_unavailable ch.target).1 }
        else ch)
      ∷ close_all_unavailable generation chs

  unfoldable pub close_generation_permanently :
      ℕ → EventPublication Event → Bool × EventPublication Event
  close_generation_permanently generation s =
      if not (is_quiesced s.source_state) || not (optional_eq s.source_generation (some generation))
      then (false, s)
      else (
        true,
        record s {
          channels = close_all_unavailable generation s.channels;
          source_state = permanently_closed;
        },
      )

  unfoldable pub make_accepted_record :
      Option ℕ
      → ValidatedEventSubscription
      → List ℕ
      → List ℕ
      → PublicationTime
      → Option (Shared (EventPublicationRecord Event))
  make_accepted_record allocated subscription subscription_id gateway_instance_id published_at =
      make_shared allocated (record {
        session_sequence = 1;
        connection_generation = none;
        published_at = published_at;
        payload = accepted_payload (record {
          request_id = subscription.request_id;
          subscription_id = subscription_id;
          schema_version = "subscription-accepted.v1";
          gateway_instance_id = gateway_instance_id;
          accepted_time_utc_ns = published_at.utc_ns;
          negotiated_payload_schema_versions = subscription.negotiated_payload_schema_version ∷ [];
        });
      })

  -- The end of `admit`, with the channel as it was made and staged.
  unfoldable pub admit_staged :
      Option ℕ
      → Bool × EventSubscriberChannel Event
      → EventPublication Event
      → EventSubscriptionAdmission Event × EventPublication Event
  admit_staged none staged s = (admission_error internal_error, s)
  admit_staged (some address) (false, c) s = (admission_error internal_error, s)
  admit_staged (some address) (true, c) s =
      let channel : Shared (EventSubscriberChannel Event) = record {
        address = address;
        target = c;
      } in
      (
        accepted_subscription channel,
        record s {
          channels = s.channels ++ (channel ∷ []);
          next_subscription_id = add_u64 s.next_subscription_id 1;
        },
      )

  -- The part of `admit` under `try`. A channel whose constructor throws, or for which there is no
  -- memory, is `none`.
  unfoldable pub admit_channel :
      (channel_address record_address : Option ℕ)
      → ValidatedEventSubscription
      → PublicationTime
      → Option (EventSubscriberChannel Event)
      → EventPublication Event
      → EventSubscriptionAdmission Event × EventPublication Event
  unfolding admit_staged
  admit_channel channel_address record_address subscription at none s =
      (admission_error internal_error, s)
  admit_channel channel_address record_address subscription at (some c) s =
      admit_staged channel_address
        (stage_accepted
          (make_accepted_record record_address subscription (event_id s.next_subscription_id)
            s.gateway_instance_id at)
          c)
        s

  unfoldable pub admit_at :
      (channel_address record_address : Option ℕ)
      → ValidatedEventSubscription
      → PublicationTime
      → Option ℕ
      → EventPublication Event
      → EventSubscriptionAdmission Event × EventPublication Event
  unfolding admit_channel
  admit_at channel_address record_address subscription at none s =
      (admission_error source_unavailable, s)
  admit_at channel_address record_address subscription at (some generation) s =
      if length s.channels == s.limits.maximum_active_subscriptions
      then (admission_error active_limit, s)
      else if s.next_subscription_id == u64_max
      then (admission_error id_exhausted, s)
      else admit_channel channel_address record_address subscription at
          (event_subscriber_channel (event_id s.next_subscription_id) s.gateway_instance_id
            subscription.stream generation s.limits.ordinary_queue_capacity)
          s

  unfoldable pub admit :
      (channel_address record_address : Option ℕ)
      → (sampled : Option PublicationTime) → ValidatedEventSubscription
      → EventPublication Event
      → EventSubscriptionAdmission Event × EventPublication Event
  unfolding admit_at
  admit channel_address record_address none subscription s = (admission_error clock_error, s)
  admit channel_address record_address (some at) subscription s =
      if is_shutdown s.source_state
      then (admission_error shutting_down, s)
      else if not (is_open s.source_state)
      then (admission_error source_unavailable, s)
      else admit_at channel_address record_address subscription at s.source_generation s
