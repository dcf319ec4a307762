-- ===== src/Publication/Channel/Owner.antt =====
-- The calls of the runtime's owner thread, which is the only producer: construction,
-- `stage_initial`, `admit_update`, `terminalize` and `close_from_owner` of
-- src/g7/order_book_publication.cpp.
use binance_market_data_gate.Base.{
  ℕ, Bool, true, false, not, ◌&&◌, ◌||◌, Option, none, some, List, [], ◌∷◌, ◌==◌, ltb,
  if◌then◌else◌, has_value,
}
use binance_market_data_gate.Base.Words.{add_u64, u64_max}
use binance_market_data_gate.Publication.Ring.{ring, ring_push}
use binance_market_data_gate.Publication.Shared.{
  Shared, make_shared, ConsumerGapReason, slow_consumer, RecoveryAction, resubscribe,
  PublicationTime,
}
use binance_market_data_gate.Publication.Channel.Types.{
  accepted_payload, snapshot_payload, update_payload, PublicationPayloadKind, subscription_accepted,
  snapshot, PublicationRecord, active, terminal_gap, closed, is_active, OrdinaryAdmissionResult,
  admitted, terminalized, inactive, allocation_failure, kind_of, SubscriberChannel,
  next_after_terminal,
}
use binance_market_data_gate.Publication.Channel.Writer.{clear_from_writer}

abbrev is_accepted : PublicationPayloadKind → Bool
is_accepted subscription_accepted = true
is_accepted _ = false

abbrev is_snapshot : PublicationPayloadKind → Bool
is_snapshot snapshot = true
is_snapshot _ = false

module _ {Snapshot Update : Type 0} where
  abbrev pub fresh_channel : List ℕ → List ℕ → ℕ → SubscriberChannel Snapshot Update
  fresh_channel subscription_id gateway_instance_id ordinary_capacity = record {
    subscription_id = subscription_id;
    gateway_instance_id = gateway_instance_id;
    ordinary_capacity = ordinary_capacity;
    ordinary_ring = ring ordinary_capacity;
    terminal = none;
    state = active;
    next_session_sequence = 1;
  }

  -- The constructor; `none` is `std::invalid_argument`.
  unfoldable pub subscriber_channel :
      List ℕ → List ℕ → ℕ → Option (SubscriberChannel Snapshot Update)
  subscriber_channel subscription_id gateway_instance_id ordinary_capacity =
      if ordinary_capacity == 0
      then none
      else some (fresh_channel subscription_id gateway_instance_id ordinary_capacity)

  -- The two pushes of `stage_initial`; the second is made only after the first succeeded.
  push_initial :
      Shared (PublicationRecord Snapshot Update)
      → Shared (PublicationRecord Snapshot Update)
      → SubscriberChannel Snapshot Update
      → Bool × SubscriberChannel Snapshot Update
  push_initial accepted book c =
      let (ok₁, r₁) = ring_push c.ordinary_capacity (some accepted) c.ordinary_ring in
      let (ok₂, r₂) = ring_push c.ordinary_capacity (some book) r₁ in
      if ok₁
      then if ok₂ then (true, record c { ordinary_ring = r₂; next_session_sequence = 3 }) else (
        false,
        record (clear_from_writer (record c { ordinary_ring = r₁ })) {
          state = active;
          next_session_sequence = 1;
        },
      )
      else (false, record (clear_from_writer c) { state = active; next_session_sequence = 1 })

  unfoldable pub is_initial_pair :
      PublicationRecord Snapshot Update → PublicationRecord Snapshot Update → Bool
  unfolding kind_of
  is_initial_pair a s =
      a.session_sequence == 1
      && s.session_sequence == 2
      && is_accepted (kind_of a.payload)
      && is_snapshot (kind_of s.payload)

  unfoldable pub stage_initial :
      Option (Shared (PublicationRecord Snapshot Update))
      → Option (Shared (PublicationRecord Snapshot Update))
      → SubscriberChannel Snapshot Update
      → Bool × SubscriberChannel Snapshot Update
  unfolding push_initial is_initial_pair
  stage_initial (some accepted) (some book) c =
      if not (is_initial_pair accepted.target book.target)
      then (false, c)
      else if not (is_active c.state)
          || not (c.ordinary_ring.size == 0)
          || ltb c.ordinary_capacity 2
      then (false, c)
      else push_initial accepted book c
  stage_initial none book c = (false, c)
  stage_initial (some accepted) none c = (false, c)

  -- The part of `admit_update` under `try`, with the record or `none` if the allocation threw.
  admit_record :
      Option (Shared (PublicationRecord Snapshot Update))
      → SubscriberChannel Snapshot Update
      → OrdinaryAdmissionResult × SubscriberChannel Snapshot Update
  admit_record none c = (allocation_failure, c)
  admit_record (some item) c =
      let (ok, r) = ring_push c.ordinary_capacity (some item) c.ordinary_ring in
      if not ok then (allocation_failure, c) else (
        admitted,
        record c { ordinary_ring = r; next_session_sequence = add_u64 c.next_session_sequence 1 },
      )

  -- `allocated` is what the allocator gives to `std::make_shared`.
  unfoldable pub admit_update :
      (allocated : Option ℕ)
      → Update
      → Option ℕ
      → PublicationTime
      → SubscriberChannel Snapshot Update
      → OrdinaryAdmissionResult × SubscriberChannel Snapshot Update
  unfolding admit_record
  admit_update allocated update connection_generation published_at c =
      if not (is_active c.state)
      then (inactive, c)
      else if c.ordinary_ring.size == c.ordinary_capacity
      then (
        terminalized,
        record c {
          terminal = some (record {
            session_sequence = c.next_session_sequence;
            connection_generation = none;
            published_at = published_at;
            reason = slow_consumer;
            recovery_action = resubscribe;
          });
          next_session_sequence = next_after_terminal c.next_session_sequence;
          state = terminal_gap;
        },
      )
      else if c.next_session_sequence == u64_max
      then (allocation_failure, c)
      else admit_record
          (make_shared allocated (record {
            session_sequence = c.next_session_sequence;
            connection_generation = connection_generation;
            published_at = published_at;
            payload = update_payload update;
          }))
          c

  unfoldable pub terminalize :
      ConsumerGapReason
      → RecoveryAction
      → Option ℕ
      → PublicationTime
      → SubscriberChannel Snapshot Update
      → Bool × SubscriberChannel Snapshot Update
  terminalize reason recovery_action connection_generation published_at c =
      if not (is_active c.state) || has_value c.terminal then (false, c) else (
        true,
        record c {
          terminal = some (record {
            session_sequence = c.next_session_sequence;
            connection_generation = connection_generation;
            published_at = published_at;
            reason = reason;
            recovery_action = recovery_action;
          });
          next_session_sequence = next_after_terminal c.next_session_sequence;
          state = terminal_gap;
        },
      )

  unfoldable pub close_from_owner :
      SubscriberChannel Snapshot Update → SubscriberChannel Snapshot Update
  close_from_owner c = record c { state = closed }

  unfoldable pub make_accepted_record :
      Option ℕ
      → List ℕ
      → List ℕ
      → List ℕ
      → PublicationTime
      → Option (Shared (PublicationRecord Snapshot Update))
  make_accepted_record allocated request_id subscription_id gateway_instance_id published_at =
      make_shared allocated (record {
        session_sequence = 1;
        connection_generation = none;
        published_at = published_at;
        payload = accepted_payload (record {
          request_id = request_id;
          subscription_id = subscription_id;
          schema_version = "subscription-accepted.v1";
          gateway_instance_id = gateway_instance_id;
          accepted_time_utc_ns = published_at.utc_ns;
          negotiated_payload_schema_versions =
              "local-order-book-snapshot.v1" ∷ "depth-update.v1" ∷ [];
        });
      })

  unfoldable pub make_snapshot_record :
      Option ℕ
      → Snapshot
      → Option ℕ
      → PublicationTime
      → Option (Shared (PublicationRecord Snapshot Update))
  make_snapshot_record allocated book connection_generation published_at =
      make_shared allocated (record {
        session_sequence = 2;
        connection_generation = connection_generation;
        published_at = published_at;
        payload = snapshot_payload book;
      })
