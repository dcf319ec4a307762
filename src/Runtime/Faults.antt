-- ===== src/Runtime/Faults.antt =====
-- What the owner does to its subscribers, and the transition to a fault: src/g3/market_runtime.cpp.
-- `clock` and `allocator` say what each call gives, by how many came before; `none` is an exception.
use binance_market_data_gate.Base.{
  ℕ, suc, false, ◌||◌, Option, none, some, List, [], ◌∷◌, ◌++◌, ltb, if◌then◌else◌, length,
  is_empty,
}
use binance_market_data_gate.Publication.Shared.{
  Shared, ConsumerGapReason, resume_not_available, RecoveryAction, request_new_snapshot,
  PublicationTime,
}
use binance_market_data_gate.Publication.Channel.Types.{is_closed, SubscriberChannel}
use binance_market_data_gate.Publication.Channel.Owner.{terminalize, close_from_owner}
use binance_market_data_gate.Runtime.Observed.{
  RuntimeState, buffering, awaiting_bridge, live, needs_resync, faulted, is_faulted, is_stopping,
  is_stopped, ProjectionStatus, awaiting_baseline, projection_awaiting_bridge, synchronized,
  projection_needs_resync, is_projection_needs_resync, ClockSample,
}
use binance_market_data_gate.Runtime.Projection.{ProjectionApi}
use binance_market_data_gate.Runtime.Types.{
  FaultReason, snapshot_faulted, IngressItem, snapshot_error, Observation, Runtime,
}
use binance_market_data_gate.Runtime.Calls.{answer_snapshot}

unfoldable pub state_for_projection : ProjectionStatus → RuntimeState
state_for_projection awaiting_baseline = buffering
state_for_projection projection_awaiting_bridge = awaiting_bridge
state_for_projection synchronized = live
state_for_projection projection_needs_resync = needs_resync

abbrev pub max_ticket : ℕ → ℕ → ℕ
max_ticket a b = if ltb a b then b else a

abbrev pub max_with : ℕ → Option ℕ → ℕ
max_with a none = a
max_with a (some b) = max_ticket a b

abbrev pub publication_time : Option ClockSample → Option PublicationTime
publication_time none = none
publication_time (some sample) =
    some (record { utc_ns = sample.utc_ns; monotonic_ns = some sample.monotonic_ns })

-- `value_or(g7::PublicationTime{})`.
abbrev pub time_or_zero : Option PublicationTime → PublicationTime
time_or_zero none = record { utc_ns = 0; monotonic_ns = none }
time_or_zero (some at) = at

module _ {Snapshot Update : Type 0} where
  unfoldable pub open_subscribers :
      List (Shared (SubscriberChannel Snapshot Update))
      → List (Shared (SubscriberChannel Snapshot Update))
  open_subscribers [] = []
  open_subscribers (ch ∷ chs) =
      let rest = open_subscribers chs in if is_closed ch.target.state then rest else ch ∷ rest

  unfoldable pub terminalize_each :
      ConsumerGapReason
      → RecoveryAction
      → Option ℕ
      → PublicationTime
      → List (Shared (SubscriberChannel Snapshot Update))
      → List (Shared (SubscriberChannel Snapshot Update))
  terminalize_each reason action generation at [] = []
  terminalize_each reason action generation at (ch ∷ chs) =
      record ch { target = (terminalize reason action generation at ch.target).1 }
      ∷ terminalize_each reason action generation at chs

  unfoldable pub close_each :
      List (Shared (SubscriberChannel Snapshot Update))
      → List (Shared (SubscriberChannel Snapshot Update))
  close_each [] = []
  close_each (ch ∷ chs) = record ch { target = close_from_owner ch.target } ∷ close_each chs

module _ {api : ProjectionApi} where
  unfoldable pub sweep_closed_subscribers : Runtime api → Runtime api
  sweep_closed_subscribers s = record s {
    subscribers = open_subscribers s.subscribers;
    observation = record s.observation {
      resident_subscription_count = length (open_subscribers s.subscribers);
    };
  }

  -- `refresh_projection_observation_locked`.
  unfoldable pub refreshed : Runtime api → Observation api
  refreshed s = record s.observation {
    projection_status = api.status s.projection;
    last_update_id = api.last_update_id s.projection;
    last_gap = api.last_gap s.projection;
    current_projection_generation = s.current_projection_generation;
  }

  -- `ingress_.back().ticket`.
  abbrev pub last_ticket : List (IngressItem api) → Option ℕ
  last_ticket [] = none
  last_ticket (i ∷ []) = some i.ticket
  last_ticket (i ∷ j ∷ is) = last_ticket (j ∷ is)

  -- The processed ticket after the mailbox has been discarded.
  abbrev pub drained : ℕ → List (IngressItem api) → ℕ
  drained processed items = max_with processed (last_ticket items)

  -- An empty mailbox stays as it is.
  unfoldable pub discard_ingress : Runtime api → Runtime api
  discard_ingress s = record s {
    processed_ticket = drained s.processed_ticket s.ingress;
    ingress = [];
    observation = record s.observation {
      ingress_occupancy = if is_empty s.ingress then s.observation.ingress_occupancy else 0;
    };
  }

  unfoldable pub projected_state : Runtime api → RuntimeState
  unfolding state_for_projection
  projected_state s =
      if is_faulted s.observation.state
        || is_stopping s.observation.state
        || is_stopped s.observation.state
      then s.observation.state
      else state_for_projection (api.status s.projection)

  unfoldable pub show_projection : Runtime api → Runtime api
  show_projection s = record s {
    observation = record (refreshed s) {
      bootstrap_occupancy = length s.bootstrap;
      state = projected_state s;
    };
  }

  unfoldable pub publish_projection_state : Runtime api → Runtime api
  unfolding show_projection discard_ingress
  publish_projection_state s =
      if is_projection_needs_resync (api.status s.projection)
      then discard_ingress (record (show_projection s) { accepting = false })
      else show_projection s

  unfoldable pub close_all_subscribers : Runtime api → Runtime api
  unfolding close_each
  close_all_subscribers s = record s {
    released = s.released ++ close_each s.subscribers;
    subscribers = [];
    observation = record s.observation { resident_subscription_count = 0 };
  }

module _ {api : ProjectionApi} (clock : ℕ → Option ClockSample) where
  unfoldable pub sample_publication_time : Runtime api → Option PublicationTime × Runtime api
  sample_publication_time s =
      (publication_time (clock s.clock_calls), record s { clock_calls = suc s.clock_calls })

  unfoldable pub terminalize_active_subscribers :
      ConsumerGapReason → RecoveryAction → Option ℕ → Runtime api → Runtime api
  unfolding sample_publication_time
  terminalize_active_subscribers reason action generation s =
      let (sampled, t) = sample_publication_time (sweep_closed_subscribers s) in
      record t {
        subscribers =
            terminalize_each reason action generation (time_or_zero sampled) t.subscribers;
      }

  unfoldable pub transition_to_fault :
      FaultReason → Option api.AdapterError → Runtime api → Runtime api
  transition_to_fault reason error s =
      let t =
        terminalize_active_subscribers resume_not_available request_new_snapshot
          s.current_projection_generation s in
      discard_ingress (record t {
        accepting = false;
        bootstrap = [];
        observation = record (refreshed t) {
          bootstrap_occupancy = 0;
          fault_reason = some reason;
          adapter_error = error;
          state = faulted;
        };
        snapshot_request = answer_snapshot (snapshot_error snapshot_faulted) t.snapshot_request;
      })
