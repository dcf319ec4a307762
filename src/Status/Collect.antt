-- ===== src/Status/Collect.antt =====
-- `map_runtime_state` and `collect` of src/g10/gateway_status.cpp. What a part shows is a parameter by
-- its address, `none` for a timeout; what the clock gives is `none` if it threw.
use binance_market_data_gate.Base.{
  ℕ, ◌-◌, ◌/◌, Bool, true, false, not, ◌&&◌, ◌||◌, Option, none, some, List, [], ◌∷◌, ltb, leb,
  ◌==◌, ◌>>=◌, if◌then◌else◌, has_value, optional_eq,
}
use binance_market_data_gate.Base.Words.{add_u64}
use binance_market_data_gate.Publication.EventSource.Types.{EventPublicationObservation}
use binance_market_data_gate.Publication.EventSource.Calls.{maximum_active_event_subscriptions}
use binance_market_data_gate.Status.Types.{
  RuntimeState, constructed, buffering, awaiting_bridge, live, needs_resync, faulted, stopping,
  stopped, other_state, is_live, is_synchronized, is_recovery_live, AppliedDepthObservation,
  RuntimeObservation, RecoveryObservation, ClockSample, start_baseline_unavailable, clock_error,
  monotonic_clock_regression, invalid_observation, observation_timeout, StreamLifecycleState,
  state_accepted, state_snapshot_pending, state_live, state_resync_in_progress, state_degraded,
  state_closing, state_closed, CollectedMarket, MarketStatus, StatusSnapshotResult, status,
  status_error, MarketSource, GatewayStatusAssembler,
}

abbrev pub maximum_active_subscriptions : ℕ
maximum_active_subscriptions = 8

unfoldable pub map_runtime_state : RuntimeState → Option StreamLifecycleState
map_runtime_state constructed = some state_accepted
map_runtime_state buffering = some state_snapshot_pending
map_runtime_state awaiting_bridge = some state_snapshot_pending
map_runtime_state live = some state_live
map_runtime_state needs_resync = some state_resync_in_progress
map_runtime_state faulted = some state_degraded
map_runtime_state stopping = some state_closing
map_runtime_state stopped = some state_closed
map_runtime_state (other_state n) = none

unfoldable pub valid_recovery_observation : RecoveryObservation → Bool
valid_recovery_observation o =
    leb o.active_transport_count 1
    && (o.active_transport_count == 0 || not (o.connection_generation == 0))

-- The first loop of `collect`, which observes; `none` is `ObservationTimeout`.
unfoldable pub gather :
    (observe_runtime : ℕ → Option RuntimeObservation)
    → (observe_recovery : ℕ → Option RecoveryObservation)
    → (observe_events : ℕ → EventPublicationObservation) → List MarketSource
    → Option (List CollectedMarket)
gather observe_runtime observe_recovery observe_events [] = some []
gather observe_runtime observe_recovery observe_events (m ∷ ms) = do
  runtime ← observe_runtime m.runtime
  recovery ← observe_recovery m.recovery
  rest ← gather observe_runtime observe_recovery observe_events ms
  some (
      record {
        key = m.key;
        runtime = runtime;
        recovery = recovery;
        event_publication = observe_events m.event_publication;
      }
      ∷ rest)

-- The second loop, which checks.
unfoldable pub valid_markets : List CollectedMarket → Bool
valid_markets [] = true
valid_markets (m ∷ ms) =
    let rest = valid_markets ms in
    if not (has_value (map_runtime_state m.runtime.state))
      || not (valid_recovery_observation m.recovery)
      || ltb maximum_active_subscriptions m.runtime.resident_subscription_count
      || ltb maximum_active_event_subscriptions m.event_publication.active_subscriptions
    then false
    else rest

-- The condition on the applied depth.
unfoldable pub fresh_event : CollectedMarket → Option AppliedDepthObservation → Option ℕ
fresh_event m none = none
fresh_event m (some depth) =
    if is_live m.runtime.state
      && is_synchronized m.runtime.projection_status
      && is_recovery_live m.recovery.state
      && m.recovery.active_transport_count == 1
      && optional_eq depth.connection_generation (some m.recovery.connection_generation)
    then depth.receive_time_utc_ns
    else none

-- The body of the third loop, with the state that was mapped.
unfoldable pub market_status : CollectedMarket → StreamLifecycleState → MarketStatus
market_status m mapped_state = record {
  key = m.key;
  state = mapped_state;
  last_event_utc_ns = fresh_event m m.runtime.last_applied_depth;
  connection_generation =
      if m.recovery.active_transport_count == 1
      then some m.recovery.connection_generation
      else none;
  active_subscription_count =
      add_u64 m.runtime.resident_subscription_count m.event_publication.active_subscriptions;
}

-- The third loop, which writes the markets and their total. Every state was checked to be mapped.
unfoldable pub write_markets : ℕ → List CollectedMarket → Option (List MarketStatus × ℕ)
write_markets total [] = some ([], total)
write_markets total (m ∷ ms) = do
  state ← map_runtime_state m.runtime.state
  (written, sum) ←
      write_markets (add_u64 total (market_status m state).active_subscription_count) ms
  some (market_status m state ∷ written, sum)

-- `collect` after the observations.
unfoldable pub assemble :
    (sampled : Option ClockSample)
    → GatewayStatusAssembler
    → List CollectedMarket
    → StatusSnapshotResult
assemble sampled a markets =
    if not (valid_markets markets)
    then status_error invalid_observation
    else elim a.start_baseline_monotonic_ns [
      | none ↦ status_error start_baseline_unavailable
      | some baseline ↦ elim sampled [
        | none ↦ status_error clock_error
        | some observed_at ↦
            if ltb observed_at.monotonic_ns baseline
            then status_error monotonic_clock_regression
            else elim (write_markets 0 markets) [
              | none ↦ status_error invalid_observation
              | some (written, total) ↦ status (record {
                schema_version = "gateway-status-snapshot.v1";
                gateway_instance_id = a.gateway_instance_id;
                observed_time_utc_ns = observed_at.utc_ns;
                uptime_seconds = (observed_at.monotonic_ns - baseline) / 1000000000;
                markets = written;
                total_active_subscriptions = total;
              })
            ]
      ]
    ]

unfoldable pub collect :
    (observe_runtime : ℕ → Option RuntimeObservation)
    → (observe_recovery : ℕ → Option RecoveryObservation)
    → (observe_events : ℕ → EventPublicationObservation) → (sampled : Option ClockSample)
    → GatewayStatusAssembler
    → StatusSnapshotResult
collect observe_runtime observe_recovery observe_events sampled a =
    elim (gather observe_runtime observe_recovery observe_events a.sources) [
      | none ↦ status_error observation_timeout
      | some markets ↦ assemble sampled a markets
    ]

-- `prepare_start_baseline`; a clock that throws clears the baseline.
unfoldable pub prepare_start_baseline :
    (sampled : Option ClockSample) → GatewayStatusAssembler → Bool × GatewayStatusAssembler
prepare_start_baseline none a = (false, record a { start_baseline_monotonic_ns = none })
prepare_start_baseline (some sample) a =
    (true, record a { start_baseline_monotonic_ns = some sample.monotonic_ns })

unfoldable pub clear_start_baseline : GatewayStatusAssembler → GatewayStatusAssembler
clear_start_baseline a = record a { start_baseline_monotonic_ns = none }
