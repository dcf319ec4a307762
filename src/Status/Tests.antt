-- ===== src/Status/Tests.antt =====
-- The status of one market.
use binance_market_data_gate.Base.{◌≡◌, refl, true, none, some, List, [], ◌∷◌, arith}
use binance_market_data_gate.Publication.EventSource.Types.{EventPublicationObservation, opened}
use binance_market_data_gate.Status.Types.{
  live, synchronized, recovery_live, RuntimeObservation, RecoveryObservation, CollectedMarket,
  GatewayStatusSnapshot, status, MarketSource, GatewayStatusAssembler,
}
use binance_market_data_gate.Status.Collect.{
  map_runtime_state, valid_recovery_observation, valid_markets, collect,
}
use binance_market_data_gate.Status.Snapshots.{AreReports, total_count, collect-AreReports}

abbrev source : MarketSource
source = record {
  key = record { venue = 1; market = 1; symbol = b'B' ∷ [] };
  runtime = 1;
  recovery = 2;
  event_publication = 3;
}

abbrev runtime : RuntimeObservation
runtime = record {
  state = live;
  projection_status = synchronized;
  last_applied_depth = some (record {
    receive_time_utc_ns = some 70;
    receive_monotonic_ns = none;
    connection_generation = some 4;
  });
  resident_subscription_count = 2;
}

abbrev recovery : RecoveryObservation
recovery = record { state = recovery_live; connection_generation = 4; active_transport_count = 1 }

abbrev events : EventPublicationObservation
events = record { source_state = opened; source_generation = some 4; active_subscriptions = 3 }

abbrev assembler : GatewayStatusAssembler
assembler = record {
  sources = source ∷ [];
  gateway_instance_id = b'g' ∷ [];
  start_baseline_monotonic_ns = some 10;
}

abbrev collected : List CollectedMarket
collected =
    record { key = source.key; runtime = runtime; recovery = recovery; event_publication = events }
    ∷ []

valid : valid_markets collected ≡ true
unfolding valid_markets map_runtime_state valid_recovery_observation
valid = refl

collect-AreReports_example :
    (s : GatewayStatusSnapshot) × (collect
        (λ _. some runtime)
        (λ _. some recovery)
        (λ _. events)
        (some (record { utc_ns = 80; monotonic_ns = 30 }))
        assembler
      ≡ status s)
    × AreReports collected s.markets
    × (s.total_active_subscriptions ≡ total_count s.markets)
collect-AreReports_example =
    collect-AreReports (λ _. some runtime) (λ _. some recovery) (λ _. events) assembler collected 10
      (record { utc_ns = 80; monotonic_ns = 30 }) ((refl, refl, refl, refl), tt) (omega arith) valid
      refl (omega arith)
