-- ===== src/Status/Snapshots.antt =====
-- What a status snapshot says of the observations: src/g10/gateway_status.cpp.
use binance_market_data_gate.Base.{
  ℕ, ◌+◌, ◌-◌, ◌*◌, ◌/◌, ◌≤◌, ◌<◌, ◌^◌, ◌≡◌, ◌↔◌, suc, refl, ap, true, false, Option, none, some,
  List, [], ◌∷◌, length, ltb, has_value, arith,
}
use binance_market_data_gate.Base.Words.{add_u64}
use binance_market_data_gate.Publication.EventSource.Types.{EventPublicationObservation}
use binance_market_data_gate.Status.Types.{
  is_live, is_synchronized, is_recovery_live, RuntimeObservation, RecoveryObservation,
  AppliedDepthObservation, ClockSample, StreamLifecycleState, CollectedMarket, MarketStatus,
  GatewayStatusSnapshot, status, MarketSource, GatewayStatusAssembler,
}
use binance_market_data_gate.Status.Collect.{
  map_runtime_state, gather, valid_markets, fresh_event, market_status, write_markets, assemble,
  collect,
}

-- The observations of a market are those that its parts show.
abbrev pub IsCollected :
    (observe_runtime : ℕ → Option RuntimeObservation)
    → (observe_recovery : ℕ → Option RecoveryObservation)
    → (observe_events : ℕ → EventPublicationObservation) → MarketSource
    → CollectedMarket
    → Type 0
IsCollected observe_runtime observe_recovery observe_events x m =
    (observe_runtime x.runtime ≡ some m.runtime)
    × (observe_recovery x.recovery ≡ some m.recovery)
    × (m.event_publication ≡ observe_events x.event_publication)
    × (m.key ≡ x.key)

abbrev pub AreCollected :
    (observe_runtime : ℕ → Option RuntimeObservation)
    → (observe_recovery : ℕ → Option RecoveryObservation)
    → (observe_events : ℕ → EventPublicationObservation) → List MarketSource
    → List CollectedMarket
    → Type 0
AreCollected f g h [] [] = Unit
AreCollected f g h (x ∷ xs) (m ∷ ms) = IsCollected f g h x m × AreCollected f g h xs ms
AreCollected f g h [] (m ∷ ms) = ⊥
AreCollected f g h (x ∷ xs) [] = ⊥

-- The last applied depth of a live market came at the time, through the one connection there is.
abbrev pub IsFresh : CollectedMarket → ℕ → Type 0
IsFresh m t =
    (is_live m.runtime.state ≡ true)
    × (is_synchronized m.runtime.projection_status ≡ true)
    × (is_recovery_live m.recovery.state ≡ true)
    × (m.recovery.active_transport_count ≡ 1)
    × (depth : AppliedDepthObservation) × (m.runtime.last_applied_depth ≡ some depth)
    × (depth.connection_generation ≡ some m.recovery.connection_generation)
    × (depth.receive_time_utc_ns ≡ some t)

-- What the snapshot says of one market.
pub record IsReport (m : CollectedMarket) (s : MarketStatus) : Type 0 where
  pub key : s.key ≡ m.key
  pub state : map_runtime_state m.runtime.state ≡ some s.state
  pub count :
      s.active_subscription_count
      ≡ m.runtime.resident_subscription_count + m.event_publication.active_subscriptions
  pub connection :
      (generation : ℕ)
      → (s.connection_generation ≡ some generation) ↔ (
          (m.recovery.active_transport_count ≡ 1) × (m.recovery.connection_generation ≡ generation))
  pub fresh : (t : ℕ) → (s.last_event_utc_ns ≡ some t) ↔ IsFresh m t

abbrev pub AreReports : List CollectedMarket → List MarketStatus → Type 0
AreReports [] [] = Unit
AreReports (m ∷ ms) (s ∷ ss) = IsReport m s × AreReports ms ss
AreReports [] (s ∷ ss) = ⊥
AreReports (m ∷ ms) [] = ⊥

abbrev pub total_count : List MarketStatus → ℕ
total_count [] = 0
total_count (s ∷ ss) = s.active_subscription_count + total_count ss

-- A market that passed the check.
record IsSound (m : CollectedMarket) : Type 0 where
  mapped : (state : StreamLifecycleState) × (map_runtime_state m.runtime.state ≡ some state)
  resident : m.runtime.resident_subscription_count ≤ 8
  events : m.event_publication.active_subscriptions ≤ 8

state_of :
    (o : Option StreamLifecycleState)
    → has_value o ≡ true
    → (state : StreamLifecycleState) × (o ≡ some state)
state_of none h = ground arith
state_of (some state) h = (state, refl)

valid_markets-IsSound :
    (m : CollectedMarket) (ms : List CollectedMarket)
    → valid_markets (m ∷ ms) ≡ true
    → IsSound m × (valid_markets ms ≡ true)
unfolding valid_markets
valid_markets-IsSound m ms h = (
  record {
    mapped = state_of (map_runtime_state m.runtime.state) (ground arith);
    resident = ground arith;
    events = ground arith;
  },
  ground arith,
)

fresh_event_iff :
    (m : CollectedMarket) (o : Option AppliedDepthObservation) (t : ℕ)
    → m.runtime.last_applied_depth ≡ o
    → (fresh_event m o ≡ some t) ↔ IsFresh m t
unfolding fresh_event
fresh_event_iff m none t e =
    (λ h. ground (arith, h), λ (_, _, _, _, depth, d, _, _). ground (arith, d, e))
fresh_event_iff m (some depth) t e = (
  λ h. (
    ground (arith, h),
    ground (arith, h),
    ground (arith, h),
    ground (arith, h),
    depth,
    e,
    ground (arith, h),
    ground (arith, h),
  ),
  λ (l, y, r, one, depth', d, c, at). ground (arith, l, y, r, one, d, e, c, at),
)

market_status-IsReport :
    (m : CollectedMarket) (s : StreamLifecycleState)
    → IsSound m
    → map_runtime_state m.runtime.state ≡ some s
    → IsReport m (market_status m s)
unfolding market_status
market_status-IsReport m s v e = record {
  key = refl;
  state = e;
  count = omega (arith, v.resident, v.events);
  connection =
      λ g. (λ h. (ground (arith, h), ground (arith, h)), λ (one, same). ground (arith, one, same));
  fresh = λ t. fresh_event_iff m m.runtime.last_applied_depth t refl;
}

IsWritten : ℕ → List CollectedMarket → Type 0
IsWritten total ms =
    (ss : List MarketStatus) × (write_markets total ms ≡ some (ss, total + total_count ss))
    × AreReports ms ss

write_one :
    (total count : ℕ) (m : CollectedMarket) (ms : List CollectedMarket) (s : StreamLifecycleState)
    (ss : List MarketStatus)
    → map_runtime_state m.runtime.state ≡ some s
    → IsReport m (market_status m s)
    → (market_status m s).active_subscription_count ≡ count
    → total + count < 2 ^ 64
    → write_markets (total + count) ms ≡ some (ss, total + count + total_count ss)
    → AreReports ms ss
    → IsWritten total (m ∷ ms)
unfolding write_markets IsWritten
write_one total count m ms s ss e r c b w rs =
    let step : add_u64 total (market_status m s).active_subscription_count ≡ total + count =
      omega (arith, b, c) in
    let sum : total + count + total_count ss ≡ total + total_count (market_status m s ∷ ss) =
      omega (arith, c) in
    (
      market_status m s ∷ ss,
      rw (e, step, w) (ap some (ap (λ n. (market_status m s ∷ ss, n)) sum)),
      (r, rs),
    )

write_markets-IsWritten :
    (total : ℕ) (ms : List CollectedMarket)
    → valid_markets ms ≡ true
    → total + 16 * length ms < 2 ^ 64
    → IsWritten total ms
unfolding write_markets IsWritten
write_markets-IsWritten total [] h b = ([], ap some (ap (λ n. ([], n)) (omega arith)), tt)
write_markets-IsWritten total (m ∷ ms) h b =
    let (v, rest) = valid_markets-IsSound m ms h in
    let (s, e) = v.mapped in
    let r = market_status-IsReport m s v e in
    let count = m.runtime.resident_subscription_count + m.event_publication.active_subscriptions in
    let (ss, w, rs) =
      write_markets-IsWritten (total + count) ms rest (omega (arith, v.resident, v.events, b)) in
    write_one total count m ms s ss e r r.count (omega (arith, v.resident, v.events, b)) w rs

gather-AreCollected :
    (observe_runtime : ℕ → Option RuntimeObservation)
    (observe_recovery : ℕ → Option RecoveryObservation)
    (observe_events : ℕ → EventPublicationObservation) (sources : List MarketSource)
    (ms : List CollectedMarket)
    → AreCollected observe_runtime observe_recovery observe_events sources ms
    → (gather observe_runtime observe_recovery observe_events sources ≡ some ms)
      × (length ms ≡ length sources)
unfolding gather
gather-AreCollected f g h [] [] c = (refl, refl)
gather-AreCollected f g h (x ∷ xs) (m ∷ ms) ((r, o, e, k), c) =
    let (ih, size) = gather-AreCollected f g h xs ms c in
    (rw (r, o, ih) (ground (arith, e, k)), ap suc size)
gather-AreCollected f g h [] (m ∷ ms) c = absurd c
gather-AreCollected f g h (x ∷ xs) [] c = absurd c

-- If the parts of at most eight markets, which is what a registry holds, show observations that are all
-- valid, the baseline is prepared and the clock has not gone back, then `collect` gives a snapshot. It
-- has one entry for each market, in order, with the market's key, its mapped state and its exact count;
-- an entry shows a connection exactly if there is one transport, and then that of the recovery; it shows
-- a time of the last event exactly if the market is live throughout and a depth of that connection was
-- applied last, and then the time that the depth came; and the total is the exact sum of the counts.
pub collect-AreReports :
    (observe_runtime : ℕ → Option RuntimeObservation)
    (observe_recovery : ℕ → Option RecoveryObservation)
    (observe_events : ℕ → EventPublicationObservation) (a : GatewayStatusAssembler)
    (ms : List CollectedMarket) (baseline : ℕ) (sample : ClockSample)
    → AreCollected observe_runtime observe_recovery observe_events a.sources ms
    → length a.sources ≤ 8
    → valid_markets ms ≡ true
    → a.start_baseline_monotonic_ns ≡ some baseline
    → baseline ≤ sample.monotonic_ns
    → (s : GatewayStatusSnapshot) × (collect observe_runtime observe_recovery observe_events
          (some sample)
          a
        ≡ status s)
      × AreReports ms s.markets
      × (s.total_active_subscriptions ≡ total_count s.markets)
unfolding collect assemble IsWritten
collect-AreReports f g h a ms baseline sample collected few valid prepared forward =
    let (gathered, size) = gather-AreCollected f g h a.sources ms collected in
    let (ss, w, rs) = write_markets-IsWritten 0 ms valid (omega (arith, few, size)) in
    let later : ltb sample.monotonic_ns baseline ≡ false = ground (arith, forward) in
    (
      record {
        schema_version = "gateway-status-snapshot.v1";
        gateway_instance_id = a.gateway_instance_id;
        observed_time_utc_ns = sample.utc_ns;
        uptime_seconds = (sample.monotonic_ns - baseline) / 1000000000;
        markets = ss;
        total_active_subscriptions = 0 + total_count ss;
      },
      rw (gathered, valid, prepared, later, w, collect, assemble) refl,
      rs,
      omega arith,
    )
