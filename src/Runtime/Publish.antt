-- ===== src/Runtime/Publish.antt =====
-- The publication of an applied update to the subscribers: src/g3/market_runtime.cpp.
use binance_market_data_gate.Base.{
  ℕ, suc, Bool, true, false, Option, none, some, List, [], ◌∷◌, ◌==◌, if◌then◌else◌, length,
}
use binance_market_data_gate.Publication.Shared.{Shared, make_shared, PublicationTime}
use binance_market_data_gate.Publication.Channel.Types.{
  SubscriberChannel, OrdinaryAdmissionResult, allocation_failure,
}
use binance_market_data_gate.Publication.Channel.Owner.{admit_update}
use binance_market_data_gate.Runtime.Observed.{ClockSample}
use binance_market_data_gate.Runtime.Projection.{ProjectionApi}
use binance_market_data_gate.Runtime.Types.{clock_fault, internal_fault, Runtime}
use binance_market_data_gate.Runtime.Faults.{
  sweep_closed_subscribers, sample_publication_time, transition_to_fault,
}

abbrev pub is_allocation_failure : OrdinaryAdmissionResult → Bool
is_allocation_failure allocation_failure = true
is_allocation_failure _ = false

module _ {Snapshot Update : Type 0} (allocator : ℕ → Option ℕ) where
  -- The loop over the subscribers, with the number of allocations before it and after it. It ends at
  -- the first allocation failure, which is the `true`.
  unfoldable pub admit_each :
      Update
      → Option ℕ
      → PublicationTime
      → ℕ
      → List (Shared (SubscriberChannel Snapshot Update))
      → Bool × (ℕ × List (Shared (SubscriberChannel Snapshot Update)))
  admit_each update generation at k [] = (false, (k, []))
  admit_each update generation at k (ch ∷ chs) =
      let (result, c) = admit_update (allocator k) update generation at ch.target in
      let (failed, rest) = admit_each update generation at (suc k) chs in
      if is_allocation_failure result
      then (true, (suc k, record ch { target = c } ∷ chs))
      else (failed, (rest.0, record ch { target = c } ∷ rest.1))

module _ {api : ProjectionApi} (clock : ℕ → Option ClockSample) (allocator : ℕ → Option ℕ) where
  unfoldable pub publish_to_subscribers :
      Shared api.DepthUpdate → Option ℕ → PublicationTime → Runtime api → Runtime api
  publish_to_subscribers update generation at s =
      let (failed, (k, chs)) =
        admit_each allocator update generation at s.allocations s.subscribers in
      let t : Runtime api = record s { allocations = k; subscribers = chs } in
      if failed then transition_to_fault clock internal_fault none t else t

  unfoldable pub publish_shared :
      Option (Shared api.DepthUpdate) → Option ℕ → PublicationTime → Runtime api → Runtime api
  publish_shared none generation at s = transition_to_fault clock internal_fault none s
  publish_shared (some update) generation at s = publish_to_subscribers update generation at s

  -- `publish_applied_update`, from the sampled time on.
  unfoldable pub publish_sampled :
      api.DepthUpdate → Option ℕ → Option PublicationTime → Runtime api → Runtime api
  unfolding publish_shared
  publish_sampled update generation none s = transition_to_fault clock clock_fault none s
  publish_sampled update generation (some at) s =
      publish_shared (make_shared (allocator s.allocations) update) generation at
        (record s { allocations = suc s.allocations })

  unfoldable pub publish_applied_update : api.DepthUpdate → Option ℕ → Runtime api → Runtime api
  unfolding publish_sampled
  publish_applied_update update generation s =
      if s.publication_shutdown_completed
      then s
      else let t = sweep_closed_subscribers s in
        if length t.subscribers == 0
        then t
        else let (sampled, u) = sample_publication_time clock t in
          publish_sampled update generation sampled u
