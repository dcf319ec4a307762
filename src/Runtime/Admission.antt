-- ===== src/Runtime/Admission.antt =====
-- The owner's answer to a request for a subscription: `perform_admission_request` of
-- src/g3/market_runtime.cpp.
use binance_market_data_gate.Base.{
  ℕ, suc, Bool, not, ◌||◌, Option, none, some, List, [], ◌∷◌, ◌++◌, ◌==◌, leb, if◌then◌else◌,
  length, ◌-◌,
}
use binance_market_data_gate.Base.Words.{u64_max, add_u64}
use binance_market_data_gate.Base.Decimal.{to_string}
use binance_market_data_gate.Publication.Shared.{Shared, PublicationTime}
use binance_market_data_gate.Publication.Channel.Types.{PublicationRecord}
use binance_market_data_gate.Publication.Channel.Owner.{
  subscriber_channel, stage_initial, make_accepted_record, make_snapshot_record,
}
use binance_market_data_gate.Runtime.Observed.{ClockSample}
use binance_market_data_gate.Runtime.Projection.{Outcome, ProjectionApi, good, bad, threw}
use binance_market_data_gate.Runtime.Types.{
  SubscriptionAdmissionError, not_live, active_limit, invalid_depth_limit, shutting_down,
  clock_error, id_exhausted, internal_error, AdmissionRequest, Channel, SubscriptionAdmissionResult,
  accepted_subscription, admission_error, Runtime,
}
use binance_market_data_gate.Runtime.Requests.{is_healthy}
use binance_market_data_gate.Runtime.Faults.{sweep_closed_subscribers, sample_publication_time}

-- `std::string{"ob-"} + std::to_string(n)`.
abbrev pub subscription_id : ℕ → List ℕ
subscription_id n = 111 ∷ 98 ∷ 45 ∷ to_string n

-- `DepthLimit::create` on the limit, where there is one; `none` is an invalid limit.
abbrev depth_options {ℓ} : {A : Type ℓ} → (ℕ → Option A) → Option ℕ → Option (Option A)
depth_options create none = some none
depth_options create (some bits) = elim (create bits) [
  | none ↦ none
  | some limit ↦ some (some limit)
]

module _ {api : ProjectionApi} where
  -- `complete_admission_request`; the request has left the queue and has no result.
  unfoldable pub complete_admission :
      AdmissionRequest → SubscriptionAdmissionResult api → Runtime api → Runtime api
  complete_admission request result s =
      let pending = if s.pending_admission_count == 0 then 0 else s.pending_admission_count - 1 in
      record s {
        answers = s.answers ++ ((request.id, result) ∷ []);
        pending_admission_count = pending;
        observation = record s.observation { pending_admission_count = pending };
      }

  -- The two checks under the lock; `none` is a pass.
  unfoldable pub admission_gate : Runtime api → Option SubscriptionAdmissionError
  admission_gate s =
      if not s.publication_admission_open
        || s.publication_shutdown_requested
        || s.stop_requested
        || s.is_over
      then some shutting_down
      else if not (is_healthy s.observation)
      then some not_live
      else none

  -- The second of those checks and the commit.
  unfoldable pub commit_channel :
      Option SubscriptionAdmissionError
      → AdmissionRequest
      → Shared (Channel api)
      → Runtime api
      → Runtime api
  unfolding complete_admission
  commit_channel (some error) request channel s =
      complete_admission request (admission_error error) s
  commit_channel none request channel s =
      complete_admission request (accepted_subscription channel) (record s {
        subscribers = s.subscribers ++ (channel ∷ []);
        next_subscription_id = add_u64 s.next_subscription_id 1;
        observation = record s.observation {
          resident_subscription_count = length (s.subscribers ++ (channel ∷ []));
        };
      })

  -- From what `stage_initial` gives. `address` is that of the channel.
  unfoldable pub commit_admission :
      ℕ → AdmissionRequest → Bool × Channel api → Runtime api → Runtime api
  unfolding commit_channel admission_gate
  commit_admission address request (staged, channel) s =
      if not staged
      then complete_admission request (admission_error active_limit) s
      else commit_channel (admission_gate s) request
          (record { address = address; target = channel }) s

  -- From the channel and its two records; `none` is a constructor that threw, or `std::bad_alloc`.
  unfoldable pub admit_channel :
      (address : Option ℕ)
      → (channel : Option (Channel api))
      → (accepted book : Option
          (Shared (PublicationRecord api.BookSnapshot (Shared api.DepthUpdate))))
      → AdmissionRequest
      → Runtime api
      → Runtime api
  unfolding commit_admission
  admit_channel none channel accepted book request s =
      complete_admission request (admission_error internal_error) s
  admit_channel (some address) none accepted book request s =
      complete_admission request (admission_error internal_error) s
  admit_channel (some address) (some channel) none book request s =
      complete_admission request (admission_error internal_error) s
  admit_channel (some address) (some channel) (some accepted) none request s =
      complete_admission request (admission_error internal_error) s
  admit_channel (some address) (some channel) (some accepted) (some book) request s =
      commit_admission address request (stage_initial (some accepted) (some book) channel) s

module _ {api : ProjectionApi} (allocator : ℕ → Option ℕ) where
  -- From the snapshot on, with three calls of `std::make_shared`.
  unfoldable pub admit_book :
      AdmissionRequest
      → PublicationTime
      → Outcome api.AdapterError api.BookSnapshot
      → Runtime api
      → Runtime api
  unfolding admit_channel
  admit_book request at threw s = complete_admission request (admission_error internal_error) s
  admit_book request at (bad error) s =
      complete_admission request
        (admission_error
          (if api.is_invalid_depth_limit error then invalid_depth_limit else internal_error))
        s
  admit_book request at (good book) s =
      let id = subscription_id s.next_subscription_id in
      let gateway = request.subscription.gateway_instance_id in
      let k = s.allocations in
      admit_channel (allocator k)
        (subscriber_channel id gateway s.limits.publication.ordinary_queue_capacity)
        (make_accepted_record (allocator (suc k)) request.subscription.request_id id gateway at)
        (make_snapshot_record (allocator (suc (suc k))) book s.current_projection_generation at)
        request (record s { allocations = suc (suc (suc k)) })

  -- From the sampled time on.
  unfoldable pub admit_sampled :
      AdmissionRequest → Option api.DepthLimit → Option PublicationTime → Runtime api → Runtime api
  unfolding admit_book
  admit_sampled request depth none s = complete_admission request (admission_error clock_error) s
  admit_sampled request depth (some at) s =
      if s.next_subscription_id == u64_max
      then complete_admission request (admission_error id_exhausted) s
      else admit_book request at
          (api.make_local_order_book_snapshot s.projection
            (record {
              identity = s.expected_identity;
              producer = "gateway-g7-publication";
              producer_version = "1.0.0";
              generated_utc_ns = at.utc_ns;
              generated_monotonic_ns = at.monotonic_ns;
            })
            depth)
          s

module _ {api : ProjectionApi} (clock : ℕ → Option ClockSample) (allocator : ℕ → Option ℕ) where
  -- From the depth limit on.
  unfoldable pub admit_limited :
      AdmissionRequest → Option (Option api.DepthLimit) → Runtime api → Runtime api
  unfolding admit_sampled sample_publication_time
  admit_limited request none s = complete_admission request (admission_error invalid_depth_limit) s
  admit_limited request (some depth) s =
      let (sampled, t) = sample_publication_time clock s in
      admit_sampled allocator request depth sampled t

  -- From the first of the checks on.
  unfoldable pub admit_gated :
      Option SubscriptionAdmissionError → AdmissionRequest → Runtime api → Runtime api
  unfolding admit_limited
  admit_gated (some error) request s = complete_admission request (admission_error error) s
  admit_gated none request s =
      if leb s.limits.publication.maximum_active_subscriptions (length s.subscribers)
      then complete_admission request (admission_error active_limit) s
      else admit_limited request
          (depth_options api.create_depth_limit request.subscription.depth_limit) s

  -- Without the hook that tests install.
  unfoldable pub perform_admission_request : AdmissionRequest → Runtime api → Runtime api
  unfolding admit_gated
  perform_admission_request request s =
      let t = sweep_closed_subscribers s in admit_gated (admission_gate t) request t
