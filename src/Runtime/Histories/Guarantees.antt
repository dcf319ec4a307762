-- ===== src/Runtime/Histories/Guarantees.antt =====
-- What a runtime guarantees after any calls in any order: src/g3/market_runtime.cpp.
use binance_market_data_gate.Base.{
  ℕ, suc, ◌+◌, ◌≤◌, ◌<◌, ◌^◌, ◌≡◌, refl, subst, Bool, true, false, Option, some, List, [], ◌∷◌,
  length, All, arith,
}
use binance_market_data_gate.Runtime.Observed.{is_faulted, ClockSample}
use binance_market_data_gate.Runtime.Projection.{ProjectionApi}
use binance_market_data_gate.Runtime.Types.{
  RuntimeLimits, IngressItem, Work, admits_request, Runtime,
}
use binance_market_data_gate.Runtime.Calls.{runtime, is_observable}
use binance_market_data_gate.Runtime.Handling.{IsShut}
use binance_market_data_gate.Runtime.Histories.{
  RuntimeCall, starts, begins_owner, turns_owner, submits, observes, requests_reset, finishes_reset,
  requests_snapshot, finishes_snapshot, requests_admission, notifies_closed, closes_admission,
  requests_shutdown, releases_owner, pauses_owner, requests_stop, finishes_stop, handles,
  runtime_call, runtime_calls,
}
use binance_market_data_gate.Runtime.Histories.Invariant.{
  IsRuntime, outstanding, unanswered, Numbered, more-IsRuntime,
}
use binance_market_data_gate.Runtime.Histories.Steps.{
  observe-IsRuntime, request_reset-IsRuntime, finish_reset-IsRuntime, request_snapshot-IsRuntime,
  finish_snapshot-IsRuntime, request_publication_shutdown-IsRuntime, pause_owner-IsRuntime,
  flags-IsRuntime, submit-IsRuntime, request_admission-IsRuntime,
}
use binance_market_data_gate.Runtime.Histories.Lifetime.{
  start-IsRuntime, request_stop-IsRuntime, finish_joined-IsRuntime, begin_owner-IsRuntime,
  handle-IsRuntime,
}
use binance_market_data_gate.Runtime.Histories.Turns.{owner_turn-IsRuntime}

module _ {api : ProjectionApi} where
  new-IsRuntime :
      (limits : RuntimeLimits) (clocked : Bool) (id : api.ExpectedIdentity) (p : api.Projection)
      (paused : Bool) (s : Runtime api)
      → runtime limits clocked id p paused ≡ some s
      → IsRuntime 0 s
  unfolding runtime
  new-IsRuntime limits clocked id p paused s e = ground (arith, e)

  -- Every queue is within its limit, and each request without an answer is counted.
  pub record IsBounded (s : Runtime api) : Type 0 where
    pub mailbox : length s.ingress ≤ s.limits.ingress_capacity
    pub buffer : length s.bootstrap ≤ s.limits.bootstrap_capacity
    pub resident : length s.subscribers ≤ s.limits.publication.maximum_active_subscriptions
    pub pending : length s.admission_requests ≤ s.pending_admission_count
    pub admissible : s.pending_admission_count ≤ s.limits.publication.pending_admission_capacity

  unanswered_le : (w : Work api) (k : ℕ) → k ≤ unanswered w k
  unanswered_le (admits_request _) k = omega arith
  unanswered_le w k = omega arith

  pub Numbered-later :
      (target k last : ℕ) (items : List (IngressItem api))
      → target ≤ k
      → Numbered k items last
      → All (λ item. target < item.ticket) items
  Numbered-later target k last [] h n = tt
  Numbered-later target k last (i ∷ items) h (e, n) =
      (omega (arith, h, e), Numbered-later target (suc k) last items (omega (arith, h)) n)

module _ {api : ProjectionApi} (clock : ℕ → Option ClockSample) (allocator : ℕ → Option ℕ) where
  runtime_call-IsRuntime :
      {n : ℕ} (o : RuntimeCall api) (s : Runtime api)
      → suc n < 2 ^ 64
      → IsRuntime n s
      → IsRuntime (suc n) (runtime_call clock allocator o s)
  unfolding runtime_call
  runtime_call-IsRuntime (starts created) s b v = start-IsRuntime s v created
  runtime_call-IsRuntime begins_owner s b v = begin_owner-IsRuntime s v
  runtime_call-IsRuntime turns_owner s b v =
      more-IsRuntime (owner_turn-IsRuntime clock allocator s v s.work refl)
  runtime_call-IsRuntime (submits input) s b v = submit-IsRuntime s v input b
  runtime_call-IsRuntime observes s b v = observe-IsRuntime s v
  runtime_call-IsRuntime (requests_reset kind) s b v = request_reset-IsRuntime s v kind
  runtime_call-IsRuntime finishes_reset s b v = finish_reset-IsRuntime s v
  runtime_call-IsRuntime requests_snapshot s b v = request_snapshot-IsRuntime s v
  runtime_call-IsRuntime finishes_snapshot s b v = finish_snapshot-IsRuntime s v
  runtime_call-IsRuntime (requests_admission allocated subscription) s b v =
      request_admission-IsRuntime s v allocated subscription b
  runtime_call-IsRuntime notifies_closed s b v = (flags-IsRuntime s v).0
  runtime_call-IsRuntime closes_admission s b v = (flags-IsRuntime s v).1
  runtime_call-IsRuntime requests_shutdown s b v = request_publication_shutdown-IsRuntime s v
  runtime_call-IsRuntime releases_owner s b v = (flags-IsRuntime s v).2
  runtime_call-IsRuntime pauses_owner s b v = pause_owner-IsRuntime s v
  runtime_call-IsRuntime requests_stop s b v = request_stop-IsRuntime s v
  runtime_call-IsRuntime finishes_stop s b v = finish_joined-IsRuntime s v s.work refl
  runtime_call-IsRuntime (handles address o) s b v = handle-IsRuntime s v address o

  runtime_calls-IsRuntime_from :
      {n : ℕ} (os : List (RuntimeCall api)) (s : Runtime api)
      → n + length os < 2 ^ 64
      → IsRuntime n s
      → IsRuntime (n + length os) (runtime_calls clock allocator os s)
  unfolding runtime_calls
  runtime_calls-IsRuntime_from {n} [] s b v = subst (λ k. IsRuntime k s) (omega arith) v
  runtime_calls-IsRuntime_from {n} (o ∷ os) s b v =
      subst (λ k. IsRuntime k (runtime_calls clock allocator (o ∷ os) s)) (omega arith)
        (runtime_calls-IsRuntime_from {n = suc n} os (runtime_call clock allocator o s)
          (omega (arith, b)) (runtime_call-IsRuntime o s (omega (arith, b)) v))

  module _ (limits : RuntimeLimits) (clocked : Bool) (id : api.ExpectedIdentity)
      (p : api.Projection) (paused : Bool) (s : Runtime api)
      (made : runtime limits clocked id p paused ≡ some s) (os : List (RuntimeCall api))
      (few : length os < 2 ^ 64) where
    abbrev pub reached : Runtime api
    reached = runtime_calls clock allocator os s

    pub reached-IsRuntime : IsRuntime (length os) reached
    reached-IsRuntime =
        subst (λ k. IsRuntime k reached) (omega arith)
          (runtime_calls-IsRuntime_from {n = 0} os s (omega (arith, few))
            (new-IsRuntime limits clocked id p paused s made))

    -- From the constructor on, after fewer than 2 ^ 64 calls and steps of the owner in any order, the
    -- mailbox, the bootstrap buffer, the subscribers and the admission requests are within their
    -- limits, and the counter of pending admissions counts at least the requests in the queue.
    pub runtime_calls-IsBounded : IsBounded (runtime_calls clock allocator os s)
    runtime_calls-IsBounded =
        let v = reached-IsRuntime in
        record {
          mailbox = v.mailbox;
          buffer = v.buffer;
          resident = v.resident;
          pending =
              let e = v.pending in
              let more = unanswered_le reached.work (length reached.admission_requests) in
              omega (arith, e, more);
          admissible = v.admissible;
        }

    -- From the constructor on, after fewer than 2 ^ 64 calls and steps of the owner in any order, the
    -- tickets of the item in the owner's hands and of those in the mailbox are, in that order, the
    -- numbers after the last processed ticket up to the last admitted one.
    pub runtime_calls-Numbered :
        Numbered
          (runtime_calls clock allocator os s).processed_ticket
          (outstanding
            (runtime_calls clock allocator os s).work
            (runtime_calls clock allocator os s).ingress)
          (runtime_calls clock allocator os s).last_admitted_ticket
    runtime_calls-Numbered = reached-IsRuntime.tickets

    -- From the constructor on, after fewer than 2 ^ 64 calls and steps of the owner in any order, a
    -- faulted runtime takes no input and none of its sessions is active; and unless the reason of the
    -- fault is an internal error, its mailbox and its bootstrap buffer are empty.
    pub runtime_calls-IsShut :
        is_faulted (runtime_calls clock allocator os s).observation.state ≡ true
        → IsShut (runtime_calls clock allocator os s)
    runtime_calls-IsShut = reached-IsRuntime.settled.1

    -- From the constructor on, after fewer than 2 ^ 64 calls and steps of the owner in any order, when
    -- the wait of `observe_until` for a ticket is over and the runtime is not stopped, every item that
    -- is not processed has a later ticket: the item of that ticket and all before it are handled.
    pub is_observable-handled :
        (target : ℕ)
        → is_observable target (runtime_calls clock allocator os s) ≡ true
        → (runtime_calls clock allocator os s).is_over ≡ false
        → All
            (λ item. target < item.ticket)
            (outstanding
              (runtime_calls clock allocator os s).work
              (runtime_calls clock allocator os s).ingress)
    unfolding is_observable
    is_observable-handled target e f =
        Numbered-later target reached.processed_ticket reached.last_admitted_ticket _
          (ground (arith, e, f)) reached-IsRuntime.tickets
