-- ===== src/Runtime/Handling.antt =====
-- What the owner's functions keep of the runtime, and the faulted state: src/g3/market_runtime.cpp.
pub mod Sessions
pub mod Faulting
pub mod Resets
pub mod Applying
pub mod Inputs
pub mod Answering
use binance_market_data_gate.Base.{
  ℕ, ◌≤◌, ◌≡◌, refl, sym, subst, ◌∙◌, ap, ap₂, ◌⊎◌, inl, inr, Bool, true, false, not, ◌&&◌, Option,
  none, some, List, [], ◌∷◌, length, All, arith,
}
use binance_market_data_gate.Publication.Shared.{Shared}
use binance_market_data_gate.Publication.Channel.Types.{is_active, SubscriberChannel}
use binance_market_data_gate.Runtime.Observed.{is_faulted}
use binance_market_data_gate.Runtime.Projection.{ProjectionApi}
use binance_market_data_gate.Runtime.Types.{
  RuntimeLimits, DepthUpdateInput, Channel, AdmissionRequest, IngressItem, Work, Observation,
  FaultReason, is_internal, Runtime,
}
use binance_market_data_gate.Runtime.Faults.{drained}

abbrev pub AllEnded :
    {Snapshot Update : Type 0} → List (Shared (SubscriberChannel Snapshot Update)) → Type 0
AllEnded = All (λ ch. is_active ch.target.state ≡ false)

-- An active session has no terminal record.
abbrev pub AllUnended :
    {Snapshot Update : Type 0} → List (Shared (SubscriberChannel Snapshot Update)) → Type 0
AllUnended = All (λ ch. is_active ch.target.state ≡ true → ch.target.terminal ≡ none)

module _ (api : ProjectionApi) where
  -- What a call of the owner's functions leaves as it is.
  pub record Frame : Type 0 where
    pub limits : RuntimeLimits
    pub started : Bool
    pub work : Work api
    pub last_admitted_ticket : ℕ
    pub pending_admission_count : ℕ
    pub admission_requests : List AdmissionRequest

  -- The fields that `Handled` speaks of.
  pub record View : Type 0 where
    pub kept : Frame
    pub ingress : List (IngressItem api)
    pub processed_ticket : ℕ
    pub bootstrap : List (DepthUpdateInput api)
    pub subscribers : List (Shared (Channel api))
    pub accepting : Bool
    pub is_fault : Bool
    pub fault_reason : Option FaultReason

module _ {api : ProjectionApi} where
  -- A runtime that takes no input, has none, and has no active session.
  pub record IsQuiet (s : Runtime api) : Type 0 where
    pub gate : s.accepting ≡ false
    pub mailbox : s.ingress ≡ []
    pub buffer : s.bootstrap ≡ []
    pub sessions : AllEnded s.subscribers

  -- A faulted runtime takes no input and no session is active; unless the reason is an internal error,
  -- it has no input.
  pub record IsShut (s : Runtime api) : Type 0 where
    pub gate : s.accepting ≡ false
    pub mailbox : is_internal s.observation.fault_reason ≡ false → s.ingress ≡ []
    pub buffer : is_internal s.observation.fault_reason ≡ false → s.bootstrap ≡ []
    pub sessions : AllEnded s.subscribers

  pub IsQuiet-IsShut : {s : Runtime api} → IsQuiet s → IsShut s
  IsQuiet-IsShut q = record {
    gate = q.gate;
    mailbox = λ _. q.mailbox;
    buffer = λ _. q.buffer;
    sessions = q.sessions;
  }

  -- A fault after which the mailbox and the buffer are empty.
  abbrev pub is_cleared : Observation api → Bool
  is_cleared o = is_faulted o.state && not (is_internal o.fault_reason)

  abbrev pub Settled : Runtime api → Type 0
  Settled s = AllUnended s.subscribers × (is_faulted s.observation.state ≡ true → IsShut s)

  abbrev pub Drained : Runtime api → Runtime api → Type 0
  Drained s t =
      ((t.ingress ≡ s.ingress) × (t.processed_ticket ≡ s.processed_ticket))
      ⊎ ((t.ingress ≡ []) × (t.processed_ticket ≡ drained s.processed_ticket s.ingress))

  abbrev pub frame : Runtime api → Frame api
  frame s = record {
    limits = s.limits;
    started = s.started;
    work = s.work;
    last_admitted_ticket = s.last_admitted_ticket;
    pending_admission_count = s.pending_admission_count;
    admission_requests = s.admission_requests;
  }

  pub record Handled (s t : Runtime api) : Type 0 where
    pub same : frame t ≡ frame s
    pub tickets : Drained s t
    pub buffered : length t.bootstrap ≤ length s.bootstrap
    pub resident : length t.subscribers ≤ length s.subscribers
    pub settled : Settled s → Settled t

  pub Drained-trans : (s t u : Runtime api) → Drained s t → Drained t u → Drained s u
  Drained-trans s t u (inl p) (inl q) = inl (q.0 ∙ p.0, q.1 ∙ p.1)
  Drained-trans s t u (inl p) (inr q) = inr (q.0, q.1 ∙ ap₂ drained p.1 p.0)
  Drained-trans s t u (inr p) (inl q) = inr (q.0 ∙ p.0, q.1 ∙ p.1)
  Drained-trans s t u (inr p) (inr q) = inr (q.0, q.1 ∙ ap (drained t.processed_ticket) p.0 ∙ p.1)

  pub Handled-trans : {s t u : Runtime api} → Handled s t → Handled t u → Handled s u
  Handled-trans {s} {t} {u} h k = record {
    same = k.same ∙ h.same;
    tickets = Drained-trans s t u h.tickets k.tickets;
    buffered = omega (arith, h.buffered, k.buffered);
    resident = omega (arith, h.resident, k.resident);
    settled = λ q. k.settled (h.settled q);
  }

  pub Handled-refl : (s : Runtime api) → Handled s s
  Handled-refl s = record {
    same = refl;
    tickets = inl (refl, refl);
    buffered = omega arith;
    resident = omega arith;
    settled = λ q. q;
  }

  abbrev pub view : Runtime api → View api
  view s = record {
    kept = frame s;
    ingress = s.ingress;
    processed_ticket = s.processed_ticket;
    bootstrap = s.bootstrap;
    subscribers = s.subscribers;
    accepting = s.accepting;
    is_fault = is_faulted s.observation.state;
    fault_reason = s.observation.fault_reason;
  }

  -- A step that changes none of those fields.
  pub same-Handled : (s t : Runtime api) → view t ≡ view s → Handled s t
  same-Handled s t e = record {
    same = ap (λ v. v.kept) e;
    tickets = inl (ap (λ v. v.ingress) e, ap (λ v. v.processed_ticket) e);
    buffered = let kept = ap (λ v. length v.bootstrap) e in omega (arith, kept);
    resident = let kept = ap (λ v. length v.subscribers) e in omega (arith, kept);
    settled = λ (u, q). (
      subst AllUnended (sym (ap (λ v. v.subscribers) e)) u,
      λ f.
          let k = q (sym (ap (λ v. v.is_fault) e) ∙ f) in
          let reason = ap (λ v. is_internal v.fault_reason) e in
          record {
            gate = ap (λ v. v.accepting) e ∙ k.gate;
            mailbox = λ o. ap (λ v. v.ingress) e ∙ k.mailbox (sym reason ∙ o);
            buffer = λ o. ap (λ v. v.bootstrap) e ∙ k.buffer (sym reason ∙ o);
            sessions = subst AllEnded (sym (ap (λ v. v.subscribers) e)) k.sessions;
          },
    );
  }
