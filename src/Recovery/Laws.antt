-- ===== src/Recovery/Laws.antt =====
-- The recovery's decisions and its history of failures: src/g5/spot_recovery.cpp.
use binance_market_data_gate.Base.{
  ℕ, suc, zero, Bool, true, false, ◌&&◌, ◌||◌, Option, none, some, List, [], ◌∷◌, ◌++◌, ◌+◌, ◌-◌,
  ◌≤◌, ◌<◌, ◌==◌, ltb, leb, ◌≡◌, ◌≢◌, ◌↔◌, refl, sym, ◌∙◌, ap, ◌⊎◌, inl, inr, if◌then◌else◌,
  if_cases, has_value, length, length-append, length-set, take, drop, set, arith,
}
use binance_market_data_gate.Base.Decimal.{
  FromChars, success, from_chars_u64, from_chars_u64_iff, IsDigits, decimal_value,
}
use binance_market_data_gate.Runtime.Observed.{is_faulted, is_needs_resync}
use binance_market_data_gate.Runtime.Types.{
  FaultReason, ingress_overflow, bootstrap_buffer_overflow, transport_failure, snapshot_failure,
}
use binance_market_data_gate.Recovery.Types.{
  http_status, internal, NetworkError, TransportObservation, RuntimeCut, RecoveryDecision,
}
use binance_market_data_gate.Recovery.Policy.{
  seconds_max, accepted_seconds, parse_retry_after, classify_failure, normal_backoff_delay,
  exhausted, backs_off, recovery_step, with_minimum,
}
use binance_market_data_gate.Recovery.History.{
  recovery_failure_history_capacity, FailureHistory, shift_down, record_failure,
}

accepted_seconds_iff :
    (r : FromChars) (n : ℕ)
    → (accepted_seconds r ≡ some n)
      ↔ ((r ≡ record { ec = success; value = n; rest = [] }) × (n ≤ seconds_max))
accepted_seconds_iff r n =
    (λ h. (ground (arith, h), ground (arith, h)), λ (e, b). ground (arith, e, b))

-- A text gives a delay exactly if it is the decimal digits of it, one at least and nothing else, and
-- the delay fits the seconds of the clock.
pub parse_retry_after_iff :
    (text : List ℕ) (n : ℕ)
    → (parse_retry_after (some text) ≡ some n)
      ↔ (IsDigits text × (text ≢ []) × (decimal_value text ≡ n) × (n ≤ seconds_max))
unfolding parse_retry_after
parse_retry_after_iff [] n = (λ h. ground (arith, h), λ (_, full, _, _). absurd (full refl))
parse_retry_after_iff (c ∷ cs) n =
    let (sound, complete) = accepted_seconds_iff (from_chars_u64 (c ∷ cs)) n in
    let (reads, writes) = from_chars_u64_iff (c ∷ cs) n in
    (
      λ h. let (e, b) = sound h in let (d, full, v, _) = reads e in (d, full, v, b),
      λ (d, full, v, b). complete (writes (d, full, v, omega (arith, b)), b),
    )

-- The faults that a new connection can mend.
abbrev pub is_transient : FaultReason → Bool
is_transient ingress_overflow = true
is_transient bootstrap_buffer_overflow = true
is_transient transport_failure = true
is_transient snapshot_failure = true
is_transient _ = false

-- Whether a runtime and its transport show a failure that is worth another attempt.
abbrev pub is_failure : RuntimeCut → Option NetworkError → Bool
is_failure runtime error = is_needs_resync runtime.state || (elim runtime.fault_reason [
  | none ↦ has_value error
  | some reason ↦ if is_faulted runtime.state then is_transient reason else has_value error
])

-- Whether the transport's error, if there is one, leaves room for another attempt.
abbrev pub is_mendable : Option NetworkError → Bool
is_mendable none = true
is_mendable (some error) = elim error.code [
  | internal ↦ false
  | http_status ↦ elim error.status [
    | none ↦ false
    | some status ↦
        ((status == 429 || status == 418) && has_value (parse_retry_after error.retry_after))
        || (leb 500 status && leb status 599)
  ]
  | _ ↦ true
]

-- `classify_failure` calls a failure recoverable exactly if the runtime or the transport shows one that
-- another attempt can mend, and the transport's error leaves room for it: it is not an internal error,
-- and an HTTP status is one of the 500s, or is 429 or 418 with a delay that can be read.
pub classify_failure-recoverable :
    (runtime : RuntimeCut) (transport : TransportObservation)
    → (classify_failure runtime transport).recoverable
      ≡ (is_failure runtime transport.terminal_error && is_mendable transport.terminal_error)
unfolding classify_failure
classify_failure-recoverable runtime transport = ground arith

with_minimum-ge :
    (least : Option ℕ) (delay : ℕ)
    → (delay ≤ with_minimum least delay) × ((k : ℕ) → least ≡ some k → k ≤ with_minimum least delay)
with_minimum-ge none delay = (omega arith, λ k e. ground (arith, e))
with_minimum-ge (some l) delay = (ground arith, λ k e. ground (arith, e))

-- The step from an attempt's number that the policy admits.
abbrev IsBackoff : ℕ → RecoveryDecision → Type 0
IsBackoff attempts decision =
    (delay : ℕ) × (recovery_step attempts decision ≡ backs_off (suc attempts) (some delay))
    × (suc attempts ≤ 6)
    × (1 ≤ delay)
    × ((least : ℕ) → decision.minimum_delay ≡ some least → least ≤ delay)

delayed-IsBackoff :
    (attempts normal : ℕ) (decision : RecoveryDecision)
    → 1 ≤ normal
    → suc attempts ≤ 6
    → recovery_step attempts decision
      ≡ backs_off (suc attempts) (some (with_minimum decision.minimum_delay normal))
    → IsBackoff attempts decision
delayed-IsBackoff attempts normal decision one few e =
    let (more, least) = with_minimum-ge decision.minimum_delay normal in
    (with_minimum decision.minimum_delay normal, e, few, omega (arith, one, more), least)

-- After any number of consecutive attempts, the coordinator is exhausted exactly from the sixth on;
-- before that it takes up the next attempt, one of the first six, after a delay of at least a second
-- and at least what the decision asks for.
pub recovery_step-bounded :
    (attempts : ℕ) (decision : RecoveryDecision)
    → ((6 ≤ attempts) × (recovery_step attempts decision ≡ exhausted))
      ⊎ ((delay : ℕ) × (recovery_step attempts decision ≡ backs_off (suc attempts) (some delay))
          × (suc attempts ≤ 6)
          × (1 ≤ delay)
          × ((least : ℕ) → decision.minimum_delay ≡ some least → least ≤ delay))
unfolding recovery_step normal_backoff_delay
recovery_step-bounded zero d = inr (delayed-IsBackoff 0 1 d (omega arith) (omega arith) refl)
recovery_step-bounded (suc zero) d = inr (delayed-IsBackoff 1 2 d (omega arith) (omega arith) refl)
recovery_step-bounded (suc (suc zero)) d =
    inr (delayed-IsBackoff 2 4 d (omega arith) (omega arith) refl)
recovery_step-bounded (suc (suc (suc zero))) d =
    inr (delayed-IsBackoff 3 8 d (omega arith) (omega arith) refl)
recovery_step-bounded (suc (suc (suc (suc zero)))) d =
    inr (delayed-IsBackoff 4 16 d (omega arith) (omega arith) refl)
recovery_step-bounded (suc (suc (suc (suc (suc zero))))) d =
    inr (delayed-IsBackoff 5 30 d (omega arith) (omega arith) refl)
recovery_step-bounded (suc (suc (suc (suc (suc (suc k)))))) d = inl (omega arith, ground arith)

-- The entries in use, oldest first.
abbrev pub recent {ℓ} : {A : Type ℓ} → FailureHistory A → List A
recent h = take h.failure_history_size h.failure_history

-- The array has its seven slots, and at most all of them are in use.
pub record IsHistory {ℓ} {A : Type ℓ} (h : FailureHistory A) : Type ℓ where
  pub slots : length h.failure_history ≡ recovery_failure_history_capacity
  pub used : h.failure_history_size ≤ recovery_failure_history_capacity

length-shift_down {ℓ} : {A : Type ℓ} (xs : List A) → length (shift_down xs) ≡ length xs
unfolding shift_down
length-shift_down [] = refl
length-shift_down (x ∷ []) = refl
length-shift_down (x ∷ y ∷ ys) = ap suc (length-shift_down (y ∷ ys))

-- A slot in the middle: what is before it stays, and the slot comes last.
take-suc-set {ℓ} :
    {A : Type ℓ} (xs : List A) (n : ℕ) (a : A)
    → n < length xs
    → take (suc n) (set xs n a) ≡ take n xs ++ (a ∷ [])
take-suc-set [] n a h = ground (arith, h)
take-suc-set (x ∷ xs) zero a h = refl
take-suc-set (x ∷ xs) (suc n) a h = ap (λ r. x ∷ r) (take-suc-set xs n a (omega (arith, h)))

set-shift_down {ℓ} :
    {A : Type ℓ} (x : A) (xs : List A) (a : A)
    → set (shift_down (x ∷ xs)) (length xs) a ≡ xs ++ (a ∷ [])
unfolding shift_down
set-shift_down x [] a = refl
set-shift_down x (y ∷ ys) a = ap (λ r. y ∷ r) (set-shift_down y ys a)

-- The last seven of the entries.
abbrev pub newest {ℓ} : {A : Type ℓ} → List A → List A
newest xs = if ltb recovery_failure_history_capacity (length xs) then drop 1 xs else xs

take-length {ℓ} : {A : Type ℓ} (n : ℕ) (xs : List A) → length xs ≡ n → take n xs ≡ xs
take-length zero [] e = refl
take-length zero (x ∷ xs) e = ground (arith, e)
take-length (suc n) [] e = refl
take-length (suc n) (x ∷ xs) e = ap (λ r. x ∷ r) (take-length n xs (omega (arith, e)))

length-take {ℓ} : {A : Type ℓ} (n : ℕ) (xs : List A) → n ≤ length xs → length (take n xs) ≡ n
length-take zero xs h = refl
length-take (suc n) [] h = ground (arith, h)
length-take (suc n) (x ∷ xs) h = ap suc (length-take n xs (omega (arith, h)))

full_recent {ℓ} :
    {A : Type ℓ} (slots : List A) (a : A)
    → length slots ≡ 7
    → take 7 (set (shift_down slots) 6 a) ≡ newest (take 7 slots ++ (a ∷ []))
full_recent [] a e = ground (arith, e)
full_recent (x ∷ xs) a e =
    let six : length xs ≡ 6 = omega (arith, e) in
    let longer = length-append xs (a ∷ []) in
    let moved : set (shift_down (x ∷ xs)) 6 a ≡ xs ++ (a ∷ []) =
      ap (λ k. set (shift_down (x ∷ xs)) k a) (sym six) ∙ set-shift_down x xs a in
    let over : ltb 7 (suc (length (xs ++ (a ∷ [])))) ≡ true = ground (arith, longer, six) in
    ap (take 7) moved
    ∙ take-length 7 (xs ++ (a ∷ [])) (omega (arith, longer, six))
    ∙ rw (take-length 6 xs six, over) refl

room_recent {ℓ} :
    {A : Type ℓ} (n : ℕ) (slots : List A) (a : A)
    → length slots ≡ 7
    → n < 7
    → take (suc n) (set slots n a) ≡ newest (take n slots ++ (a ∷ []))
room_recent n slots a e h =
    let longer = length-append (take n slots) (a ∷ []) in
    let kept = length-take n slots (omega (arith, e, h)) in
    let fits : ltb 7 (length (take n slots ++ (a ∷ []))) ≡ false =
      ground (arith, longer, kept, h) in
    take-suc-set slots n a (omega (arith, e, h)) ∙ rw fits refl

pub record_failure-recent {ℓ} :
    {A : Type ℓ} (diagnostic : A) (h : FailureHistory A)
    → IsHistory h
    → IsHistory (record_failure diagnostic h)
      × (recent (record_failure diagnostic h) ≡ newest (recent h ++ (diagnostic ∷ [])))
unfolding record_failure
record_failure-recent {A} diagnostic h v =
    let full = v.slots in
    let used = v.used in
    if_cases
      (λ (r : FailureHistory A). IsHistory r × (recent r ≡ newest (recent h ++ (diagnostic ∷ []))))
      (h.failure_history_size == recovery_failure_history_capacity)
      (λ e.
        let seven : h.failure_history_size ≡ 7 = ground (arith, e) in
        let kept =
          length-set (shift_down h.failure_history) (h.failure_history_size - 1) diagnostic in
        let shifted = length-shift_down h.failure_history in
        (
          record { slots = kept ∙ shifted ∙ full; used = used },
          rw seven (full_recent h.failure_history diagnostic full),
        ))
      (λ e.
        let kept = length-set h.failure_history h.failure_history_size diagnostic in
        let next : h.failure_history_size + 1 ≡ suc h.failure_history_size = omega arith in
        (
          record { slots = kept ∙ full; used = ground (arith, used, e) },
          rw next (
              room_recent h.failure_history_size h.failure_history diagnostic full
                (ground (arith, used, e))),
        ))
