-- ===== src/Publication/Shared.antt =====
-- `std::shared_ptr` and the wire enumerations that both publications use.
use binance_market_data_gate.Base.{
  ℕ, ◌≡◌, refl, Bool, true, false, ◌&&◌, Option, none, some, ◌==◌, optional_eq,
}

-- A non-null `std::shared_ptr<const A>`: the address of the control block, and the object.
pub record Shared {ℓ} (A : Type ℓ) : Type ℓ where
  pub address : ℕ
  pub target : A

-- `==` of two shared pointers compares addresses.
abbrev pub same_pointer {ℓ} : {A : Type ℓ} → Option (Shared A) → Option (Shared A) → Bool
same_pointer none none = true
same_pointer (some a) (some b) = a.address == b.address
same_pointer _ _ = false

-- `std::make_shared`: the address that the allocator gives, or `none` for `std::bad_alloc`.
abbrev pub make_shared {ℓ} : {A : Type ℓ} → Option ℕ → A → Option (Shared A)
make_shared none a = none
make_shared (some address) a = some (record { address = address; target = a })

-- The enumerators of `common_wire::ConsumerGapReason` that the gateway sets.
pub data ConsumerGapReason : Type 0 where
  slow_consumer resume_not_available connection_generation_changed : ConsumerGapReason
  upstream_sequence_gap : ConsumerGapReason

-- The enumerators of `common_wire::RecoveryAction` that the gateway sets.
pub data RecoveryAction : Type 0 where
  resubscribe request_new_snapshot : RecoveryAction

abbrev pub reason_eq : ConsumerGapReason → ConsumerGapReason → Bool
reason_eq slow_consumer slow_consumer = true
reason_eq resume_not_available resume_not_available = true
reason_eq connection_generation_changed connection_generation_changed = true
reason_eq upstream_sequence_gap upstream_sequence_gap = true
reason_eq _ _ = false

abbrev pub action_eq : RecoveryAction → RecoveryAction → Bool
action_eq resubscribe resubscribe = true
action_eq request_new_snapshot request_new_snapshot = true
action_eq _ _ = false

pub reason_eq_refl : (r : ConsumerGapReason) → reason_eq r r ≡ true
reason_eq_refl slow_consumer = refl
reason_eq_refl resume_not_available = refl
reason_eq_refl connection_generation_changed = refl
reason_eq_refl upstream_sequence_gap = refl

pub action_eq_refl : (a : RecoveryAction) → action_eq a a ≡ true
action_eq_refl resubscribe = refl
action_eq_refl request_new_snapshot = refl

-- `PublicationTime`, and `EventPublicationTime`, which has the same fields.
pub record PublicationTime : Type 0 where
  pub utc_ns : ℕ
  pub monotonic_ns : Option ℕ

abbrev pub time_eq : PublicationTime → PublicationTime → Bool
time_eq s t = s.utc_ns == t.utc_ns && optional_eq s.monotonic_ns t.monotonic_ns
