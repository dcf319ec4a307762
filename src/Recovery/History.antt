-- ===== src/Recovery/History.antt =====
-- The history of failures, an array of fixed size: `record_failure` of src/g5/spot_recovery.cpp.
use binance_market_data_gate.Base.{ℕ, ◌+◌, ◌-◌, List, [], ◌∷◌, ◌==◌, if◌then◌else◌, set}

abbrev pub recovery_failure_history_capacity : ℕ
recovery_failure_history_capacity = 7

-- The array, and the number of its slots in use.
pub record FailureHistory {ℓ} (A : Type ℓ) : Type ℓ where
  pub failure_history : List A
  pub failure_history_size : ℕ

-- The loop that moves every entry a slot down.
unfoldable pub shift_down {ℓ} : {A : Type ℓ} → List A → List A
shift_down [] = []
shift_down (x ∷ []) = x ∷ []
shift_down (x ∷ y ∷ ys) = y ∷ shift_down (y ∷ ys)

unfoldable pub record_failure {ℓ} : {A : Type ℓ} → A → FailureHistory A → FailureHistory A
unfolding shift_down
record_failure diagnostic h =
    if h.failure_history_size == recovery_failure_history_capacity
    then record h {
      failure_history = set (shift_down h.failure_history) (h.failure_history_size - 1) diagnostic;
    }
    else record h {
      failure_history = set h.failure_history h.failure_history_size diagnostic;
      failure_history_size = h.failure_history_size + 1;
    }
