-- ===== src/Lifecycle.antt =====
-- The lifecycle seam: src/lifecycle.cpp and include/binance_market_data/gateway/v1/lifecycle.hpp.
-- A method that mutates the object returns its result and the new object.
mod Tests
pub mod Histories
use binance_market_data_gate.Base.{ℕ, List, [], ◌∷◌}
use binance_market_data_gate.Config.Types.{GatewayConfig, ValidatedGatewayConfig}

pub data LifecycleState : Type 0 where
  constructed running stopped : LifecycleState

pub data LifecycleErrorCode : Type 0 where
  already_running already_stopped not_running : LifecycleErrorCode

pub record LifecycleError : Type 0 where
  pub code : LifecycleErrorCode
  pub state : LifecycleState

pub data LifecycleResult : Type 0 where
  entered : LifecycleState → LifecycleResult
  failed : LifecycleError → LifecycleResult

pub record Foundation : Type 0 where
  pub config : GatewayConfig
  pub state : LifecycleState

-- The constructor.
unfoldable pub foundation : ValidatedGatewayConfig → Foundation
foundation config = record { config = config.value; state = constructed }

start_from : LifecycleState → Foundation → LifecycleResult × Foundation
start_from running f = (failed (record { code = already_running; state = f.state }), f)
start_from stopped f = (failed (record { code = already_stopped; state = f.state }), f)
start_from constructed f = (entered running, record f { state = running })

unfoldable pub start : Foundation → LifecycleResult × Foundation
unfolding start_from
start f = start_from f.state f

stop_from : LifecycleState → Foundation → LifecycleResult × Foundation
stop_from constructed f = (failed (record { code = not_running; state = f.state }), f)
stop_from stopped f = (failed (record { code = already_stopped; state = f.state }), f)
stop_from running f = (entered stopped, record f { state = stopped })

unfoldable pub stop : Foundation → LifecycleResult × Foundation
unfolding stop_from
stop f = stop_from f.state f

pub data LifecycleCall : Type 0 where
  starts stops : LifecycleCall

abbrev pub invoke : LifecycleCall → Foundation → LifecycleResult × Foundation
invoke starts f = start f
invoke stops f = stop f

-- A client's calls in order, with what each returns.
unfoldable pub run : Foundation → List LifecycleCall → List LifecycleResult × Foundation
run f [] = ([], f)
run f (c ∷ cs) = let (r, f') = invoke c f in let (rs, f'') = run f' cs in (r ∷ rs, f'')
