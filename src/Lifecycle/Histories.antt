-- ===== src/Lifecycle/Histories.antt =====
-- What holds of the lifecycle over every sequence of calls.
use binance_market_data_gate.Base.{◌≡◌, refl, ◌⊎◌, inl, List, [], ◌∷◌, arith}
use binance_market_data_gate.Config.Types.{ValidatedGatewayConfig}
use binance_market_data_gate.Lifecycle.{
  LifecycleState, constructed, running, stopped, LifecycleResult, entered, failed, Foundation,
  foundation, start, stop, LifecycleCall, starts, stops, run,
}

-- The states entered by the calls that succeed.
abbrev pub entries : List LifecycleResult → List LifecycleState
entries [] = []
entries (entered s ∷ rs) = s ∷ entries rs
entries (failed e ∷ rs) = entries rs

-- The states still ahead.
abbrev IsAhead : LifecycleState → List LifecycleState → Type 0
IsAhead constructed l = (l ≡ []) ⊎ (l ≡ running ∷ []) ⊎ (l ≡ running ∷ stopped ∷ [])
IsAhead running l = (l ≡ []) ⊎ (l ≡ stopped ∷ [])
IsAhead stopped l = l ≡ []

run-IsAhead :
    (s : LifecycleState) (f : Foundation) (cs : List LifecycleCall)
    → f.state ≡ s
    → IsAhead s (entries (run f cs).0) × ((run f cs).1.config ≡ f.config)
unfolding run start stop
run-IsAhead constructed f [] e = (inl refl, refl)
run-IsAhead running f [] e = (inl refl, refl)
run-IsAhead stopped f [] e = (refl, refl)
run-IsAhead constructed f (starts ∷ cs) e =
    ground (arith, run-IsAhead running (record f { state = running }) cs)
run-IsAhead running f (starts ∷ cs) e = ground (arith, run-IsAhead running f cs)
run-IsAhead stopped f (starts ∷ cs) e = ground (arith, run-IsAhead stopped f cs)
run-IsAhead constructed f (stops ∷ cs) e = ground (arith, run-IsAhead constructed f cs)
run-IsAhead running f (stops ∷ cs) e =
    ground (arith, run-IsAhead stopped (record f { state = stopped }) cs)
run-IsAhead stopped f (stops ∷ cs) e = ground (arith, run-IsAhead stopped f cs)

-- Whatever a client calls on a new object, the states that it enters are none, or running, or running
-- and then stopped; and its configuration stays the one that it was given.
pub run-entries :
    (config : ValidatedGatewayConfig) (cs : List LifecycleCall)
    → ((entries (run (foundation config) cs).0 ≡ [])
        ⊎ (entries (run (foundation config) cs).0 ≡ running ∷ [])
        ⊎ (entries (run (foundation config) cs).0 ≡ running ∷ stopped ∷ []))
      × ((run (foundation config) cs).1.config ≡ config.value)
unfolding foundation
run-entries config cs = run-IsAhead constructed (foundation config) cs refl
