-- ===== src/Lifecycle/Tests.antt =====
-- A lifecycle on concrete calls.
use binance_market_data_gate.Base.{◌≡◌, ◌⊎◌, [], ◌∷◌}
use binance_market_data_gate.Config.Types.{binance, spot, ValidatedGatewayConfig}
use binance_market_data_gate.Lifecycle.{running, stopped, foundation, starts, stops, run}
use binance_market_data_gate.Lifecycle.Histories.{entries, run-entries}

abbrev config : ValidatedGatewayConfig
config = record {
  value = record {
    venue = binance;
    market = spot;
    symbol = b'B' ∷ [];
    grpc_listen = record { host = b'h' ∷ []; port = 80 };
    queue_capacity = 64;
  };
}

run-entries_example :
    ((entries (run (foundation config) (stops ∷ starts ∷ starts ∷ stops ∷ starts ∷ [])).0 ≡ [])
      ⊎ (entries (run (foundation config) (stops ∷ starts ∷ starts ∷ stops ∷ starts ∷ [])).0
          ≡ running ∷ [])
      ⊎ (entries (run (foundation config) (stops ∷ starts ∷ starts ∷ stops ∷ starts ∷ [])).0
          ≡ running ∷ stopped ∷ []))
    × ((run (foundation config) (stops ∷ starts ∷ starts ∷ stops ∷ starts ∷ [])).1.config
        ≡ config.value)
run-entries_example = run-entries config (stops ∷ starts ∷ starts ∷ stops ∷ starts ∷ [])
