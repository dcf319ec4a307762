-- ===== src/Registry/Tests.antt =====
-- A registry of two products.
use mathlib.Core.List.{Mem}
use binance_market_data_gate.Base.{◌≡◌, refl, ◌↔◌, none, some, [], ◌∷◌}
use binance_market_data_gate.Registry.{
  MarketServices, key_eq, key_less, bytes_eq, bytes_less, insert, sort, check_entries, repeats_key,
  has_services, is_aliased, market_runtime_registry, find_services,
}
use binance_market_data_gate.Registry.Lookup.{find_services_iff}

abbrev spot_services : MarketServices
spot_services = record {
  key = record { venue = 1; market = 1; symbol = b'B' ∷ [] };
  runtime = some 1;
  recovery = some 2;
  event_publication = some 3;
}

abbrev usdm_services : MarketServices
usdm_services = record {
  key = record { venue = 1; market = 2; symbol = b'B' ∷ [] };
  runtime = some 4;
  recovery = some 5;
  event_publication = some 6;
}

two_products :
    market_runtime_registry (usdm_services ∷ spot_services ∷ [])
    ≡ some (spot_services ∷ usdm_services ∷ [])
unfolding market_runtime_registry sort insert key_less check_entries repeats_key key_eq bytes_eq
    has_services is_aliased
two_products = refl

repeated_key : market_runtime_registry (spot_services ∷ spot_services ∷ []) ≡ none
unfolding market_runtime_registry sort insert key_less check_entries repeats_key key_eq bytes_eq
    bytes_less has_services is_aliased
repeated_key = refl

find_services_iff_example :
    (find_services usdm_services.key (spot_services ∷ usdm_services ∷ []) ≡ some usdm_services) ↔ (
      Mem usdm_services (usdm_services ∷ spot_services ∷ [])
      × (usdm_services.key ≡ usdm_services.key))
find_services_iff_example =
    find_services_iff (usdm_services ∷ spot_services ∷ []) (spot_services ∷ usdm_services ∷ [])
      two_products usdm_services.key usdm_services
