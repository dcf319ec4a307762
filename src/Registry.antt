-- ===== src/Registry.antt =====
-- The registry of configured products: src/g11/market_key.hpp and src/g11/market_registry.cpp. A raw
-- pointer is its address, or `none` if it is null.
pub mod Order
pub mod Lookup
mod Tests
use binance_market_data_gate.Base.{
  ℕ, Bool, true, false, not, ◌&&◌, ◌||◌, Option, none, some, List, [], ◌∷◌, ltb, ◌==◌,
  if◌then◌else◌, optional_eq, has_value, length, is_empty,
}

-- The enumerators of the protobuf enumerations are their numbers; the symbol is its bytes.
pub record MarketKey : Type 0 where
  pub venue : ℕ
  pub market : ℕ
  pub symbol : List ℕ

unfoldable pub bytes_eq : List ℕ → List ℕ → Bool
bytes_eq [] [] = true
bytes_eq (a ∷ l) (b ∷ r) = a == b && bytes_eq l r
bytes_eq [] (b ∷ r) = false
bytes_eq (a ∷ l) [] = false

-- `std::lexicographical_compare` of unsigned bytes.
unfoldable pub bytes_less : List ℕ → List ℕ → Bool
bytes_less [] [] = false
bytes_less [] (b ∷ r) = true
bytes_less (a ∷ l) [] = false
bytes_less (a ∷ l) (b ∷ r) =
    let rest = bytes_less l r in if ltb a b then true else if ltb b a then false else rest

-- The defaulted `operator==`.
unfoldable pub key_eq : MarketKey → MarketKey → Bool
key_eq l r = l.venue == r.venue && l.market == r.market && bytes_eq l.symbol r.symbol

-- `MarketKeyLess`.
unfoldable pub key_less : MarketKey → MarketKey → Bool
key_less l r =
    if not (l.venue == r.venue)
    then ltb l.venue r.venue
    else if not (l.market == r.market)
    then ltb l.market r.market
    else bytes_less l.symbol r.symbol

pub record MarketServices : Type 0 where
  pub key : MarketKey
  pub runtime : Option ℕ
  pub recovery : Option ℕ
  pub event_publication : Option ℕ

abbrev pub maximum_configured_products : ℕ
maximum_configured_products = 8

-- `std::sort`. Entries with equal keys may come in any order; the constructor then throws.
unfoldable pub insert : MarketServices → List MarketServices → List MarketServices
insert e [] = e ∷ []
insert e (x ∷ xs) = let rest = insert e xs in if key_less e.key x.key then e ∷ x ∷ xs else x ∷ rest

unfoldable pub sort : List MarketServices → List MarketServices
sort [] = []
sort (e ∷ es) = insert e (sort es)

unfoldable pub is_aliased : MarketServices → List MarketServices → Bool
is_aliased e [] = false
is_aliased e (x ∷ xs) =
    optional_eq x.runtime e.runtime
    || optional_eq x.recovery e.recovery
    || optional_eq x.event_publication e.event_publication
    || is_aliased e xs

unfoldable pub repeats_key : MarketServices → List MarketServices → Bool
repeats_key e [] = false
repeats_key e (previous ∷ xs) = key_eq previous.key e.key

unfoldable pub has_services : MarketServices → Bool
has_services e = has_value e.runtime && has_value e.recovery && has_value e.event_publication

-- The loop of the constructor over the entries from an index on; those before it come last first.
unfoldable pub check_entries : List MarketServices → List MarketServices → Bool
check_entries earlier [] = true
check_entries earlier (e ∷ es) =
    let rest = check_entries (e ∷ earlier) es in
    if repeats_key e earlier
    then false
    else if not (has_services e)
    then false
    else if is_aliased e earlier
    then false
    else rest

-- The constructor; `none` is `std::invalid_argument`.
unfoldable pub market_runtime_registry : List MarketServices → Option (List MarketServices)
market_runtime_registry entries =
    if is_empty entries || ltb maximum_configured_products (length entries)
    then none
    else if check_entries [] (sort entries)
    then some (sort entries)
    else none

-- `find`; `none` is `nullptr`.
unfoldable pub find_services : MarketKey → List MarketServices → Option MarketServices
find_services key [] = none
find_services key (e ∷ es) =
    let rest = find_services key es in if key_eq e.key key then some e else rest
