-- ===== src/Config/Symbol.antt =====
-- `valid_symbol` of src/config.cpp. The list is `value[offset..)`, as bytes.
pub mod Utf8
use binance_market_data_gate.Base.{
  ℕ, zero, suc, ◌≤◌, ◌<◌, Bool, true, false, ◌&&◌, ◌||◌, not, Option, none, some, List, [], ◌∷◌,
  ltb, leb, ◌==◌, if◌then◌else◌, length,
}

unfoldable pub is_continuation : ℕ → Bool
is_continuation byte = leb 0x80 byte && leb byte 0xBF

-- The branch of each lead byte: the bytes behind the scalar, or `none` for `return false`.
one_byte : ℕ → List ℕ → Option (List ℕ)
one_byte lead rest = if leb lead 0x20 || lead == 0x7F then none else some rest

two_bytes : List ℕ → Option (List ℕ)
two_bytes (second ∷ rest) = if not (is_continuation second) then none else some rest
two_bytes [] = none

three_bytes : ℕ → List ℕ → Option (List ℕ)
three_bytes lead (second ∷ third ∷ rest) =
    if not (is_continuation third)
      || (lead == 0xE0 && ltb second 0xA0)
      || (lead == 0xED && leb 0xA0 second)
      || not (is_continuation second)
    then none
    else some rest
three_bytes lead (second ∷ []) = none
three_bytes lead [] = none

four_bytes : ℕ → List ℕ → Option (List ℕ)
four_bytes lead (second ∷ third ∷ fourth ∷ rest) =
    if not (is_continuation third)
      || not (is_continuation fourth)
      || (lead == 0xF0 && ltb second 0x90)
      || (lead == 0xF4 && ltb 0x8F second)
      || not (is_continuation second)
    then none
    else some rest
four_bytes lead (second ∷ third ∷ []) = none
four_bytes lead (second ∷ []) = none
four_bytes lead [] = none

-- One round of the loop at a lead byte.
unfoldable pub next_scalar : ℕ → List ℕ → Option (List ℕ)
unfolding is_continuation one_byte two_bytes three_bytes four_bytes
next_scalar lead rest =
    if leb lead 0x7F
    then one_byte lead rest
    else if leb 0xC2 lead && leb lead 0xDF
    then two_bytes rest
    else if leb 0xE0 lead && leb lead 0xEF
    then three_bytes lead rest
    else if leb 0xF0 lead && leb lead 0xF4
    then four_bytes lead rest
    else none

-- The loop, with fuel. Every round consumes a byte.
unfoldable pub scan : ℕ → List ℕ → Bool
scan fuel [] = true
scan zero (lead ∷ rest) = false
scan (suc fuel) (lead ∷ rest) = elim (next_scalar lead rest) [
  | none ↦ false
  | some rest' ↦ scan fuel rest'
]

unfoldable pub valid_symbol : List ℕ → Bool
unfolding scan
valid_symbol [] = false
valid_symbol (lead ∷ rest) = scan (length (lead ∷ rest)) (lead ∷ rest)
