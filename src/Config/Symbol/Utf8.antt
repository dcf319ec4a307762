-- ===== src/Config/Symbol/Utf8.antt =====
-- Unicode scalar values and their UTF-8, an independent account of what a symbol may be.
use binance_market_data_gate.Base.{
  ℕ, zero, suc, ◌+◌, ◌-◌, ◌*◌, ◌/◌, ◌%◌, ◌≤◌, ◌<◌, ◌≡◌, refl, ap, ◌∙◌, ◌≢◌, ◌⊎◌, inl, inr, ◌↔◌,
  true, some, List, [], ◌∷◌, ◌++◌, ltb, if◌then◌else◌, length, length-append, All, arith,
  Option-cases, Bool-cases, ltb→lt,
}
use binance_market_data_gate.Config.Symbol.{next_scalar, scan, valid_symbol}

-- A Unicode scalar value that is no C0 control, blank or DEL.
pub record IsAllowed (c : ℕ) : Type 0 where
  pub printable : 0x20 < c
  pub not_del : c ≢ 0x7F
  pub in_range : c < 0x110000
  pub not_surrogate : (c < 0xD800) ⊎ (0xE000 ≤ c)

unfoldable pub encode : ℕ → List ℕ
encode c =
    if ltb c 0x80
    then c ∷ []
    else if ltb c 0x800
    then (0xC0 + c / 64) ∷ (0x80 + c % 64) ∷ []
    else if ltb c 0x10000
    then (0xE0 + c / 4096) ∷ (0x80 + c / 64 % 64) ∷ (0x80 + c % 64) ∷ []
    else (0xF0 + c / 262144) ∷ (0x80 + c / 4096 % 64) ∷ (0x80 + c / 64 % 64) ∷ (0x80 + c % 64) ∷ []

unfoldable pub encode_all : List ℕ → List ℕ
encode_all [] = []
encode_all (c ∷ cs) = encode c ++ encode_all cs

accepts_1 : (c : ℕ) (rest : List ℕ) → IsAllowed c → c < 0x80 → next_scalar c rest ≡ some rest
unfolding next_scalar
accepts_1 c rest a h = ground arith

accepts_2 :
    (c : ℕ) (rest : List ℕ)
    → IsAllowed c
    → 0x80 ≤ c
    → c < 0x800
    → next_scalar (0xC0 + c / 64) ((0x80 + c % 64) ∷ rest) ≡ some rest
unfolding next_scalar
accepts_2 c rest a l h = ground arith

accepts_3 :
    (c : ℕ) (rest : List ℕ)
    → IsAllowed c
    → 0x800 ≤ c
    → c < 0x10000
    → next_scalar (0xE0 + c / 4096) ((0x80 + c / 64 % 64) ∷ (0x80 + c % 64) ∷ rest) ≡ some rest
unfolding next_scalar
accepts_3 c rest a l h = ground arith

accepts_4 :
    (c : ℕ) (rest : List ℕ)
    → IsAllowed c
    → 0x10000 ≤ c
    → next_scalar
        (0xF0 + c / 262144)
        ((0x80 + c / 4096 % 64) ∷ (0x80 + c / 64 % 64) ∷ (0x80 + c % 64) ∷ rest)
      ≡ some rest
unfolding next_scalar
accepts_4 c rest a l = ground arith

-- Every scalar that may stand in a symbol is consumed by one round.
next_scalar-encode :
    (c : ℕ) (rest : List ℕ)
    → IsAllowed c
    → (lead : ℕ) × (tail : List ℕ) × (encode c ++ rest ≡ lead ∷ tail)
      × (next_scalar lead tail ≡ some rest)
unfolding encode
next_scalar-encode c rest a = elim (Bool-cases (ltb c 0x80)) [
  | inl e₁ ↦ rw e₁ (c, rest, refl, accepts_1 c rest a (ltb→lt _ _ e₁))
  | inr e₁ ↦ elim (Bool-cases (ltb c 0x800)) [
    | inl e₂ ↦ rw (e₁, e₂) (_, _, refl, accepts_2 c rest a (ground arith) (ltb→lt _ _ e₂))
    | inr e₂ ↦ elim (Bool-cases (ltb c 0x10000)) [
      | inl e₃ ↦ rw (e₁, e₂, e₃) (_, _, refl, accepts_3 c rest a (ground arith) (ltb→lt _ _ e₃))
      | inr e₃ ↦ rw (e₁, e₂, e₃) (_, _, refl, accepts_4 c rest a (ground arith))
    ]
  ]
]

-- What one round consumes, told by the code point.
abbrev Consumed : ℕ → List ℕ → List ℕ → Type 0
Consumed lead rest after = (c : ℕ) × IsAllowed c × (lead ∷ rest ≡ encode c ++ after)

one_byte-Consumed :
    (lead : ℕ) (rest after : List ℕ)
    → lead < 0x80
    → next_scalar lead rest ≡ some after
    → Consumed lead rest after
unfolding next_scalar encode
one_byte-Consumed lead rest after h e = (lead, ground arith, ground arith)

two_bytes-Consumed :
    (lead : ℕ) (rest after : List ℕ)
    → 0x80 ≤ lead
    → lead < 0xE0
    → next_scalar lead rest ≡ some after
    → Consumed lead rest after
unfolding next_scalar encode
two_bytes-Consumed lead [] after l h e = ground arith
two_bytes-Consumed lead (s ∷ rest) after l h e =
    ((lead - 0xC0) * 64 + (s - 0x80), ground arith, ground arith)

three_bytes-Consumed :
    (lead : ℕ) (rest after : List ℕ)
    → 0xE0 ≤ lead
    → lead < 0xF0
    → next_scalar lead rest ≡ some after
    → Consumed lead rest after
unfolding next_scalar encode
three_bytes-Consumed lead [] after l h e = ground arith
three_bytes-Consumed lead (s ∷ []) after l h e = ground arith
three_bytes-Consumed lead (s ∷ t ∷ rest) after l h e =
    ((lead - 0xE0) * 4096 + (s - 0x80) * 64 + (t - 0x80), ground arith, ground arith)

four_bytes-Consumed :
    (lead : ℕ) (rest after : List ℕ)
    → 0xF0 ≤ lead
    → next_scalar lead rest ≡ some after
    → Consumed lead rest after
unfolding next_scalar encode
four_bytes-Consumed lead [] after l e = ground arith
four_bytes-Consumed lead (s ∷ []) after l e = ground arith
four_bytes-Consumed lead (s ∷ t ∷ []) after l e = ground arith
four_bytes-Consumed lead (s ∷ t ∷ u ∷ rest) after l e = (
  (lead - 0xF0) * 262144 + (s - 0x80) * 4096 + (t - 0x80) * 64 + (u - 0x80),
  ground arith,
  ground arith,
)

next_scalar-Consumed :
    (lead : ℕ) (rest after : List ℕ) → next_scalar lead rest ≡ some after → Consumed lead rest after
next_scalar-Consumed lead rest after e = elim (Bool-cases (ltb lead 0x80)) [
  | inl h ↦ one_byte-Consumed lead rest after (ltb→lt _ _ h) e
  | inr h₁ ↦ elim (Bool-cases (ltb lead 0xE0)) [
    | inl h ↦ two_bytes-Consumed lead rest after (ground arith) (ltb→lt _ _ h) e
    | inr h₂ ↦ elim (Bool-cases (ltb lead 0xF0)) [
      | inl h ↦ three_bytes-Consumed lead rest after (ground arith) (ltb→lt _ _ h) e
      | inr h₃ ↦ four_bytes-Consumed lead rest after (ground arith) e
    ]
  ]
]

encode-length : (c : ℕ) → 0 < length (encode c)
unfolding encode
encode-length c = ground arith

-- A text that the loop accepts is a sequence of allowed scalars.
scan_sound :
    (fuel : ℕ) (value : List ℕ)
    → scan fuel value ≡ true
    → (cs : List ℕ) × All IsAllowed cs × (value ≡ encode_all cs)
unfolding scan encode_all
scan_sound fuel [] e = ([], tt, refl)
scan_sound zero (lead ∷ rest) e = ground arith
scan_sound (suc fuel) (lead ∷ rest) e = elim (Option-cases (next_scalar lead rest)) [
  | inl n ↦ ground arith
  | inr (after, n) ↦
      let (c, a, e₁) = next_scalar-Consumed lead rest after n in
      let (cs, all, e₂) = scan_sound fuel after (rw (n, scan) at e) in
      (c ∷ cs, (a, all), e₁ ∙ ap (λ (r : List ℕ). encode c ++ r) e₂)
]

scan-step :
    (fuel lead : ℕ) (tail rest text : List ℕ)
    → text ≡ lead ∷ tail
    → next_scalar lead tail ≡ some rest
    → length text ≤ suc fuel
    → (scan fuel rest ≡ true)
    → scan (suc fuel) text ≡ true
unfolding scan
scan-step fuel lead tail rest text e n h k = rw (e, n, scan) k

-- Allowed scalars are accepted, given a round of fuel for each byte.
scan_complete :
    (fuel : ℕ) (cs : List ℕ)
    → All IsAllowed cs
    → length (encode_all cs) ≤ fuel
    → scan fuel (encode_all cs) ≡ true
unfolding encode_all
scan_complete fuel [] a h = unfold scan in refl
scan_complete zero (c ∷ cs) a h =
    absurd (omega (arith, length-append (encode c) (encode_all cs), encode-length c))
scan_complete (suc fuel) (c ∷ cs) a h =
    let (lead, tail, e, n) = next_scalar-encode c (encode_all cs) a.0 in
    scan-step fuel lead tail (encode_all cs) (encode c ++ encode_all cs) e n h (
      scan_complete fuel cs a.1
        (omega (arith, length-append (encode c) (encode_all cs), encode-length c)))

abbrev pub IsSymbolText : List ℕ → Type 0
IsSymbolText value = (cs : List ℕ) × (cs ≢ []) × All IsAllowed cs × (value ≡ encode_all cs)

valid_symbol_sound : (value : List ℕ) → valid_symbol value ≡ true → IsSymbolText value
unfolding valid_symbol encode_all
valid_symbol_sound [] e = ground arith
valid_symbol_sound (lead ∷ rest) e =
    let (cs, all, p) = scan_sound (length (lead ∷ rest)) (lead ∷ rest) e in
    (cs, (λ n. ground (arith, ap encode_all n)), all, p)

encode_all-length : (cs : List ℕ) → cs ≢ [] → 0 < length (encode_all cs)
unfolding encode_all
encode_all-length [] h = absurd (h refl)
encode_all-length (c ∷ cs) h =
    omega (arith, length-append (encode c) (encode_all cs), encode-length c)

valid_symbol_complete : (value : List ℕ) → IsSymbolText value → valid_symbol value ≡ true
unfolding valid_symbol
valid_symbol_complete [] (cs, h, all, p) =
    absurd (omega (arith, encode_all-length cs h, ap length p))
valid_symbol_complete (lead ∷ rest) (cs, h, all, p) =
    rw p (scan_complete (length (lead ∷ rest)) cs all (omega (arith, ap length p)))

-- A symbol is valid exactly when it is a non-empty sequence of Unicode scalars in strict UTF-8, none
-- of them a C0 control, a blank or DEL.
pub valid_symbol_iff : (value : List ℕ) → (valid_symbol value ≡ true) ↔ IsSymbolText value
valid_symbol_iff value = (valid_symbol_sound value, valid_symbol_complete value)
