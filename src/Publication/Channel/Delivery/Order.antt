-- ===== src/Publication/Channel/Delivery/Order.antt =====
-- The order in which a session's records reach the client.
use binance_market_data_gate.Base.{
  ℕ, suc, ◌≡◌, refl, ap, ◌∙◌, ◌≢◌, ◌⊎◌, inl, inr, true, false, Option, none, some, List, [], ◌∷◌,
  ◌++◌, Bool-cases, Option-cases, ◌==◌, ==_refl, optional_eq_refl, arith,
}
use binance_market_data_gate.Publication.Ring.Queue.{front-Holds}
use binance_market_data_gate.Publication.Shared.{Shared, reason_eq_refl, action_eq_refl}
use binance_market_data_gate.Publication.Channel.Types.{
  PublicationRecord, TerminalDescriptor, descriptor_eq, SubscriberState, active, terminal_gap,
  closed, is_active, is_closed, mismatch, PeekedPublication, SubscriberChannel,
}
use binance_market_data_gate.Publication.Channel.Writer.{nothing_peeked, peek, acknowledge}
use binance_market_data_gate.Publication.Channel.Invariant.{EndsAt, IsChannel}
use binance_market_data_gate.Publication.Channel.Delivery.{
  OwnerCall, Event, owner, turn, owner_call, owner_calls, numbers, acknowledge_turn, deliver,
}
use binance_market_data_gate.Publication.Channel.Delivery.Turns.{
  owner_call-Extends, owner_calls-Extends, owner_calls-Settled, Turned, closed_ends, head_number,
  acknowledge_ordinary,
}

pub descriptor_eq_refl : (t : TerminalDescriptor) → descriptor_eq t t ≡ true
unfolding descriptor_eq
descriptor_eq_refl t = rw (
  ==_refl t.session_sequence,
  optional_eq_refl t.connection_generation,
  ==_refl t.published_at.utc_ns,
  optional_eq_refl t.published_at.monotonic_ns,
  reason_eq_refl t.reason,
  action_eq_refl t.recovery_action,
)

-- A terminal in its slot means that the channel is not active, and bears the next number.
terminal_view :
    (Snapshot Update : Type 0) (first : ℕ) (s : SubscriberState) (o : Option TerminalDescriptor)
    (t : TerminalDescriptor) (next : ℕ)
    → EndsAt {Snapshot = Snapshot} {Update = Update} s o next first []
    → o ≡ some t
    → is_closed s ≡ false
    → (is_active s ≡ false) × (t.session_sequence ≡ first)
terminal_view S U first active none t next e h k = ground arith
terminal_view S U first active (some u) t next e h k = absurd e
terminal_view S U first terminal_gap none t next e h k = absurd e
terminal_view S U first terminal_gap (some u) t next e h k = ground arith
terminal_view S U first closed o t next e h k = ground arith

module _ {Snapshot Update : Type 0} where
  acknowledge_nothing :
      (c : SubscriberChannel Snapshot Update) → (acknowledge nothing_peeked c).1 ≡ c
  unfolding acknowledge
  acknowledge_nothing c = ground arith

  peek_closed :
      (c : SubscriberChannel Snapshot Update) → is_closed c.state ≡ true → peek c ≡ nothing_peeked
  unfolding peek
  peek_closed c e = rw e

  pub peek_ordinary :
      {first : ℕ} {q : List (Shared (PublicationRecord Snapshot Update))}
      (item : Shared (PublicationRecord Snapshot Update)) (c : SubscriberChannel Snapshot Update)
      → IsChannel first (item ∷ q) c
      → is_closed c.state ≡ false
      → peek c ≡ record { ordinary = some item; terminal = none }
  unfolding peek
  peek_ordinary item c v e =
      let busy : (c.ordinary_ring.size == 0) ≡ false = ground (arith, v.holds.size_eq) in
      rw (e, busy, front-Holds item v.holds)

  pub peek_empty :
      {first : ℕ} (c : SubscriberChannel Snapshot Update)
      → IsChannel first [] c
      → is_closed c.state ≡ false
      → peek c ≡ record { ordinary = none; terminal = c.terminal }
  unfolding peek
  peek_empty c v e =
      let idle : (c.ordinary_ring.size == 0) ≡ true = ground (arith, v.holds.size_eq) in
      rw (e, idle) (ground arith)

  acknowledge_terminal :
      {first : ℕ} (c c' : SubscriberChannel Snapshot Update) (t : TerminalDescriptor)
      → IsChannel first [] c
      → c.terminal ≡ some t
      → (c' ≡ c) ⊎ (c' ≡ record c { state = closed })
      → let (result, c'') = acknowledge (record { ordinary = none; terminal = some t }) c' in
        (result ≢ mismatch) × IsChannel (suc first) [] c''
  unfolding acknowledge
  acknowledge_terminal {first} c c' t v h (inr shut) =
      rw (shut, acknowledge) ((λ e. ground arith), record { holds = v.holds; ends = tt })
  acknowledge_terminal {first} c c' t v h (inl same) = elim (Bool-cases (is_closed c.state)) [
    | inl e ↦
        rw (same, acknowledge, e)
          (
            (λ m. ground arith),
            record {
              holds = v.holds;
              ends = closed_ends first (suc first) [] c.state c.terminal c.next_session_sequence e;
            },
          )
    | inr e ↦
        let idle : (c.ordinary_ring.size == 0) ≡ true = ground (arith, v.holds.size_eq) in
        rw (same, acknowledge, e, idle, h, descriptor_eq_refl t)
          ((λ m. ground arith), record { holds = v.holds; ends = tt })
  ]

  empty_turn :
      {first : ℕ} (between : List (OwnerCall Update)) (c : SubscriberChannel Snapshot Update)
      → IsChannel first [] c
      → is_closed c.state ≡ false
      → Turned first (numbers (peek c)) (acknowledge_turn between c)
  unfolding acknowledge_turn numbers
  empty_turn {first} between c v e = elim (Option-cases c.terminal) [
    | inl n ↦
        let seen : peek c ≡ nothing_peeked = peek_empty c v e ∙ at_terminal n in
        rw (seen, acknowledge_nothing (owner_calls between c))
          (inl (refl, owner_calls-Extends between [] c v))
    | inr (t, h) ↦
        let seen : peek c ≡ record { ordinary = none; terminal = some t } =
          peek_empty c v e ∙ at_terminal h in
        let (quiet, number) =
          terminal_view Snapshot Update first c.state c.terminal t c.next_session_sequence v.ends h
            e in
        let (ok, kept) =
          acknowledge_terminal c (owner_calls between c) t v h
            (owner_calls-Settled between c quiet) in
        rw seen (inr (ap (λ n. n ∷ []) number, ok, ([], kept)))
  ]
    where
      at_terminal :
          {t : Option TerminalDescriptor}
          → c.terminal ≡ t
          → ◌≡◌ {A = PeekedPublication Snapshot Update}
              (record { ordinary = none; terminal = c.terminal })
              (record { ordinary = none; terminal = t })
      at_terminal h = ap (λ o. record { ordinary = none; terminal = o }) h

  open_turn :
      {first : ℕ} (q : List (Shared (PublicationRecord Snapshot Update)))
      (between : List (OwnerCall Update)) (c : SubscriberChannel Snapshot Update)
      → IsChannel first q c
      → is_closed c.state ≡ false
      → Turned first (numbers (peek c)) (acknowledge_turn between c)
  unfolding acknowledge_turn numbers
  open_turn [] between c v e = empty_turn between c v e
  open_turn {first} (item ∷ q) between c v e =
      let (extra, w) = owner_calls-Extends between (item ∷ q) c v in
      let (ok, kept) = acknowledge_ordinary item (owner_calls between c) w in
      let number = head_number first item q c.state c.terminal c.next_session_sequence v.ends e in
      rw (peek_ordinary item c v e) (inr (ap (λ n. n ∷ []) number, ok, kept))

  -- A turn writes nothing, or the next number; what it wrote is acknowledged.
  pub turn-Turned :
      {first : ℕ} (q : List (Shared (PublicationRecord Snapshot Update)))
      (between : List (OwnerCall Update)) (c : SubscriberChannel Snapshot Update)
      → IsChannel first q c
      → Turned first (numbers (peek c)) (acknowledge_turn between c)
  unfolding acknowledge_turn numbers
  turn-Turned {first} q between c v = elim (Bool-cases (is_closed c.state)) [
    | inl e ↦
        let (extra, w) = owner_calls-Extends between q c v in
        rw (peek_closed c e, acknowledge_nothing (owner_calls between c))
          (inl (refl, (q ++ extra, w)))
    | inr e ↦ open_turn q between c v e
  ]

-- `n`, `n + 1`, and so on.
abbrev pub Consecutive : ℕ → List ℕ → Type 0
Consecutive n [] = Unit
Consecutive n (m ∷ ms) = (m ≡ n) × Consecutive (suc n) ms

module _ {Snapshot Update : Type 0} where
  pub deliver-Consecutive :
      (es : List (Event Update)) (first : ℕ) (q : List (Shared (PublicationRecord Snapshot Update)))
      (c : SubscriberChannel Snapshot Update)
      → IsChannel first q c
      → Consecutive first (deliver c es).0
  unfolding deliver
  deliver-Consecutive [] first q c v = tt
  deliver-Consecutive (owner o ∷ es) first q c v =
      let (extra, w) = owner_call-Extends o c v in
      deliver-Consecutive es first (q ++ extra) (owner_call o c) w
  deliver-Consecutive (turn between ∷ es) first q c v = elim (turn-Turned q between c v) [
    | inl (silent, (q', w)) ↦ rw silent (deliver-Consecutive es first q' _ w)
    | inr (wrote, ok, (q', w)) ↦ rw wrote (refl, deliver-Consecutive es (suc first) q' _ w)
  ]
