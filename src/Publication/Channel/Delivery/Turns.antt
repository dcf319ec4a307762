-- ===== src/Publication/Channel/Delivery/Turns.antt =====
-- What one turn of the handler does, whatever the owner does meanwhile.
use binance_market_data_gate.Base.{
  ℕ, suc, ◌<◌, ◌≡◌, refl, ◌≢◌, ◌⊎◌, inl, inr, true, false, Option, none, some, List, [], ◌∷◌, ◌++◌,
  append-nil, append_assoc, length, Bool-cases, Option-cases, ◌==◌, ==_refl, ltb, ltb→lt, arith,
}
use binance_market_data_gate.Base.Words.{u64_max}
use binance_market_data_gate.Publication.Ring.Queue.{ring_pop-Holds, front-Holds}
use binance_market_data_gate.Publication.Shared.{Shared, PublicationTime}
use binance_market_data_gate.Publication.Channel.Types.{
  PublicationRecord, TerminalDescriptor, SubscriberState, active, terminal_gap, closed, is_active,
  is_closed, AcknowledgeResult, mismatch, SubscriberChannel,
}
use binance_market_data_gate.Publication.Channel.Owner.{admit_update, terminalize, close_from_owner}
use binance_market_data_gate.Publication.Channel.Writer.{acknowledge}
use binance_market_data_gate.Publication.Channel.Invariant.{
  EndsAt, IsChannel, active_view, close_from_owner-IsChannel, terminalize-IsChannel,
  admit_update-inactive, admit_update-full, admit_update-admitted, admit_update-failed,
}
use binance_market_data_gate.Publication.Channel.Delivery.{
  OwnerCall, admits, terminalizes, closes, owner_call, owner_calls,
}

module _ {Snapshot Update : Type 0} where
  -- The queue after a call: the old one, and what was added.
  abbrev pub Extends :
      ℕ
      → List (Shared (PublicationRecord Snapshot Update))
      → SubscriberChannel Snapshot Update
      → Type 0
  Extends first q c =
      (extra : List (Shared (PublicationRecord Snapshot Update))) × IsChannel first (q ++ extra) c

  same_queue :
      {first : ℕ} {q : List (Shared (PublicationRecord Snapshot Update))}
      {c : SubscriberChannel Snapshot Update}
      → IsChannel first q c
      → Extends first q c
  same_queue v = ([], rw append-nil v)

  module _ {first : ℕ} {q : List (Shared (PublicationRecord Snapshot Update))}
      (c : SubscriberChannel Snapshot Update) (v : IsChannel first q c)
      (allocated generation : Option ℕ) (update : Update) (at : PublicationTime) where
    room-Extends :
        is_active c.state ≡ true
        → length q < c.ordinary_capacity
        → (address : ℕ) → allocated ≡ some address
        → Extends first q (admit_update allocated update generation at c).1
    room-Extends e room address a = elim (Bool-cases (ltb c.next_session_sequence u64_max)) [
      | inl b ↦ (
        _,
        (admit_update-admitted c v allocated generation update at address a e room
            (ltb→lt _ _ b)).1,
      )
      | inr b ↦
          let (_, _, le) = active_view c v e in
          let spent : c.next_session_sequence ≡ u64_max = ground arith in
          let failed = admit_update-failed c v allocated generation update at e room (inr spent) in
          rw failed (same_queue v)
    ]

    admits-Extends : Extends first q (admit_update allocated update generation at c).1
    admits-Extends = elim (Bool-cases (is_active c.state)) [
      | inr e ↦
          let same = admit_update-inactive c v allocated generation update at e in
          rw same (same_queue v)
      | inl e ↦ elim (Bool-cases (ltb (length q) c.ordinary_capacity)) [
        | inr full ↦
            let h : length q ≡ c.ordinary_capacity = ground (arith, v.holds.size_in) in
            same_queue (admit_update-full c v allocated generation update at e h).1
        | inl room ↦ elim (Option-cases allocated) [
          | inl n ↦
              let failed =
                admit_update-failed c v allocated generation update at e (ltb→lt _ _ room)
                  (inl n) in
              rw failed (same_queue v)
          | inr (address, a) ↦ room-Extends e (ltb→lt _ _ room) address a
        ]
      ]
    ]

  pub owner_call-Extends :
      {first : ℕ} {q : List (Shared (PublicationRecord Snapshot Update))} (o : OwnerCall Update)
      (c : SubscriberChannel Snapshot Update)
      → IsChannel first q c
      → Extends first q (owner_call o c)
  unfolding owner_call
  owner_call-Extends (admits allocated update generation at) c v =
      admits-Extends c v allocated generation update at
  owner_call-Extends (terminalizes reason action generation at) c v =
      same_queue (terminalize-IsChannel c reason action generation at v)
  owner_call-Extends closes c v = same_queue (close_from_owner-IsChannel v)

  -- Whatever the owner calls, the queue only grows at its end.
  pub owner_calls-Extends :
      {first : ℕ} (os : List (OwnerCall Update))
      (q : List (Shared (PublicationRecord Snapshot Update)))
      (c : SubscriberChannel Snapshot Update)
      → IsChannel first q c
      → Extends first q (owner_calls os c)
  unfolding owner_calls
  owner_calls-Extends [] q c v = same_queue v
  owner_calls-Extends (o ∷ os) q c v =
      let (extra, w) = owner_call-Extends o c v in
      let (more, u) = owner_calls-Extends os (q ++ extra) (owner_call o c) w in
      (extra ++ more, rw append_assoc at u)

  -- A channel that is not active stays as it is, or is closed.
  abbrev pub Settled :
      SubscriberChannel Snapshot Update → SubscriberChannel Snapshot Update → Type 0
  Settled c c' = (c' ≡ c) ⊎ (c' ≡ record c { state = closed })

  owner_call-Settled :
      (o : OwnerCall Update) (c : SubscriberChannel Snapshot Update)
      → is_active c.state ≡ false
      → Settled c (owner_call o c)
  unfolding owner_call admit_update terminalize close_from_owner
  owner_call-Settled (admits allocated update generation at) c e =
      inl (rw (e, owner_call, admit_update))
  owner_call-Settled (terminalizes reason action generation at) c e =
      inl (rw (e, owner_call, terminalize))
  owner_call-Settled closes c e = inr refl

  pub owner_calls-Settled :
      (os : List (OwnerCall Update)) (c : SubscriberChannel Snapshot Update)
      → is_active c.state ≡ false
      → Settled c (owner_calls os c)
  unfolding owner_calls
  owner_calls-Settled [] c e = inl refl
  owner_calls-Settled (o ∷ os) c e = elim (owner_call-Settled o c e) [
    | inl same ↦ rw same (owner_calls-Settled os c e)
    | inr shut ↦ rw shut (elim (owner_calls-Settled os (record c { state = closed }) refl) [
      | inl same ↦ inr same
      | inr again ↦ inr again
    ])
  ]

  -- What a turn writes is nothing, or the next number, and then the handler's call succeeds.
  abbrev pub Turned : ℕ → List ℕ → AcknowledgeResult × SubscriberChannel Snapshot Update → Type 0
  Turned first written (result, c) =
      ((written ≡ [])
        × ((q : List (Shared (PublicationRecord Snapshot Update))) × IsChannel first q c))
      ⊎ ((written ≡ first ∷ [])
          × (result ≢ mismatch)
          × ((q : List (Shared (PublicationRecord Snapshot Update))) × IsChannel (suc first) q c))

  -- A closed channel keeps its queue, whatever the numbers.
  pub closed_ends :
      (first n : ℕ) (q : List (Shared (PublicationRecord Snapshot Update))) (s : SubscriberState)
      (t : Option TerminalDescriptor) (next : ℕ)
      → is_closed s ≡ true
      → EndsAt s t next n q
  closed_ends first n q active t next e = ground arith
  closed_ends first n q terminal_gap t next e = ground arith
  closed_ends first n q closed t next e = tt

  pub popped_ends :
      (first : ℕ) (item : Shared (PublicationRecord Snapshot Update))
      (q : List (Shared (PublicationRecord Snapshot Update))) (s : SubscriberState)
      (t : Option TerminalDescriptor) (next : ℕ)
      → EndsAt s t next first (item ∷ q)
      → EndsAt s t next (suc first) q
  popped_ends first item q active none next e = (e.0.1, e.1)
  popped_ends first item q active (some t) next e = absurd e
  popped_ends first item q terminal_gap none next e = absurd e
  popped_ends first item q terminal_gap (some t) next e = e.1
  popped_ends first item q closed t next e = tt

  pub head_number :
      (first : ℕ) (item : Shared (PublicationRecord Snapshot Update))
      (q : List (Shared (PublicationRecord Snapshot Update))) (s : SubscriberState)
      (t : Option TerminalDescriptor) (next : ℕ)
      → EndsAt s t next first (item ∷ q)
      → is_closed s ≡ false
      → item.target.session_sequence ≡ first
  head_number first item q active none next e h = e.0.0
  head_number first item q active (some t) next e h = absurd e
  head_number first item q terminal_gap none next e h = absurd e
  head_number first item q terminal_gap (some t) next e h = e.0
  head_number first item q closed t next e h = ground arith

  -- A record that was peeked is taken off, unless the owner has closed the channel.
  pub acknowledge_ordinary :
      {first : ℕ} {q : List (Shared (PublicationRecord Snapshot Update))}
      (item : Shared (PublicationRecord Snapshot Update)) (c : SubscriberChannel Snapshot Update)
      → IsChannel first (item ∷ q) c
      → let (result, c') = acknowledge (record { ordinary = some item; terminal = none }) c in
        (result ≢ mismatch)
        × ((q' : List (Shared (PublicationRecord Snapshot Update))) × IsChannel (suc first) q' c')
  unfolding acknowledge
  acknowledge_ordinary {first} {q} item c v = elim (Bool-cases (is_closed c.state)) [
    | inl e ↦
        rw (e, acknowledge)
          (
            (λ h. ground arith),
            (
              item ∷ q,
              record {
                holds = v.holds;
                ends = closed_ends first (suc first) _ c.state c.terminal c.next_session_sequence e;
              },
            ),
          )
    | inr e ↦
        let busy : (c.ordinary_ring.size == 0) ≡ false = ground (arith, v.holds.size_eq) in
        rw (e, busy, front-Holds item v.holds, ==_refl item.address, acknowledge)
          (
            (λ h. ground arith),
            (
              q,
              record {
                holds = ring_pop-Holds item v.holds;
                ends = popped_ends first item q c.state c.terminal c.next_session_sequence v.ends;
              },
            ),
          )
  ]
