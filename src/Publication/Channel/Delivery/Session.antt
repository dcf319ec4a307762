-- ===== src/Publication/Channel/Delivery/Session.antt =====
-- A whole session, from its two mandatory records on.
use binance_market_data_gate.Base.{
  ℕ, suc, ◌≤◌, ◌<◌, ◌^◌, ◌≡◌, refl, ap, subst, inl, inr, true, false, not, ◌||◌, Option, none, some,
  List, [], ◌∷◌, ◌==◌, ltb, length, replicate, ==_refl, ◌≢◌, ◌++◌, arith,
}
use binance_market_data_gate.Publication.Ring.{ring_push, ring_pop}
use binance_market_data_gate.Publication.Ring.Queue.{
  ring_pop-Holds, front-Holds, ring-Holds, ring_push-Holds,
}
use binance_market_data_gate.Publication.Shared.{
  Shared, PublicationTime, slow_consumer, resubscribe,
}
use binance_market_data_gate.Publication.Channel.Types.{
  PublicationRecord, TerminalDescriptor, SubscriberState, active, terminal_gap, closed, is_active,
  is_closed, mismatch, terminalized, SubscriberChannel,
}
use binance_market_data_gate.Publication.Channel.Owner.{
  fresh_channel, subscriber_channel, stage_initial, is_initial_pair, admit_update,
}
use binance_market_data_gate.Publication.Channel.Invariant.{EndsAt, IsChannel, admit_update-full}
use binance_market_data_gate.Publication.Channel.Writer.{peek, acknowledge}
use binance_market_data_gate.Publication.Channel.Delivery.{
  Event, turn, OwnerCall, owner_calls, numbers, acknowledge_turn, deliver,
}
use binance_market_data_gate.Publication.Channel.Delivery.Turns.{popped_ends}
use binance_market_data_gate.Publication.Channel.Delivery.Order.{
  Consecutive, deliver-Consecutive, turn-Turned, peek_ordinary, descriptor_eq_refl,
}

module _ {Snapshot Update : Type 0} where
  staged_ends :
      (a b : Shared (PublicationRecord Snapshot Update)) (s : SubscriberState)
      (t : Option TerminalDescriptor) (next : ℕ)
      → EndsAt {Snapshot = Snapshot} {Update = Update} s t next 1 []
      → is_active s ≡ true
      → a.target.session_sequence ≡ 1
      → b.target.session_sequence ≡ 2
      → EndsAt s t 3 1 (a ∷ b ∷ [])
  staged_ends a b active none next e h i j = ((i, (j, refl)), omega arith)
  staged_ends a b active (some t) next e h i j = absurd e
  staged_ends a b terminal_gap t next e h i j = ground arith
  staged_ends a b closed t next e h i j = ground arith

  -- `stage_initial` that succeeds queues both records, as numbers 1 and 2.
  pub stage_initial-IsChannel :
      (accepted book : Shared (PublicationRecord Snapshot Update))
      (c c' : SubscriberChannel Snapshot Update)
      → IsChannel 1 [] c
      → stage_initial (some accepted) (some book) c ≡ (true, c')
      → IsChannel 1 (accepted ∷ book ∷ []) c'
  unfolding stage_initial
  stage_initial-IsChannel accepted book c c' v e =
      let pair : is_initial_pair accepted.target book.target ≡ true = ground arith in
      let fine : (not (is_active c.state)
            || not (c.ordinary_ring.size == 0)
            || ltb c.ordinary_capacity 2)
          ≡ false =
        ground arith in
      let (ok₁, h₁) = ring_push-Holds accepted v.holds (ground arith) in
      let (ok₂, h₂) = ring_push-Holds book h₁ (ground arith) in
      let staged : SubscriberChannel Snapshot Update = record c {
        ordinary_ring =
            (ring_push c.ordinary_capacity (some book)
              (ring_push c.ordinary_capacity (some accepted) c.ordinary_ring).1).1;
        next_session_sequence = 3;
      } in
      let same : staged ≡ c' = ground (arith, ok₁, ok₂) in
      subst (IsChannel 1 (accepted ∷ book ∷ [])) same (record {
        holds = h₂;
        ends =
            staged_ends accepted book c.state c.terminal c.next_session_sequence v.ends
              (ground arith) (ground arith) (ground arith);
      })

  pub new-IsChannel :
      (id gateway : List ℕ) (capacity : ℕ) (c : SubscriberChannel Snapshot Update)
      → capacity ≤ 2 ^ 63
      → subscriber_channel id gateway capacity ≡ some c
      → IsChannel 1 [] c
  unfolding subscriber_channel
  new-IsChannel id gateway capacity c small made =
      let positive : 0 < capacity = ground arith in
      let same : fresh_channel id gateway capacity ≡ c = ground arith in
      subst (IsChannel 1 []) same
        (record { holds = ring-Holds positive small; ends = (refl, omega arith) })

  -- If the capacity is at most 2 ^ 63 and the two mandatory records are staged on a new channel, then
  -- over every history of owner calls and handler turns, the owner's calls also falling between a peek
  -- and its acknowledgement, the numbers that the handler writes are 1, 2, 3, … with no gap, duplicate
  -- or reordering.
  pub session-Consecutive :
      (id gateway : List ℕ) (capacity : ℕ) (c c' : SubscriberChannel Snapshot Update)
      (accepted book : Shared (PublicationRecord Snapshot Update)) (es : List (Event Update))
      → capacity ≤ 2 ^ 63
      → subscriber_channel id gateway capacity ≡ some c
      → stage_initial (some accepted) (some book) c ≡ (true, c')
      → Consecutive 1 (deliver c' es).0
  session-Consecutive id gateway capacity c c' accepted book es small made staged =
      deliver-Consecutive es 1 (accepted ∷ book ∷ []) c' (
        stage_initial-IsChannel accepted book c c' (new-IsChannel id gateway capacity c small made)
          staged)

  -- On a channel that holds a numbered queue, if the handler peeks something, then after any calls of
  -- the owner in between, `acknowledge` of what was peeked does not give a mismatch.
  pub acknowledge_turn-ne-mismatch :
      (first : ℕ) (q : List (Shared (PublicationRecord Snapshot Update)))
      (between : List (OwnerCall Update)) (c : SubscriberChannel Snapshot Update)
      → IsChannel first q c
      → numbers (peek c) ≢ []
      → (acknowledge_turn between c).0 ≢ mismatch
  acknowledge_turn-ne-mismatch first q between c v busy = elim (turn-Turned q between c v) [
    | inl (silent, _) ↦ absurd (busy silent)
    | inr (_, ok, _) ↦ ok
  ]

  quiet_turn :
      {first : ℕ} {q : List (Shared (PublicationRecord Snapshot Update))}
      (item : Shared (PublicationRecord Snapshot Update)) (c : SubscriberChannel Snapshot Update)
      → IsChannel first (item ∷ q) c
      → is_closed c.state ≡ false
      → (numbers (peek c) ≡ item.target.session_sequence ∷ [])
        × ((acknowledge_turn [] c).1
            ≡ record c { ordinary_ring = ring_pop c.ordinary_capacity c.ordinary_ring })
  unfolding acknowledge_turn owner_calls acknowledge numbers
  quiet_turn item c v e =
      let busy : (c.ordinary_ring.size == 0) ≡ false = ground (arith, v.holds.size_eq) in
      rw (peek_ordinary item c v e)
        (refl, rw (e, busy, front-Holds item v.holds, ==_refl item.address))

  abbrev pub sequences : List (Shared (PublicationRecord Snapshot Update)) → List ℕ
  sequences [] = []
  sequences (item ∷ q) = item.target.session_sequence ∷ sequences q

  -- The turn that finds the terminal alone.
  last_turn :
      {first : ℕ} (c : SubscriberChannel Snapshot Update) (t : TerminalDescriptor)
      → IsChannel first [] c
      → is_closed c.state ≡ false
      → c.terminal ≡ some t
      → (numbers (peek c) ≡ t.session_sequence ∷ [])
        × ((acknowledge_turn [] c).1 ≡ record c { terminal = none; state = closed })
  unfolding acknowledge_turn owner_calls acknowledge numbers peek
  last_turn c t v e h =
      let idle : (c.ordinary_ring.size == 0) ≡ true = ground (arith, v.holds.size_eq) in
      rw (e, idle, h, descriptor_eq_refl t) (refl, refl)

  deliver_turn :
      (between : List (OwnerCall Update)) (es : List (Event Update))
      (c : SubscriberChannel Snapshot Update)
      → deliver c (turn between ∷ es) ≡ (
        numbers (peek c) ++ (deliver (acknowledge_turn between c).1 es).0,
        (deliver (acknowledge_turn between c).1 es).1,
      )
  unfolding deliver
  deliver_turn between es c = refl

  -- On a channel that holds a numbered queue and has ended with a terminal, a handler that takes as many
  -- turns as there are queued records, and one more, writes the records in order and then the terminal,
  -- and the channel is closed.
  pub deliver-drain :
      (first : ℕ) (q : List (Shared (PublicationRecord Snapshot Update)))
      (c : SubscriberChannel Snapshot Update) (t : TerminalDescriptor)
      → IsChannel first q c
      → c.state ≡ terminal_gap
      → c.terminal ≡ some t
      → let (written, c') = deliver c (replicate (suc (length q)) (turn [])) in
        (written ≡ sequences q ++ (t.session_sequence ∷ [])) × (c'.state ≡ closed)
  deliver-drain first [] c t v gap h =
      let (number, shut) = last_turn c t v (rw gap) h in
      rw (deliver_turn [] [] c, number, shut) (unfold deliver in (refl, refl))
  deliver-drain first (item ∷ q) c t v gap h =
      let (number, next) = quiet_turn item c v (rw gap) in
      let (written, shut) =
        deliver-drain (suc first) q
          (record c { ordinary_ring = ring_pop c.ordinary_capacity c.ordinary_ring }) t
          (record {
            holds = ring_pop-Holds item v.holds;
            ends = popped_ends first item q c.state c.terminal c.next_session_sequence v.ends;
          })
          gap h in
      rw (deliver_turn [] (replicate (suc (length q)) (turn [])) c, number, next)
        (ap (◌∷◌ item.target.session_sequence) written, shut)

  module _ {first : ℕ} {q : List (Shared (PublicationRecord Snapshot Update))}
      (c : SubscriberChannel Snapshot Update) (v : IsChannel first q c)
      (allocated generation : Option ℕ) (update : Update) (at : PublicationTime) where
    -- An update for an active channel that holds a numbered queue and is full ends the session: the
    -- terminal says that the consumer is slow, and a handler that takes as many turns as there are
    -- queued records, and one more, still writes the queued records in order and then the terminal
    -- under the number after theirs, and the channel is closed.
    pub deliver-admit_update :
        is_active c.state ≡ true
        → length q ≡ c.ordinary_capacity
        → let (answer, ended) = admit_update allocated update generation at c in
          let (written, c') = deliver ended (replicate (suc (length q)) (turn [])) in
          (answer ≡ terminalized)
          × (ended.terminal
              ≡ some (record {
                session_sequence = c.next_session_sequence;
                connection_generation = none;
                published_at = at;
                reason = slow_consumer;
                recovery_action = resubscribe;
              }))
          × (written ≡ sequences q ++ (c.next_session_sequence ∷ []))
          × (c'.state ≡ closed)
    deliver-admit_update e h =
        let (answer, kept, terminal, gap) =
          admit_update-full c v allocated generation update at e h in
        let (written, shut) = deliver-drain first q _ _ kept gap terminal in
        (answer, terminal, written, shut)
