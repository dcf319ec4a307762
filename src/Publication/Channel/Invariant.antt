-- ===== src/Publication/Channel/Invariant.antt =====
-- A channel and the queue that it holds: what the owner's calls keep, and what they add.
use binance_market_data_gate.Base.{
  ℕ, suc, ◌≤◌, ◌<◌, ◌≡◌, refl, ◌⊎◌, inl, inr, true, false, Option, none, some, List, [], ◌∷◌, ◌++◌,
  length, Bool-cases, ◌==◌, arith,
}
use binance_market_data_gate.Base.Words.{add_u64, u64_max}
use binance_market_data_gate.Publication.Ring.Queue.{Holds, ring_push-Holds}
use binance_market_data_gate.Publication.Shared.{
  Shared, ConsumerGapReason, slow_consumer, RecoveryAction, resubscribe, PublicationTime,
}
use binance_market_data_gate.Publication.Channel.Types.{
  update_payload, PublicationRecord, TerminalDescriptor, SubscriberState, active, terminal_gap,
  closed, is_active, admitted, terminalized, inactive, allocation_failure, SubscriberChannel,
}
use binance_market_data_gate.Publication.Channel.Owner.{admit_update, terminalize, close_from_owner}

module _ {Snapshot Update : Type 0} where
  -- The records are numbered from `first` on without a gap, and `end` comes next.
  abbrev pub Numbered : ℕ → List (Shared (PublicationRecord Snapshot Update)) → ℕ → Type 0
  Numbered first [] end = first ≡ end
  Numbered first (item ∷ q) end =
      (item.target.session_sequence ≡ first) × Numbered (suc first) q end

  -- Where the numbering of the queue ends, by state.
  abbrev pub EndsAt :
      SubscriberState
      → Option TerminalDescriptor
      → ℕ
      → ℕ
      → List (Shared (PublicationRecord Snapshot Update))
      → Type 0
  EndsAt active none next first q = Numbered first q next × (next ≤ u64_max)
  EndsAt active (some t) next first q = ⊥
  EndsAt terminal_gap none next first q = ⊥
  EndsAt terminal_gap (some t) next first q = Numbered first q t.session_sequence
  EndsAt closed terminal next first q = Unit

  pub record IsChannel (first : ℕ) (q : List (Shared (PublicationRecord Snapshot Update)))
      (c : SubscriberChannel Snapshot Update) : Type 0 where
    pub holds : Holds c.ordinary_capacity c.ordinary_ring q
    pub ends : EndsAt c.state c.terminal c.next_session_sequence first q

  pub Numbered-snoc :
      (first end : ℕ) (q : List (Shared (PublicationRecord Snapshot Update)))
      (item : Shared (PublicationRecord Snapshot Update))
      → Numbered first q end
      → item.target.session_sequence ≡ end
      → Numbered first (q ++ (item ∷ [])) (suc end)
  Numbered-snoc first end [] item n e = (omega arith, omega arith)
  Numbered-snoc first end (x ∷ q) item n e = (n.0, Numbered-snoc (suc first) end q item n.1 e)

  state_cases :
      (first : ℕ) (q : List (Shared (PublicationRecord Snapshot Update))) (s : SubscriberState)
      (t : Option TerminalDescriptor) (next : ℕ)
      → EndsAt s t next first q
      → is_active s ≡ true
      → (t ≡ none) × Numbered first q next × (next ≤ u64_max)
  state_cases first q active none next e h = (refl, e.0, e.1)
  state_cases first q active (some t) next e h = absurd e
  state_cases first q terminal_gap t next e h = ground arith
  state_cases first q closed t next e h = ground arith

  grown_ends :
      (first : ℕ) (q : List (Shared (PublicationRecord Snapshot Update)))
      (item : Shared (PublicationRecord Snapshot Update)) (s : SubscriberState)
      (t : Option TerminalDescriptor) (next : ℕ)
      → EndsAt s t next first q
      → is_active s ≡ true
      → next < u64_max
      → item.target.session_sequence ≡ next
      → EndsAt s t (add_u64 next 1) first (q ++ (item ∷ []))
  grown_ends first q item active none next e h b i =
      let no_wrap : add_u64 next 1 ≡ suc next = omega arith in
      rw no_wrap (Numbered-snoc first next q item e.0 i, omega arith)
  grown_ends first q item active (some t) next e h b i = absurd e
  grown_ends first q item terminal_gap t next e h b i = ground arith
  grown_ends first q item closed t next e h b i = ground arith

  -- An active channel has no terminal, and its queue is numbered up to the next number.
  pub active_view :
      {first : ℕ} {q : List (Shared (PublicationRecord Snapshot Update))}
      (c : SubscriberChannel Snapshot Update)
      → IsChannel first q c
      → is_active c.state ≡ true
      → (c.terminal ≡ none)
        × Numbered first q c.next_session_sequence
        × (c.next_session_sequence ≤ u64_max)
  active_view {first} {q} c v e =
      state_cases first q c.state c.terminal c.next_session_sequence v.ends e

  pub close_from_owner-IsChannel :
      {first : ℕ} {q : List (Shared (PublicationRecord Snapshot Update))}
      {c : SubscriberChannel Snapshot Update}
      → IsChannel first q c
      → IsChannel first q (close_from_owner c)
  unfolding close_from_owner
  close_from_owner-IsChannel v = record { holds = v.holds; ends = tt }

  -- `terminalize` keeps the queue.
  pub terminalize-IsChannel :
      {first : ℕ} {q : List (Shared (PublicationRecord Snapshot Update))}
      (c : SubscriberChannel Snapshot Update) (reason : ConsumerGapReason) (action : RecoveryAction)
      (generation : Option ℕ) (at : PublicationTime)
      → IsChannel first q c
      → IsChannel first q (terminalize reason action generation at c).1
  unfolding terminalize
  terminalize-IsChannel {first} {q} c reason action generation at v =
      elim (Bool-cases (is_active c.state)) [
        | inr e ↦ rw (e, terminalize) v
        | inl e ↦
            let (n, numbered, _) = active_view c v e in
            rw (e, n, terminalize) (record { holds = v.holds; ends = numbered })
      ]

  module _ {first : ℕ} {q : List (Shared (PublicationRecord Snapshot Update))}
      (c : SubscriberChannel Snapshot Update) (v : IsChannel first q c)
      (allocated generation : Option ℕ) (update : Update) (at : PublicationTime) where
    -- A channel that is not active takes nothing.
    pub admit_update-inactive :
        is_active c.state ≡ false → admit_update allocated update generation at c ≡ (inactive, c)
    unfolding admit_update
    admit_update-inactive e = rw e

    -- On an active channel that holds a numbered queue and is full, `admit_update` ends the session: the
    -- queue is kept, and the terminal has the next number and says that the consumer is slow.
    pub admit_update-full :
        is_active c.state ≡ true
        → length q ≡ c.ordinary_capacity
        → ((admit_update allocated update generation at c).0 ≡ terminalized)
          × IsChannel first q (admit_update allocated update generation at c).1
          × ((admit_update allocated update generation at c).1.terminal
              ≡ some (record {
                session_sequence = c.next_session_sequence;
                connection_generation = none;
                published_at = at;
                reason = slow_consumer;
                recovery_action = resubscribe;
              }))
          × ((admit_update allocated update generation at c).1.state ≡ terminal_gap)
    unfolding admit_update
    admit_update-full e h =
        let (n, numbered, _) = active_view c v e in
        let full : (c.ordinary_ring.size == c.ordinary_capacity) ≡ true = ground arith in
        rw (e, full) (refl, record { holds = v.holds; ends = numbered }, refl, refl)

    -- The record that an admission queues.
    abbrev pub update_record : ℕ → Shared (PublicationRecord Snapshot Update)
    update_record address = record {
      address = address;
      target = record {
        session_sequence = c.next_session_sequence;
        connection_generation = generation;
        published_at = at;
        payload = update_payload update;
      };
    }

    -- On an active channel that holds a numbered queue with room, if memory is given and a number is
    -- left, `admit_update` puts the update at the end of the queue under the next number.
    pub admit_update-admitted :
        (address : ℕ)
        → allocated ≡ some address
        → is_active c.state ≡ true
        → length q < c.ordinary_capacity
        → c.next_session_sequence < u64_max
        → ((admit_update allocated update generation at c).0 ≡ admitted)
          × IsChannel first
              (q ++ (update_record address ∷ []))
              (admit_update allocated update generation at c).1
    unfolding admit_update
    admit_update-admitted address a e h b =
        let room : (c.ordinary_ring.size == c.ordinary_capacity) ≡ false = ground arith in
        let free : (c.next_session_sequence == u64_max) ≡ false = ground arith in
        let (taken, kept) = ring_push-Holds (update_record address) v.holds h in
        rw (e, room, free, a, taken)
          (
            refl,
            record {
              holds = kept;
              ends =
                  grown_ends first q (update_record address) c.state c.terminal
                    c.next_session_sequence v.ends e b refl;
            },
          )

    -- On an active channel that holds a numbered queue with room, if no memory is given or no number is
    -- left, `admit_update` fails and leaves the channel as it was.
    pub admit_update-failed :
        is_active c.state ≡ true
        → length q < c.ordinary_capacity
        → (allocated ≡ none) ⊎ (c.next_session_sequence ≡ u64_max)
        → admit_update allocated update generation at c ≡ (allocation_failure, c)
    unfolding admit_update
    admit_update-failed e h (inl a) =
        let room : (c.ordinary_ring.size == c.ordinary_capacity) ≡ false = ground arith in
        rw (e, room, a) (ground arith)
    admit_update-failed e h (inr b) =
        let room : (c.ordinary_ring.size == c.ordinary_capacity) ≡ false = ground arith in
        let spent : (c.next_session_sequence == u64_max) ≡ true = ground arith in
        rw (e, room, spent)
