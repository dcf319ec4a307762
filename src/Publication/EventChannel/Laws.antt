-- ===== src/Publication/EventChannel/Laws.antt =====
-- What a call leaves of an event channel: src/g9/event_publication.cpp.
use binance_market_data_gate.Base.{ℕ, ◌≡◌, refl, true, false, Option, none, some, List, arith}
use binance_market_data_gate.Publication.Shared.{Shared, PublicationTime}
use binance_market_data_gate.Publication.EventChannel.Types.{
  Stream, EventPublicationRecord, is_active, EventSubscriberChannel, PeekedEventPublication,
}
use binance_market_data_gate.Publication.EventChannel.Calls.{
  admit_event, terminalize_replacement, close_unavailable, acknowledge, close_from_owner,
  close_from_writer, stage_accepted, event_subscriber_channel, clear_from_writer,
}

module _ {Event : Type 0} where
  -- The second channel is the first after some calls.
  pub record Follows (c c' : EventSubscriberChannel Event) : Type 0 where
    pub id : c'.subscription_id ≡ c.subscription_id
    pub generation : c'.source_generation ≡ c.source_generation
    pub stream : c'.stream ≡ c.stream
    pub activity : is_active c'.state ≡ true → is_active c.state ≡ true
    pub terminal : is_active c'.state ≡ true → c'.terminal ≡ c.terminal

  pub Follows-refl : (c : EventSubscriberChannel Event) → Follows c c
  Follows-refl c = record {
    id = refl;
    generation = refl;
    stream = refl;
    activity = λ h. h;
    terminal = λ h. refl;
  }

  pub admit_event-Follows :
      (event_stream : Event → Stream) (allocated : Option ℕ) (event : Event) (at : PublicationTime)
      (c : EventSubscriberChannel Event)
      → Follows c (admit_event event_stream allocated (some event) at c).1
  unfolding admit_event
  admit_event-Follows event_stream none event at c = ground arith
  admit_event-Follows event_stream (some address) event at c = ground arith

  pub acknowledge-Follows :
      (p : PeekedEventPublication Event) (c : EventSubscriberChannel Event)
      → Follows c (acknowledge p c).1
  unfolding acknowledge
  acknowledge-Follows p c = ground arith

  pub close_from_writer-Follows :
      (c : EventSubscriberChannel Event) → Follows c (close_from_writer c)
  unfolding close_from_writer clear_from_writer
  close_from_writer-Follows c = ground arith

  pub close_from_owner-Follows : (c : EventSubscriberChannel Event) → Follows c (close_from_owner c)
  unfolding close_from_owner
  close_from_owner-Follows c = ground arith

  pub terminalize_replacement-Follows :
      (at : PublicationTime) (c : EventSubscriberChannel Event)
      → Follows c (terminalize_replacement at c).1
  unfolding terminalize_replacement
  terminalize_replacement-Follows at c = ground arith

  pub close_unavailable-Follows :
      (c : EventSubscriberChannel Event) → Follows c (close_unavailable c).1
  unfolding close_unavailable
  close_unavailable-Follows c = ground arith

  pub terminalize_replacement-inactive :
      (at : PublicationTime) (c : EventSubscriberChannel Event)
      → (is_active c.state ≡ true → c.terminal ≡ none)
      → is_active (terminalize_replacement at c).1.state ≡ false
  unfolding terminalize_replacement
  terminalize_replacement-inactive at c h = ground arith

  pub close_unavailable-inactive :
      (c : EventSubscriberChannel Event) → is_active (close_unavailable c).1.state ≡ false
  unfolding close_unavailable
  close_unavailable-inactive c = ground arith

  -- A channel that was made and staged.
  pub staged_channel :
      (id gateway : List ℕ) (stream : Stream) (generation capacity : ℕ)
      (accepted : Option (Shared (EventPublicationRecord Event)))
      (c c' : EventSubscriberChannel Event)
      → event_subscriber_channel id gateway stream generation capacity ≡ some c
      → stage_accepted accepted c ≡ (true, c')
      → (c'.subscription_id ≡ id)
        × (c'.source_generation ≡ generation)
        × (c'.stream ≡ stream)
        × (c'.terminal ≡ none)
  unfolding event_subscriber_channel stage_accepted
  staged_channel id gateway stream generation capacity none c c' m e = ground arith
  staged_channel id gateway stream generation capacity (some a) c c' m e = ground arith
