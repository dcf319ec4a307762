-- ===== src/Publication/Channel/Tests.antt =====
-- A session of three slots on concrete calls.
use binance_market_data_gate.Base.{
  ℕ, ◌≡◌, ◌≢◌, refl, true, none, some, List, [], ◌∷◌, length, replicate, arith, ◌<◌,
}
use binance_market_data_gate.Base.Words.{u64_max}
use binance_market_data_gate.Publication.Ring.{ring, ring_push}
use binance_market_data_gate.Publication.Shared.{
  Shared, PublicationTime, slow_consumer, resubscribe,
}
use binance_market_data_gate.Publication.Channel.Types.{
  accepted_payload, snapshot_payload, PublicationRecord, TerminalDescriptor, SubscriberChannel,
  terminal_gap, closed, mismatch, admitted, terminalized, is_active,
}
use binance_market_data_gate.Publication.Channel.Writer.{peek}
use binance_market_data_gate.Publication.Channel.Owner.{
  fresh_channel, subscriber_channel, stage_initial, admit_update, terminalize,
}
use binance_market_data_gate.Publication.Channel.Invariant.{
  IsChannel, terminalize-IsChannel, update_record, admit_update-admitted,
}
use binance_market_data_gate.Publication.Channel.Delivery.{
  admits, closes, Event, owner, turn, numbers, acknowledge_turn, deliver,
}
use binance_market_data_gate.Publication.Channel.Delivery.Order.{Consecutive}
use binance_market_data_gate.Publication.Channel.Delivery.Session.{
  new-IsChannel, stage_initial-IsChannel, session-Consecutive, acknowledge_turn-ne-mismatch,
  deliver-drain, deliver-admit_update,
}

abbrev at : PublicationTime
at = record { utc_ns = 10; monotonic_ns = some 20 }

abbrev accepted : Shared (PublicationRecord ℕ ℕ)
accepted = record {
  address = 1;
  target = record {
    session_sequence = 1;
    connection_generation = none;
    published_at = at;
    payload = accepted_payload (record {
      request_id = b'r' ∷ [];
      subscription_id = b's' ∷ [];
      schema_version = "subscription-accepted.v1";
      gateway_instance_id = b'g' ∷ [];
      accepted_time_utc_ns = 10;
      negotiated_payload_schema_versions = [];
    });
  };
}

abbrev book : Shared (PublicationRecord ℕ ℕ)
book = record {
  address = 2;
  target = record {
    session_sequence = 2;
    connection_generation = none;
    published_at = at;
    payload = snapshot_payload 0;
  };
}

abbrev fresh : ℕ → SubscriberChannel ℕ ℕ
fresh capacity = fresh_channel (b's' ∷ []) (b'g' ∷ []) capacity

abbrev live : ℕ → SubscriberChannel ℕ ℕ
live capacity = (stage_initial (some accepted) (some book) (fresh capacity)).1

made_3 : subscriber_channel (b's' ∷ []) (b'g' ∷ []) 3 ≡ some (fresh 3)
unfolding subscriber_channel
made_3 = refl

made_2 : subscriber_channel (b's' ∷ []) (b'g' ∷ []) 2 ≡ some (fresh 2)
unfolding subscriber_channel
made_2 = refl

staged_3 : stage_initial (some accepted) (some book) (fresh 3) ≡ (true, live 3)
unfolding stage_initial ring_push ring
staged_3 = refl

staged_2 : stage_initial (some accepted) (some book) (fresh 2) ≡ (true, live 2)
unfolding stage_initial ring_push ring
staged_2 = refl

live_3-IsChannel : IsChannel 1 (accepted ∷ book ∷ []) (live 3)
live_3-IsChannel =
    stage_initial-IsChannel accepted book (fresh 3) (live 3)
      (new-IsChannel (b's' ∷ []) (b'g' ∷ []) 3 (fresh 3) (omega arith) made_3) staged_3

live_2-IsChannel : IsChannel 1 (accepted ∷ book ∷ []) (live 2)
live_2-IsChannel =
    stage_initial-IsChannel accepted book (fresh 2) (live 2)
      (new-IsChannel (b's' ∷ []) (b'g' ∷ []) 2 (fresh 2) (omega arith) made_2) staged_2

-- An update, the handler's turn while a second update comes, and the close.
abbrev history : List (Event ℕ)
history =
    owner (admits (some 7) 100 (some 4) at)
    ∷ turn (admits (some 8) 101 (some 4) at ∷ [])
    ∷ turn []
    ∷ owner closes
    ∷ turn []
    ∷ []

session-Consecutive_example : Consecutive 1 (deliver (live 3) history).0
session-Consecutive_example =
    session-Consecutive (b's' ∷ []) (b'g' ∷ []) 3 (fresh 3) (live 3) accepted book history
      (omega arith) made_3 staged_3

busy_3 : numbers (peek (live 3)) ≢ []
unfolding numbers peek stage_initial ring_push ring
busy_3 e = ground arith

acknowledge_turn-ne-mismatch_example :
    (acknowledge_turn (admits (some 8) 101 (some 4) at ∷ closes ∷ []) (live 3)).0 ≢ mismatch
acknowledge_turn-ne-mismatch_example =
    acknowledge_turn-ne-mismatch 1 (accepted ∷ book ∷ [])
      (admits (some 8) 101 (some 4) at ∷ closes ∷ []) (live 3) live_3-IsChannel busy_3

active_3 : is_active (live 3).state ≡ true
unfolding stage_initial ring_push ring
active_3 = refl

active_2 : is_active (live 2).state ≡ true
unfolding stage_initial ring_push ring
active_2 = refl

capacity_2 : length (accepted ∷ book ∷ []) ≡ (live 2).ordinary_capacity
unfolding stage_initial ring_push ring
capacity_2 = refl

room_3 : length (accepted ∷ book ∷ []) < (live 3).ordinary_capacity
unfolding stage_initial ring_push ring
room_3 = omega arith

number_3 : (live 3).next_session_sequence < u64_max
unfolding stage_initial ring_push ring
number_3 = omega arith

-- A session that has ended: the channel of two slots, as a slow consumer.
abbrev ended : SubscriberChannel ℕ ℕ
ended = (terminalize slow_consumer resubscribe none at (live 2)).1

abbrev ending : TerminalDescriptor
ending = record {
  session_sequence = 3;
  connection_generation = none;
  published_at = at;
  reason = slow_consumer;
  recovery_action = resubscribe;
}

ended-gap : ended.state ≡ terminal_gap
unfolding terminalize stage_initial ring_push ring
ended-gap = refl

ended-terminal : ended.terminal ≡ some ending
unfolding terminalize stage_initial ring_push ring
ended-terminal = refl

deliver-drain_example :
    let (written, c') = deliver ended (replicate 3 (turn [])) in
    (written ≡ 1 ∷ 2 ∷ 3 ∷ []) × (c'.state ≡ closed)
deliver-drain_example =
    deliver-drain 1 (accepted ∷ book ∷ []) ended ending
      (terminalize-IsChannel (live 2) slow_consumer resubscribe none at live_2-IsChannel) ended-gap
      ended-terminal

deliver-admit_update_example :
    let (answer, full) = admit_update (some 9) 100 (some 4) at (live 2) in
    let (written, c') = deliver full (replicate 3 (turn [])) in
    (answer ≡ terminalized)
    × (full.terminal
        ≡ some (record {
          session_sequence = (live 2).next_session_sequence;
          connection_generation = none;
          published_at = at;
          reason = slow_consumer;
          recovery_action = resubscribe;
        }))
    × (written ≡ 1 ∷ 2 ∷ (live 2).next_session_sequence ∷ [])
    × (c'.state ≡ closed)
deliver-admit_update_example =
    deliver-admit_update (live 2) live_2-IsChannel (some 9) (some 4) 100 at active_2 capacity_2

admit_update-admitted_example :
    ((admit_update (some 9) 100 (some 4) at (live 3)).0 ≡ admitted)
    × IsChannel 1
        (accepted ∷ book ∷ update_record (live 3) live_3-IsChannel (some 9) (some 4) 100 at 9 ∷ [])
        (admit_update (some 9) 100 (some 4) at (live 3)).1
admit_update-admitted_example =
    admit_update-admitted (live 3) live_3-IsChannel (some 9) (some 4) 100 at 9 refl active_3 room_3
      number_3
