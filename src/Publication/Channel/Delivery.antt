-- ===== src/Publication/Channel/Delivery.antt =====
-- Delivery: the handler's turns, each a `peek`, the write, and an `acknowledge`, with calls of the
-- owner before, between and after.
pub mod Turns
pub mod Order
pub mod Session
use binance_market_data_gate.Base.{ℕ, suc, ◌≡◌, Bool, Option, none, some, List, [], ◌∷◌, ◌++◌}
use binance_market_data_gate.Publication.Shared.{
  Shared, ConsumerGapReason, RecoveryAction, PublicationTime,
}
use binance_market_data_gate.Publication.Channel.Types.{
  PublicationRecord, TerminalDescriptor, AcknowledgeResult, PeekedPublication, SubscriberChannel,
}
use binance_market_data_gate.Publication.Channel.Owner.{admit_update, terminalize, close_from_owner}
use binance_market_data_gate.Publication.Channel.Writer.{peek, acknowledge}

pub data OwnerCall (Update : Type 0) : Type 0 where
  admits : Option ℕ → Update → Option ℕ → PublicationTime → OwnerCall Update
  terminalizes : ConsumerGapReason → RecoveryAction → Option ℕ → PublicationTime → OwnerCall Update
  closes : OwnerCall Update

pub data Event (Update : Type 0) : Type 0 where
  owner : OwnerCall Update → Event Update
  -- A turn of the handler, with the owner's calls between its `peek` and its `acknowledge`.
  turn : List (OwnerCall Update) → Event Update

-- What the handler writes: the number of the record or of the terminal, if there is one.
terminal_number : Option TerminalDescriptor → List ℕ
terminal_number (some t) = t.session_sequence ∷ []
terminal_number none = []

module _ {Snapshot Update : Type 0} where
  unfoldable pub owner_call :
      OwnerCall Update → SubscriberChannel Snapshot Update → SubscriberChannel Snapshot Update
  owner_call (admits allocated update generation at) c =
      (admit_update allocated update generation at c).1
  owner_call (terminalizes reason action generation at) c =
      (terminalize reason action generation at c).1
  owner_call closes c = close_from_owner c

  unfoldable pub owner_calls :
      List (OwnerCall Update)
      → SubscriberChannel Snapshot Update
      → SubscriberChannel Snapshot Update
  owner_calls [] c = c
  owner_calls (o ∷ os) c = owner_calls os (owner_call o c)

  ordinary_number : Option (Shared (PublicationRecord Snapshot Update)) → List ℕ → List ℕ
  ordinary_number (some item) others = item.target.session_sequence ∷ []
  ordinary_number none others = others

  unfoldable pub numbers : PeekedPublication Snapshot Update → List ℕ
  unfolding ordinary_number terminal_number
  numbers p = ordinary_number p.ordinary (terminal_number p.terminal)

  unfoldable pub acknowledge_turn :
      List (OwnerCall Update)
      → SubscriberChannel Snapshot Update
      → AcknowledgeResult × SubscriberChannel Snapshot Update
  acknowledge_turn between c = acknowledge (peek c) (owner_calls between c)

  -- The numbers that the handler writes over a history, and the channel at its end.
  unfoldable pub deliver :
      SubscriberChannel Snapshot Update
      → List (Event Update)
      → List ℕ × SubscriberChannel Snapshot Update
  deliver c [] = ([], c)
  deliver c (owner o ∷ es) = deliver (owner_call o c) es
  deliver c (turn between ∷ es) =
      let (ns, c') = deliver (acknowledge_turn between c).1 es in (numbers (peek c) ++ ns, c')
