-- ===== src/Publication/Channel/Writer.antt =====
-- The calls of the RPC handler, which is the only consumer: `peek`, `acknowledge`,
-- `wait_for_change` and `close_from_writer` of src/g7/order_book_publication.cpp.
use binance_market_data_gate.Base.{
  Bool, false, not, ◌&&◌, ◌||◌, Option, none, some, ◌==◌, if◌then◌else◌, has_value,
}
use binance_market_data_gate.Publication.Ring.{ring_pop, ring_clear, front}
use binance_market_data_gate.Publication.Shared.{same_pointer}
use binance_market_data_gate.Publication.Channel.Types.{
  TerminalDescriptor, descriptor_eq, closed, is_active, is_closed, AcknowledgeResult, acknowledged,
  ack_closed, mismatch, PeekedPublication, SubscriberChannel,
}

-- The test for a terminal: both are there, and equal.
abbrev same_descriptor : Option TerminalDescriptor → Option TerminalDescriptor → Bool
same_descriptor (some s) (some t) = descriptor_eq s t
same_descriptor _ _ = false

module _ {Snapshot Update : Type 0} where
  unfoldable pub clear_from_writer :
      SubscriberChannel Snapshot Update → SubscriberChannel Snapshot Update
  clear_from_writer c = record c {
    ordinary_ring = ring_clear c.ordinary_capacity c.ordinary_ring;
    terminal = none;
  }

  abbrev pub nothing_peeked : PeekedPublication Snapshot Update
  nothing_peeked = record { ordinary = none; terminal = none }

  unfoldable pub peek : SubscriberChannel Snapshot Update → PeekedPublication Snapshot Update
  peek c =
      if is_closed c.state
      then nothing_peeked
      else if not (c.ordinary_ring.size == 0)
      then record { ordinary = front c.ordinary_ring; terminal = none }
      else if has_value c.terminal
      then record { ordinary = none; terminal = c.terminal }
      else nothing_peeked

  unfoldable pub acknowledge :
      PeekedPublication Snapshot Update
      → SubscriberChannel Snapshot Update
      → AcknowledgeResult × SubscriberChannel Snapshot Update
  acknowledge publication c =
      if is_closed c.state
      then (ack_closed, c)
      else if has_value publication.ordinary
      then if c.ordinary_ring.size == 0
          || not (same_pointer (front c.ordinary_ring) publication.ordinary)
        then (mismatch, c)
        else (
          acknowledged,
          record c { ordinary_ring = ring_pop c.ordinary_capacity c.ordinary_ring },
        )
      else if c.ordinary_ring.size == 0 && same_descriptor c.terminal publication.terminal
      then (ack_closed, record c { terminal = none; state = closed })
      else (mismatch, c)

  -- The condition on which `wait_for_change` returns before its time is over.
  unfoldable pub changed : SubscriberChannel Snapshot Update → Bool
  changed c = not (is_active c.state) || not (c.ordinary_ring.size == 0)

  unfoldable pub close_from_writer :
      SubscriberChannel Snapshot Update → SubscriberChannel Snapshot Update
  close_from_writer c = clear_from_writer (record c { state = closed })
