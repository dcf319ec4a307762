-- ===== src/Runtime/Histories/Handlers.antt =====
-- The handlers' calls on the lists of channels: src/g3/market_runtime.cpp.
use binance_market_data_gate.Base.{
  ℕ, suc, ◌≡◌, refl, ap, false, ◌==◌, List, [], ◌∷◌, length, All, arith, if_cases,
}
use binance_market_data_gate.Publication.Shared.{Shared}
use binance_market_data_gate.Publication.Channel.Types.{SubscriberChannel, is_active}
use binance_market_data_gate.Publication.Channel.Writer.{
  acknowledge, close_from_writer, clear_from_writer,
}
use binance_market_data_gate.Runtime.Handling.Answering.{Unended}
use binance_market_data_gate.Runtime.Histories.{
  HandlerCall, acknowledges, closes_session, handler_call, handle_each,
}

module _ {Snapshot Update : Type 0} where
  pub length-handle_each :
      (address : ℕ) (o : HandlerCall Snapshot Update)
      (chs : List (Shared (SubscriberChannel Snapshot Update)))
      → length (handle_each address o chs) ≡ length chs
  unfolding handle_each
  length-handle_each address o [] = refl
  length-handle_each address o (ch ∷ chs) = ap suc (length-handle_each address o chs)

  pub handler_call-Unended :
      (o : HandlerCall Snapshot Update) (c : SubscriberChannel Snapshot Update)
      → Unended c
      → Unended (handler_call o c)
  unfolding handler_call acknowledge close_from_writer clear_from_writer
  handler_call-Unended (acknowledges publication) c h = ground (arith, h)
  handler_call-Unended closes_session c h = ground (arith, h)

  -- A session that has ended stays so.
  pub handler_call-ended :
      (o : HandlerCall Snapshot Update) (c : SubscriberChannel Snapshot Update)
      → is_active c.state ≡ false
      → is_active (handler_call o c).state ≡ false
  unfolding handler_call acknowledge close_from_writer clear_from_writer
  handler_call-ended (acknowledges publication) c h = ground (arith, h)
  handler_call-ended closes_session c h = refl

  pub handle_each-All :
      (P : SubscriberChannel Snapshot Update → Type 0)
      → ((o : HandlerCall Snapshot Update) (c : SubscriberChannel Snapshot Update)
          → P c
          → P (handler_call o c))
      → (address : ℕ) (o : HandlerCall Snapshot Update)
        (chs : List (Shared (SubscriberChannel Snapshot Update)))
      → All (λ ch. P ch.target) chs
      → All (λ ch. P ch.target) (handle_each address o chs)
  unfolding handle_each
  handle_each-All P keeps address o [] h = h
  handle_each-All P keeps address o (ch ∷ chs) (h, hs) = (
    if_cases P (ch.address == address) (λ _. keeps o ch.target h) (λ _. h),
    handle_each-All P keeps address o chs hs,
  )
