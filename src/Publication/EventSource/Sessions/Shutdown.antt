-- ===== src/Publication/EventSource/Sessions/Shutdown.antt =====
-- Shutdown of an event source: `EventPublication::shutdown` of src/g9/event_publication.cpp.
use binance_market_data_gate.Base.{◌≡◌, refl, false, none, some, List, [], ◌∷◌, All, arith}
use binance_market_data_gate.Publication.EventChannel.Types.{Stream, is_active}
use binance_market_data_gate.Publication.EventSource.Types.{shutdown, EventPublication}
use binance_market_data_gate.Publication.EventSource.Calls.{
  open_generation, quiesce_generation, close_generation_replaced, close_generation_permanently,
  admit,
}
use binance_market_data_gate.Publication.EventSource.Publish.{
  publish, publish_at, remove, shutdown_publication,
}
use binance_market_data_gate.Publication.EventSource.Sessions.{
  SourceCall, opens, quiesces, closes_permanently, closes_replaced, admits, publishes, removes,
  shuts_down, handles, source_call, source_calls,
}
use binance_market_data_gate.Publication.EventSource.Sessions.Invariant.{IsSource}
use binance_market_data_gate.Publication.EventSource.Sessions.Steps.{dead-IsQuiet}
use binance_market_data_gate.Publication.EventSource.Sessions.History.{
  source_calls-IsSource_from, shutdown_publication-IsSource,
}

module _ {Event : Type 0} (event_stream : Event → Stream) where
  -- Each call on a source that is shut down leaves it so.
  source_call-shutdown :
      (o : SourceCall Event) (s : EventPublication Event)
      → s.source_state ≡ shutdown
      → (source_call event_stream o s).source_state ≡ shutdown
  unfolding source_call open_generation quiesce_generation close_generation_permanently
      close_generation_replaced admit publish publish_at remove shutdown_publication
  source_call-shutdown (opens g) s e = ground (arith, e)
  source_call-shutdown (quiesces g) s e = ground (arith, e)
  source_call-shutdown (closes_permanently g) s e = ground (arith, e)
  source_call-shutdown (closes_replaced none g) s e = e
  source_call-shutdown (closes_replaced (some at) g) s e = ground (arith, e)
  source_call-shutdown (admits ca ra none subscription) s e = e
  source_call-shutdown (admits ca ra (some at) subscription) s e = rw e refl
  source_call-shutdown (publishes allocated none g sampled) s e = e
  source_call-shutdown (publishes allocated (some event) g none) s e = e
  source_call-shutdown (publishes allocated (some event) g (some at)) s e = ground (arith, e)
  source_call-shutdown (removes none) s e = e
  source_call-shutdown (removes (some address)) s e = e
  source_call-shutdown shuts_down s e = ground (arith, e)
  source_call-shutdown (handles address h) s e = e

  source_calls-shutdown_from :
      (os : List (SourceCall Event)) (s : EventPublication Event)
      → s.source_state ≡ shutdown
      → (source_calls event_stream os s).source_state ≡ shutdown
  unfolding source_calls
  source_calls-shutdown_from [] s e = e
  source_calls-shutdown_from (o ∷ os) s e =
      source_calls-shutdown_from os (source_call event_stream o s) (source_call-shutdown o s e)

  shutdown_publication-shutdown :
      (s : EventPublication Event) → (shutdown_publication s).source_state ≡ shutdown
  unfolding shutdown_publication
  shutdown_publication-shutdown s = ground arith

  -- If a source that keeps its invariant is shut down, then after any calls in any order it is still
  -- shut down, and none of its sessions is active.
  pub source_calls-shutdown :
      (s : EventPublication Event)
      → IsSource s
      → (os : List (SourceCall Event))
      → ((source_calls event_stream os (shutdown_publication s)).source_state ≡ shutdown)
        × All
            (λ ch. is_active ch.target.state ≡ false)
            (source_calls event_stream os (shutdown_publication s)).channels
  source_calls-shutdown s v os =
      let ended = source_calls event_stream os (shutdown_publication s) in
      let still =
        source_calls-shutdown_from os (shutdown_publication s) (shutdown_publication-shutdown s) in
      let kept =
        source_calls-IsSource_from event_stream os (shutdown_publication s)
          (shutdown_publication-IsSource s v) in
      (
        still,
        dead-IsQuiet ended.source_state ended.source_generation ended.channels (rw still refl)
            kept.sessions,
      )
