-- ===== src/Publication/EventSource/Sessions/Invariant.antt =====
-- What holds of an event source between two calls.
use binance_market_data_gate.Base.{
  ℕ, suc, ◌≤◌, ◌<◌, ◌≡◌, refl, sym, ap, ◌∙◌, Bool, true, false, Option, none, some, List, [], ◌∷◌,
  length, All, arith,
}
use binance_market_data_gate.Base.Words.{u64_max}
use binance_market_data_gate.Publication.Shared.{Shared}
use binance_market_data_gate.Publication.EventChannel.Types.{is_active, EventSubscriberChannel}
use binance_market_data_gate.Publication.EventChannel.Laws.{Follows, Follows-refl}
use binance_market_data_gate.Publication.EventSource.Types.{
  EventSourceState, opened, quiesced, EventPublication,
}
use binance_market_data_gate.Publication.EventSource.Calls.{event_id}

abbrev pub is_live : EventSourceState → Bool
is_live opened = true
is_live quiesced = true
is_live _ = false

module _ {Event : Type 0} where
  -- An active session has no terminal yet, and belongs to the generation that the source now serves.
  abbrev pub IsSession : EventSourceState → Option ℕ → EventSubscriberChannel Event → Type 0
  IsSession state generation c =
      is_active c.state ≡ true
      → (c.terminal ≡ none) × (generation ≡ some c.source_generation) × (is_live state ≡ true)

  -- Its name is one that was given out.
  abbrev pub IsNamed : ℕ → EventSubscriberChannel Event → Type 0
  IsNamed next c = (k : ℕ) × (k < next) × (c.subscription_id ≡ event_id k)

  pub record IsSource (s : EventPublication Event) : Type 0 where
    pub bounded : length s.channels ≤ s.limits.maximum_active_subscriptions
    pub numbered : s.next_subscription_id ≤ u64_max
    pub sessions : All (λ ch. IsSession s.source_state s.source_generation ch.target) s.channels
    pub named : All (λ ch. IsNamed s.next_subscription_id ch.target) s.channels

  pub Follows-IsSession :
      (state : EventSourceState) (generation : Option ℕ) (c c' : EventSubscriberChannel Event)
      → Follows c c'
      → IsSession state generation c
      → IsSession state generation c'
  Follows-IsSession state generation c c' f s h =
      let (t, g, l) = s (f.activity h) in (f.terminal h ∙ t, g ∙ ap some (sym f.generation), l)

  pub Follows-IsNamed :
      (next : ℕ) (c c' : EventSubscriberChannel Event)
      → Follows c c'
      → IsNamed next c
      → IsNamed next c'
  Follows-IsNamed next c c' f (k, h, e) = (k, h, f.id ∙ e)

  -- Lists of channels that follow one another, one by one.
  abbrev pub AllFollow :
      List (Shared (EventSubscriberChannel Event))
      → List (Shared (EventSubscriberChannel Event))
      → Type 0
  AllFollow [] [] = Unit
  AllFollow (ch ∷ chs) (ch' ∷ chs') = Follows ch.target ch'.target × AllFollow chs chs'
  AllFollow [] (ch' ∷ chs') = ⊥
  AllFollow (ch ∷ chs) [] = ⊥

  pub AllFollow-refl : (chs : List (Shared (EventSubscriberChannel Event))) → AllFollow chs chs
  AllFollow-refl [] = tt
  AllFollow-refl (ch ∷ chs) = (Follows-refl ch.target, AllFollow-refl chs)

  pub AllFollow-length :
      (chs chs' : List (Shared (EventSubscriberChannel Event)))
      → AllFollow chs chs'
      → length chs' ≡ length chs
  AllFollow-length [] [] f = refl
  AllFollow-length (ch ∷ chs) (ch' ∷ chs') f = ap suc (AllFollow-length chs chs' f.1)
  AllFollow-length [] (ch' ∷ chs') f = absurd f
  AllFollow-length (ch ∷ chs) [] f = absurd f

  pub AllFollow-All :
      (P : EventSubscriberChannel Event → Type 0)
      → ((c c' : EventSubscriberChannel Event) → Follows c c' → P c → P c')
      → (chs chs' : List (Shared (EventSubscriberChannel Event))) → AllFollow chs chs'
      → All (λ ch. P ch.target) chs
      → All (λ ch. P ch.target) chs'
  AllFollow-All P keep [] [] f a = tt
  AllFollow-All P keep (ch ∷ chs) (ch' ∷ chs') f a =
      (keep ch.target ch'.target f.0 a.0, AllFollow-All P keep chs chs' f.1 a.1)
  AllFollow-All P keep [] (ch' ∷ chs') f a = absurd f
  AllFollow-All P keep (ch ∷ chs) [] f a = absurd f

  -- Channels that follow the old ones, under the same state, keep the invariant.
  pub followed-IsSource :
      (s : EventPublication Event) (chs : List (Shared (EventSubscriberChannel Event)))
      → AllFollow s.channels chs
      → IsSource s
      → IsSource (record s { channels = chs })
  followed-IsSource s chs f v = record {
    bounded = omega (arith, AllFollow-length s.channels chs f, v.bounded);
    numbered = v.numbered;
    sessions =
        AllFollow-All _ (Follows-IsSession s.source_state s.source_generation) s.channels chs f
          v.sessions;
    named = AllFollow-All _ (Follows-IsNamed s.next_subscription_id) s.channels chs f v.named;
  }
