-- ===== src/Runtime/Handling/Sessions.antt =====
-- The lists of subscribers: src/g3/market_runtime.cpp.
use binance_market_data_gate.Base.{
  ℕ, suc, ◌≤◌, ◌≡◌, refl, ap, inl, inr, Bool, true, false, Option, none, some, List, [], ◌∷◌,
  length, All, arith, Bool-cases, if_cases,
}
use binance_market_data_gate.Publication.Shared.{
  Shared, ConsumerGapReason, RecoveryAction, PublicationTime,
}
use binance_market_data_gate.Publication.Channel.Types.{is_active, is_closed, SubscriberChannel}
use binance_market_data_gate.Publication.Channel.Owner.{terminalize, admit_update}
use binance_market_data_gate.Runtime.Faults.{open_subscribers, terminalize_each}
use binance_market_data_gate.Runtime.Publish.{admit_each, is_allocation_failure}
use binance_market_data_gate.Runtime.Handling.{AllEnded, AllUnended}

module _ {Snapshot Update : Type 0} where
  pub open_subscribers_le :
      (chs : List (Shared (SubscriberChannel Snapshot Update)))
      → length (open_subscribers chs) ≤ length chs
  unfolding open_subscribers
  open_subscribers_le [] = omega arith
  open_subscribers_le (ch ∷ chs) =
      let ih = open_subscribers_le chs in
      if_cases (λ r. length r ≤ suc (length chs)) (is_closed ch.target.state)
        {x = open_subscribers chs} {y = ch ∷ open_subscribers chs} (λ _. omega (arith, ih))
        (λ _. omega (arith, ih))

  pub open_subscribers-All :
      (P : Shared (SubscriberChannel Snapshot Update) → Type 0)
      (chs : List (Shared (SubscriberChannel Snapshot Update)))
      → All P chs
      → All P (open_subscribers chs)
  unfolding open_subscribers
  open_subscribers-All P [] h = h
  open_subscribers-All P (ch ∷ chs) (h, hs) =
      let ih = open_subscribers-All P chs hs in
      if_cases (λ r. All P r) (is_closed ch.target.state) (λ _. ih) (λ _. (h, ih))

  module _ (reason : ConsumerGapReason) (action : RecoveryAction) (generation : Option ℕ)
      (at : PublicationTime) where
    pub length-terminalize_each :
        (chs : List (Shared (SubscriberChannel Snapshot Update)))
        → length (terminalize_each reason action generation at chs) ≡ length chs
    unfolding terminalize_each
    length-terminalize_each [] = refl
    length-terminalize_each (ch ∷ chs) = ap suc (length-terminalize_each chs)

    terminalize_ended :
        (c : SubscriberChannel Snapshot Update)
        → (is_active c.state ≡ true → c.terminal ≡ none)
        → is_active (terminalize reason action generation at c).1.state ≡ false
    unfolding terminalize
    terminalize_ended c h = elim (Bool-cases (is_active c.state)) [
      | inr e ↦ rw (e, terminalize) e
      | inl e ↦ rw (e, h e, terminalize) refl
    ]

    pub terminalize_each-AllEnded :
        (chs : List (Shared (SubscriberChannel Snapshot Update)))
        → AllUnended chs
        → AllEnded (terminalize_each reason action generation at chs)
    unfolding terminalize_each
    terminalize_each-AllEnded [] h = h
    terminalize_each-AllEnded (ch ∷ chs) (h, hs) =
        (terminalize_ended ch.target h, terminalize_each-AllEnded chs hs)

  pub AllEnded→AllUnended :
      (chs : List (Shared (SubscriberChannel Snapshot Update))) → AllEnded chs → AllUnended chs
  AllEnded→AllUnended [] h = h
  AllEnded→AllUnended (ch ∷ chs) (h, hs) = (λ e. ground (arith, e, h), AllEnded→AllUnended chs hs)

module _ {Snapshot Update : Type 0} (update : Update) (generation : Option ℕ)
    (at : PublicationTime) where
  admit_update-unended :
      (allocated : Option ℕ) (c : SubscriberChannel Snapshot Update)
      → (is_active c.state ≡ true → c.terminal ≡ none)
      → is_active (admit_update allocated update generation at c).1.state ≡ true
      → (admit_update allocated update generation at c).1.terminal ≡ none
  unfolding admit_update
  admit_update-unended none c h = ground (arith, h)
  admit_update-unended (some a) c h = ground (arith, h)

  admit_update-ended :
      (allocated : Option ℕ) (c : SubscriberChannel Snapshot Update)
      → is_active c.state ≡ false
      → is_active (admit_update allocated update generation at c).1.state ≡ false
  unfolding admit_update
  admit_update-ended allocated c h = rw h h

  module _ (allocator : ℕ → Option ℕ) where
    pub length-admit_each :
        (k : ℕ) (chs : List (Shared (SubscriberChannel Snapshot Update)))
        → length (admit_each allocator update generation at k chs).1.1 ≡ length chs
    unfolding admit_each
    length-admit_each k [] = refl
    length-admit_each k (ch ∷ chs) =
        let ih = length-admit_each (suc k) chs in
        if_cases
          (λ (r : Bool × (ℕ × List (Shared (SubscriberChannel Snapshot Update)))).
            length r.1.1 ≡ suc (length chs))
          (is_allocation_failure (admit_update (allocator k) update generation at ch.target).0)
          (λ _. refl) (λ _. ap suc ih)

    admit_each-All :
        (P : SubscriberChannel Snapshot Update → Type 0)
        → ((allocated : Option ℕ) (c : SubscriberChannel Snapshot Update)
            → P c
            → P (admit_update allocated update generation at c).1)
        → (k : ℕ) (chs : List (Shared (SubscriberChannel Snapshot Update)))
        → All (λ ch. P ch.target) chs
        → All (λ ch. P ch.target) (admit_each allocator update generation at k chs).1.1
    unfolding admit_each
    admit_each-All P keeps k [] h = h
    admit_each-All P keeps k (ch ∷ chs) (h, hs) =
        let ih = admit_each-All P keeps (suc k) chs hs in
        let first = keeps (allocator k) ch.target h in
        if_cases
          (λ (r : Bool × (ℕ × List (Shared (SubscriberChannel Snapshot Update)))).
            All (λ ch. P ch.target) r.1.1)
          (is_allocation_failure (admit_update (allocator k) update generation at ch.target).0)
          (λ _. (first, hs)) (λ _. (first, ih))

    pub admit_each-AllUnended :
        (k : ℕ) (chs : List (Shared (SubscriberChannel Snapshot Update)))
        → AllUnended chs
        → AllUnended (admit_each allocator update generation at k chs).1.1
    admit_each-AllUnended =
        admit_each-All (λ c. is_active c.state ≡ true → c.terminal ≡ none) admit_update-unended

    pub admit_each-AllEnded :
        (k : ℕ) (chs : List (Shared (SubscriberChannel Snapshot Update)))
        → AllEnded chs
        → AllEnded (admit_each allocator update generation at k chs).1.1
    admit_each-AllEnded = admit_each-All (λ c. is_active c.state ≡ false) admit_update-ended
