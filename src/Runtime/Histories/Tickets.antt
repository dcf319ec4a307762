-- ===== src/Runtime/Histories/Tickets.antt =====
-- The tickets through the owner's steps: src/g3/market_runtime.cpp.
use binance_market_data_gate.Base.{
  ℕ, suc, ◌≤◌, ◌≡◌, ◌∙◌, ap, ap₂, inl, inr, some, List, [], ◌∷◌, length, arith,
}
use binance_market_data_gate.Runtime.Projection.{ProjectionApi}
use binance_market_data_gate.Runtime.Types.{IngressItem, Runtime}
use binance_market_data_gate.Runtime.Faults.{max_ticket, max_with, last_ticket, drained}
use binance_market_data_gate.Runtime.Handling.{Drained}
use binance_market_data_gate.Runtime.Histories.Invariant.{Numbered}

max_ticket-le : (a b : ℕ) → a ≤ b → max_ticket a b ≡ b
max_ticket-le a b h = ground (arith, h)

module _ {api : ProjectionApi} where
  pub Numbered-le : (k last : ℕ) (items : List (IngressItem api)) → Numbered k items last → k ≤ last
  Numbered-le k last [] n = omega arith
  Numbered-le k last (i ∷ items) (e, n) =
      let h = Numbered-le (suc k) last items n in omega (arith, h)

  last_ticket-Numbered :
      (k last : ℕ) (i : IngressItem api) (items : List (IngressItem api))
      → Numbered k (i ∷ items) last
      → last_ticket (i ∷ items) ≡ some last
  last_ticket-Numbered k last i [] (e, n) = ap some (e ∙ n)
  last_ticket-Numbered k last i (j ∷ items) (e, n) = last_ticket-Numbered (suc k) last j items n

  -- A discarded mailbox leaves the last ticket processed.
  drained-last :
      (k last : ℕ) (items : List (IngressItem api)) → Numbered k items last → drained k items ≡ last
  drained-last k last [] n = n
  drained-last k last (i ∷ items) n =
      ap (max_with k) (last_ticket-Numbered k last i items n)
      ∙ max_ticket-le k last (Numbered-le k last (i ∷ items) n)

  pub Drained-Numbered :
      (s t : Runtime api) (last : ℕ)
      → Drained s t
      → Numbered s.processed_ticket s.ingress last
      → Numbered t.processed_ticket t.ingress last
  Drained-Numbered s t last (inl (e, p)) n = rw (e, p) n
  Drained-Numbered s t last (inr (e, p)) n =
      rw e (p ∙ drained-last s.processed_ticket last s.ingress n)

  -- After `finish_ticket`, with the item in the owner's hands.
  pub finished-Numbered :
      (s t : Runtime api) (item : IngressItem api) (last : ℕ)
      → Drained s t
      → Numbered s.processed_ticket (item ∷ s.ingress) last
      → Numbered (max_ticket t.processed_ticket item.ticket) t.ingress last
  finished-Numbered s t item last (inl (e, p)) (f, n) =
      let up : max_ticket t.processed_ticket item.ticket ≡ suc s.processed_ticket =
        ap₂ max_ticket p f
        ∙ max_ticket-le s.processed_ticket (suc s.processed_ticket) (omega arith) in
      rw (e, up) n
  finished-Numbered s t item last (inr (e, p)) (f, n) = rw e (finished_last s.ingress item p f n)
    where
      finished_last :
          (items : List (IngressItem api)) (item : IngressItem api)
          → t.processed_ticket ≡ drained s.processed_ticket items
          → item.ticket ≡ suc s.processed_ticket
          → Numbered (suc s.processed_ticket) items last
          → max_ticket t.processed_ticket item.ticket ≡ last
      finished_last [] item p f n = ap₂ max_ticket p f ∙ max_ticket-le _ _ (omega arith) ∙ n
      finished_last (i ∷ items) item p f n =
          let low = Numbered-le (suc s.processed_ticket) last (i ∷ items) n in
          let top : t.processed_ticket ≡ last =
            p
            ∙ ap (max_with s.processed_ticket) (last_ticket-Numbered _ last i items n)
            ∙ max_ticket-le s.processed_ticket last (omega (arith, low)) in
          ground (arith, top, f, low)

  pub Drained-length : (s t : Runtime api) → Drained s t → length t.ingress ≤ length s.ingress
  Drained-length s t (inl (e, p)) = rw e (omega arith)
  Drained-length s t (inr (e, p)) = rw e (omega arith)
