-- ===== src/MultiSink/Refs.antt =====
-- The ledger and the rejected events of one book, after a fill and after an event.
use lobsim.Base.{
  string_eq, int_eq, HashMap, ◌≡◌, arith, ℤ, String, if◌then◌else◌, ◌==◌, Option-cases, ap, inl,
  inr, false,
}
use lobsim.Ledger
use lobsim.Ledger.{
  InMemoryLogSink, strategy_event, PaperOrderState, PaperOrderFillRole, change_entry, fill_entry,
  PaperOrderLedgerEntry,
}
use lobsim.MultiSink.{
  book_event, BookRefs, change_order, InMemoryMultiLogSink, refs_at, write_refs, paper_ledger_for,
  fill_in_ledger,
}
use lobsim.Types.{
  add, delete, subtract, match, set, aggressive_trade, invalid, EventApplyRecord, UpdateType,
  FillRecord, UpdateSource,
}
use lobsim.MultiSink.{fill_book}
use lobsim.Types.{add, delete, subtract, match, set, aggressive_trade, invalid}
use lobsim.MultiSink.{apply_strategy_fill, fill_book}

module _ ⦃H : HashMap⦄ where
  -- What `update_strategy_order` reads and writes of a sink of one book.
  abbrev pub refs_of : InMemoryLogSink → BookRefs
  refs_of s = record { ledger = s.paper_ledger; rejected = s.rejected_strategy_events }

  refs_of-change_entry :
      (id : ℤ) (f : PaperOrderState → PaperOrderState) (s : InMemoryLogSink)
      → change_order id f (refs_of s) ≡ refs_of (Ledger.change_state id f s)
  refs_of-change_entry id f s = ground arith

  pub refs_of-strategy_event :
      (t : UpdateType) (r : EventApplyRecord) (s : InMemoryLogSink)
      → book_event t r (refs_of s) ≡ refs_of (strategy_event t r s)
  unfolding book_event strategy_event
  refs_of-strategy_event add r s = ground arith
  refs_of-strategy_event subtract r s = ground arith
  refs_of-strategy_event set r s = ground arith
  refs_of-strategy_event delete r s = ground arith
  refs_of-strategy_event match r s = ground arith
  refs_of-strategy_event aggressive_trade r s = ground arith
  refs_of-strategy_event invalid r s = ground arith

  -- The references after a write through those of a book.
  pub refs_at-write_refs :
      (key k : String) (refs : BookRefs) (m : InMemoryMultiLogSink)
      → refs_at k (write_refs key refs m) ≡ (if key == k then refs else refs_at k m)
  refs_at-write_refs key k refs m = ground (
    arith,
    H.find-assign k key refs.ledger m.paper_ledger,
    H.find-assign k key refs.rejected m.rejected_strategy_events,
  )

  refs_at-fill_self :
      (k : String) (id : ℤ) (role : PaperOrderFillRole) (r : FillRecord) (m : InMemoryMultiLogSink)
      (s : InMemoryLogSink)
      → refs_at k m ≡ refs_of s
      → refs_at k (fill_book k id role r m) ≡ refs_of (change_entry id (fill_entry role r) s)
  refs_at-fill_self k id role r m s h =
      let same : paper_ledger_for k m ≡ s.paper_ledger = ap (λ (x : BookRefs). x.ledger) h in
      elim (Option-cases (H.find k m.paper_ledger)) [
        | inl missing ↦
            ground (arith, h, same, missing, H.find-empty {V = PaperOrderLedgerEntry} id)
        | inr (ledger, found) ↦ elim (Option-cases (H.find id s.paper_ledger)) [
          | inl missing ↦ ground (arith, h, same, found, missing)
          | inr (entry, there) ↦ ground (
            arith,
            h,
            same,
            found,
            there,
            H.find-assign k k (H.assign id (fill_entry role r entry) ledger) m.paper_ledger,
            string_eq.beq_iff k k,
          )
        ]
      ]

  refs_at-fill_ne :
      (key k : String) (id : ℤ) (role : PaperOrderFillRole) (r : FillRecord)
      (m : InMemoryMultiLogSink)
      → (key == k) ≡ false
      → refs_at k (fill_book key id role r m) ≡ refs_at k m
  refs_at-fill_ne key k id role r m ne = elim (Option-cases (H.find key m.paper_ledger)) [
    | inl missing ↦ ground (arith, missing)
    | inr (ledger, found) ↦ elim (Option-cases (fill_in_ledger id role r ledger)) [
      | inl missing ↦ ground (arith, found, missing)
      | inr (ledger', there) ↦
          ground (arith, found, there, ne, H.find-assign k key ledger' m.paper_ledger)
    ]
  ]

  pub refs_at-apply_strategy_fill :
      (k : String) (id : ℤ) (source : UpdateSource) (role : PaperOrderFillRole) (r : FillRecord)
      (m : InMemoryMultiLogSink) (s : InMemoryLogSink)
      → refs_at k m ≡ refs_of s
      → refs_at k (apply_strategy_fill k id source role r m)
        ≡ refs_of (Ledger.apply_strategy_fill id source role r s)
  unfolding apply_strategy_fill Ledger.apply_strategy_fill
  refs_at-apply_strategy_fill k id source role r m s h =
      ground (arith, h, refs_at-fill_self k id role r m s h)

  pub refs_at-apply_strategy_fill_ne :
      (key k : String) (id : ℤ) (source : UpdateSource) (role : PaperOrderFillRole) (r : FillRecord)
      (m : InMemoryMultiLogSink)
      → (key == k) ≡ false
      → refs_at k (apply_strategy_fill key id source role r m) ≡ refs_at k m
  unfolding apply_strategy_fill
  refs_at-apply_strategy_fill_ne key k id source role r m ne =
      ground (arith, refs_at-fill_ne key k id role r m ne)
