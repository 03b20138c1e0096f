-- ===== src/MultiSink/Split.antt =====
-- The logs by book, against the logs of all books.
use lobsim.MultiSink.{update_strategy_order, drain_fills, drain_events, drain_diagnostics}
use lobsim.Base.{string_eq, if_both}
use lobsim.MultiSink.{
  receive, use_sink, use_all, Use, call, take_fills, take_events, take_diagnostics,
  drain_diagnostics, empty_multi_sink,
}
use lobsim.MultiSink.{
  on_fill, on_event_apply, on_diagnostic, reset, InMemoryMultiLogSink, diagnostics_for, events_for,
  fills_for, push_index, records_for,
}
use lobsim.Types.{
  on_fill as fill_call, on_event_apply as event_call, on_diagnostic as diagnostic_call,
  reset as reset_call, SinkCall, DiagnosticRecord, EventApplyRecord, FillRecord, is_strategy,
}
use lobsim.Base.{
  HashMap, List, String, [], arith, if◌then◌else◌, length, some, ℕ, ◌++◌, ◌==◌, ◌∷◌, ◌≡◌,
}
use lobsim.MultiSink.Index.{records_for-empty, records_for-push, apply_strategy_fill_keeps}
use lobsim.Ledger.{maker, taker}

-- The records of a book, in their order.
abbrev records_of : {R : Type 0} → (R → String) → String → List R → List R
records_of key_of k [] = []
records_of key_of k (r ∷ rs) =
    let rest = records_of key_of k rs in if key_of r == k then r ∷ rest else rest

records_of-append :
    {R : Type 0} (key_of : R → String) (k : String) (rs : List R) (x : R)
    → records_of key_of k (rs ++ x ∷ [])
      ≡ (if key_of x == k then records_of key_of k rs ++ x ∷ [] else records_of key_of k rs)
records_of-append key_of k [] x = ground arith
records_of-append key_of k (r ∷ rs) x = ground (arith, records_of-append key_of k rs x)

module _ ⦃H : HashMap⦄ where
  abbrev pub IsSplit : String → InMemoryMultiLogSink → Type 0
  IsSplit k m =
      (fills_for k m ≡ some (records_of (λ r. r.book_key) k m.fills))
      × (events_for k m ≡ some (records_of (λ r. r.book_key) k m.events))
      × (diagnostics_for k m ≡ some (records_of (λ r. r.book_key) k m.diagnostics))

  -- A record that is logged with its index.
  records_for-log :
      {R : Type 0} (key_of : R → String) (k : String) (rs : List R) (x : R)
      (index : H.Map String (List ℕ))
      → records_for rs index k ≡ some (records_of key_of k rs)
      → records_for (rs ++ x ∷ []) (push_index (key_of x) (length rs) index) k
        ≡ some (records_of key_of k (rs ++ x ∷ []))
  records_for-log key_of k rs x index h =
      rw (records_of-append key_of k rs x)
        (records_for-push (key_of x) k rs x index (records_of key_of k rs) h)

  IsSplit-receive :
      (k : String) (c : SinkCall) (m : InMemoryMultiLogSink) → IsSplit k m → IsSplit k (receive c m)
  unfolding receive on_fill on_event_apply on_diagnostic reset update_strategy_order
  IsSplit-receive k (fill_call r) m h =
      apply_strategy_fill_keeps (IsSplit k) (λ m l p. p) r.book_key r.taker_order_id r.taker_source
        taker r _
        (apply_strategy_fill_keeps (IsSplit k) (λ m l p. p) r.book_key r.maker_order_id
          r.maker_source maker r _
          (records_for-log (λ (x : FillRecord). x.book_key) k m.fills r m.fill_index h.0, h.1, h.2))
  IsSplit-receive k (event_call r) m h =
      let with_event : IsSplit k (record m {
        event_index = push_index r.book_key (length m.events) m.event_index;
        events = m.events ++ r ∷ [];
      }) =
        (
          h.0,
          records_for-log (λ (x : EventApplyRecord). x.book_key) k m.events r m.event_index h.1,
          h.2,
        ) in
      if_both (IsSplit k) (is_strategy r.source) _ _ with_event with_event
  IsSplit-receive k (diagnostic_call r) m h = (
    h.0,
    h.1,
    records_for-log (λ (x : DiagnosticRecord). x.book_key) k m.diagnostics r m.diag_index h.2,
  )
  IsSplit-receive k reset_call m h = (records_for-empty k, records_for-empty k, records_for-empty k)

  IsSplit-use_sink :
      (k : String) (u : Use) (m : InMemoryMultiLogSink) → IsSplit k m → IsSplit k (use_sink u m)
  unfolding use_sink drain_fills drain_events drain_diagnostics
  IsSplit-use_sink k (call c) m h = IsSplit-receive k c m h
  IsSplit-use_sink k take_fills m h = (records_for-empty k, h.1, h.2)
  IsSplit-use_sink k take_events m h = (h.0, records_for-empty k, h.2)
  IsSplit-use_sink k take_diagnostics m h = (h.0, h.1, records_for-empty k)

  -- After any calls, resets and drains of a sink that was empty, for each book key the fills, the
  -- applied events and the diagnostics that are looked up by the indices are exactly the records of
  -- that book that the sink holds, in their order, and no index leads out of range.
  pub use_all-IsSplit : (us : List Use) (k : String) → IsSplit k (use_all us empty_multi_sink)
  unfolding use_all
  use_all-IsSplit [] k = (records_for-empty k, records_for-empty k, records_for-empty k)
  use_all-IsSplit (u ∷ us) k = IsSplit-use_sink k u _ (use_all-IsSplit us k)
