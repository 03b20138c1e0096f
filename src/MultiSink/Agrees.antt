-- ===== src/MultiSink/Agrees.antt =====
-- The sink of several books, against one `InMemoryLogSink` for each book.
use lobsim.Base.{
  string_eq, int_eq, HashMap, ◌≡◌, arith, ℤ, Bool, List, String, [], if◌then◌else◌, some, true,
  ◌==◌, ◌∷◌, ap, inl, inr, false, Bool-cases, length, refl, ℕ, ◌++◌, ◌∙◌, if_both, subst,
}
use lobsim.Ledger
use lobsim.Ledger.{
  InMemoryLogSink, strategy_event, PaperOrderFillRole, PaperOrderLedgerEntry, maker, taker,
  empty_sink, receive_all,
}
use lobsim.MultiSink.{
  book_event, BookRefs, InMemoryMultiLogSink, diagnostics_for, events_for, fills_for, refs_at,
  push_index, records_for, empty_multi_sink, receive_each,
}
use lobsim.Types.{
  add, delete, subtract, match, set, aggressive_trade, invalid, EventApplyRecord, UpdateType,
  FillRecord, SinkCall, DiagnosticRecord, UpdateSource, is_strategy,
}
use lobsim.Types.{
  on_fill as fill_call, on_event_apply as event_call, on_diagnostic as diagnostic_call,
  reset as reset_call, add, delete, subtract, match, set, aggressive_trade, invalid,
}
use lobsim.MultiSink.Index.{apply_strategy_fill_keeps, records_for-push, records_for-empty}
use lobsim.MultiSink.{
  on_fill, on_event_apply, on_diagnostic, reset, apply_strategy_fill, update_strategy_order,
  receive,
}
use lobsim.MultiSink.Refs.{
  refs_at-apply_strategy_fill, refs_at-apply_strategy_fill_ne, refs_at-write_refs, refs_of,
  refs_of-strategy_event,
}

-- The calls that are about a book.
abbrev pub is_about : String → SinkCall → Bool
is_about k (fill_call r) = r.book_key == k
is_about k (event_call r) = r.book_key == k
is_about k (diagnostic_call r) = r.book_key == k
is_about k reset_call = true

abbrev pub calls_of : String → List SinkCall → List SinkCall
calls_of k [] = []
calls_of k (c ∷ cs) = let rest = calls_of k cs in if is_about k c then c ∷ rest else rest

module _ ⦃H : HashMap⦄ where
  -- What the sink of several books shows of one book, against a sink of that book alone.
  abbrev pub Agrees : String → InMemoryMultiLogSink → InMemoryLogSink → Type 0
  Agrees k m s =
      (fills_for k m ≡ some s.fills)
      × (events_for k m ≡ some s.events)
      × (diagnostics_for k m ≡ some s.diagnostics)
      × (refs_at k m ≡ refs_of s)

  -- The logs of a book.
  abbrev Shows :
      String
      → List FillRecord
      → List EventApplyRecord
      → List DiagnosticRecord
      → InMemoryMultiLogSink
      → Type 0
  Shows k fs es ds m =
      (fills_for k m ≡ some fs) × (events_for k m ≡ some es) × (diagnostics_for k m ≡ some ds)

  -- A fill on a ledger leaves the logs of a sink of one book.
  logs-apply_strategy_fill :
      (id : ℤ) (source : UpdateSource) (role : PaperOrderFillRole) (r : FillRecord)
      (s : InMemoryLogSink)
      → let s' = Ledger.apply_strategy_fill id source role r s in
        (s'.fills ≡ s.fills) × (s'.events ≡ s.events) × (s'.diagnostics ≡ s.diagnostics)
  unfolding Ledger.apply_strategy_fill
  logs-apply_strategy_fill id source role r s = (ground arith, ground arith, ground arith)

  Agrees-apply_strategy_fill :
      (k : String) (id : ℤ) (source : UpdateSource) (role : PaperOrderFillRole) (r : FillRecord)
      (m : InMemoryMultiLogSink) (s : InMemoryLogSink)
      → Agrees k m s
      → Agrees k
          (apply_strategy_fill k id source role r m)
          (Ledger.apply_strategy_fill id source role r s)
  Agrees-apply_strategy_fill k id source role r m s h =
      let logs : Shows k s.fills s.events s.diagnostics (apply_strategy_fill k id source role r m) =
        apply_strategy_fill_keeps (Shows k s.fills s.events s.diagnostics) (λ m l p. p) k id source
          role r m (h.0, h.1, h.2) in
      let own = logs-apply_strategy_fill id source role r s in
      (
        rw own.0 logs.0,
        rw own.1 logs.1,
        rw own.2 logs.2,
        refs_at-apply_strategy_fill k id source role r m s h.3,
      )

  -- A record that has been logged for a book, seen at that book and at another.
  logged_own :
      {R : Type 0} (k : String) (rs : List R) (x : R) (index : H.Map String (List ℕ)) (out : List R)
      → records_for rs index k ≡ some out
      → records_for (rs ++ x ∷ []) (push_index k (length rs) index) k ≡ some (out ++ x ∷ [])
  logged_own k rs x index out h =
      ground (arith, records_for-push k k rs x index out h, string_eq.beq_iff k k)

  logged_other :
      {R : Type 0} (key k : String) (rs : List R) (x : R) (index : H.Map String (List ℕ))
      (out : List R)
      → (key == k) ≡ false
      → records_for rs index k ≡ some out
      → records_for (rs ++ x ∷ []) (push_index key (length rs) index) k ≡ some out
  logged_other key k rs x index out ne h =
      ground (arith, records_for-push key k rs x index out h, ne)

  refs_at-update_strategy_order :
      (r : EventApplyRecord) (m : InMemoryMultiLogSink) (s : InMemoryLogSink)
      → refs_at r.book_key m ≡ refs_of s
      → refs_at r.book_key (update_strategy_order r m) ≡ refs_of (Ledger.update_strategy_order r s)
  unfolding update_strategy_order Ledger.update_strategy_order
  refs_at-update_strategy_order r m s h =
      let refs : BookRefs = book_event r.update_type r (refs_at r.book_key m) in
      elim (Bool-cases (is_strategy r.source)) [
        | inl ours ↦ rw ours (
            refs_at-write_refs r.book_key r.book_key refs m
            ∙ rw ((string_eq.beq_iff r.book_key r.book_key).1 refl) (
                ap (λ (x : BookRefs). book_event r.update_type r x) h
                ∙ refs_of-strategy_event r.update_type r s))
        | inr other ↦ rw other h
      ]

  abbrev SameLogs : InMemoryLogSink → InMemoryLogSink → Type 0
  SameLogs s t = (t.fills ≡ s.fills) × (t.events ≡ s.events) × (t.diagnostics ≡ s.diagnostics)

  SameLogs-strategy_event :
      (t : UpdateType) (r : EventApplyRecord) (s : InMemoryLogSink)
      → SameLogs s (strategy_event t r s)
  unfolding strategy_event
  SameLogs-strategy_event add r s = (ground arith, ground arith, ground arith)
  SameLogs-strategy_event subtract r s = (ground arith, ground arith, ground arith)
  SameLogs-strategy_event set r s = (ground arith, ground arith, ground arith)
  SameLogs-strategy_event delete r s = (ground arith, ground arith, ground arith)
  SameLogs-strategy_event match r s = (refl, refl, refl)
  SameLogs-strategy_event aggressive_trade r s = (refl, refl, refl)
  SameLogs-strategy_event invalid r s = (refl, refl, refl)

  SameLogs-update_strategy_order :
      (r : EventApplyRecord) (s : InMemoryLogSink) → SameLogs s (Ledger.update_strategy_order r s)
  unfolding Ledger.update_strategy_order
  SameLogs-update_strategy_order r s =
      if_both (SameLogs s) (is_strategy r.source) _ _ (SameLogs-strategy_event r.update_type r s)
        (refl, refl, refl)

  -- A change through the references leaves the logs.
  Shows-update_strategy_order :
      (k : String) (fs : List FillRecord) (es : List EventApplyRecord) (ds : List DiagnosticRecord)
      (r : EventApplyRecord) (m : InMemoryMultiLogSink)
      → Shows k fs es ds m
      → Shows k fs es ds (update_strategy_order r m)
  unfolding update_strategy_order
  Shows-update_strategy_order k fs es ds r m h =
      if_both (Shows k fs es ds) (is_strategy r.source) _ _ h h

  Agrees-on_fill :
      (r : FillRecord) (m : InMemoryMultiLogSink) (s : InMemoryLogSink)
      → Agrees r.book_key m s
      → Agrees r.book_key (on_fill r m) (Ledger.on_fill r s)
  unfolding on_fill Ledger.on_fill
  Agrees-on_fill r m s h =
      Agrees-apply_strategy_fill r.book_key r.taker_order_id r.taker_source taker r _ _ (
        Agrees-apply_strategy_fill r.book_key r.maker_order_id r.maker_source maker r _ _
          (logged_own r.book_key m.fills r m.fill_index s.fills h.0, h.1, h.2, h.3))

  Agrees-update_strategy_order :
      (r : EventApplyRecord) (m : InMemoryMultiLogSink) (s : InMemoryLogSink)
      → Agrees r.book_key m s
      → Agrees r.book_key (update_strategy_order r m) (Ledger.update_strategy_order r s)
  Agrees-update_strategy_order r m s h =
      let logs =
        Shows-update_strategy_order r.book_key s.fills s.events s.diagnostics r m (h.0, h.1, h.2) in
      let own = SameLogs-update_strategy_order r s in
      (rw own.0 logs.0, rw own.1 logs.1, rw own.2 logs.2, refs_at-update_strategy_order r m s h.3)

  pub Agrees-empty : (k : String) → Agrees k empty_multi_sink empty_sink
  Agrees-empty k = (
    records_for-empty k,
    records_for-empty k,
    records_for-empty k,
    ground (
      arith,
      H.find-empty {V = H.Map ℤ PaperOrderLedgerEntry} k,
      H.find-empty {V = List EventApplyRecord} k,
    ),
  )

  pub Agrees-receive_self :
      (c : SinkCall) (k : String) (m : InMemoryMultiLogSink) (s : InMemoryLogSink)
      → is_about k c ≡ true
      → Agrees k m s
      → Agrees k (receive c m) (Ledger.receive c s)
  unfolding receive Ledger.receive on_event_apply Ledger.on_event_apply on_diagnostic
      Ledger.on_diagnostic reset Ledger.reset
  Agrees-receive_self (fill_call r) k m s e h =
      let same : r.book_key ≡ k = (string_eq.beq_iff r.book_key k).0 e in
      subst (λ x. Agrees x m s → Agrees x (on_fill r m) (Ledger.on_fill r s)) same
        (Agrees-on_fill r m s) h
  Agrees-receive_self (event_call r) k m s e h =
      let same : r.book_key ≡ k = (string_eq.beq_iff r.book_key k).0 e in
      subst (λ x. Agrees x m s → Agrees x (on_event_apply r m) (Ledger.on_event_apply r s)) same
        (λ g.
          Agrees-update_strategy_order r _ _
            (g.0, logged_own r.book_key m.events r m.event_index s.events g.1, g.2, g.3))
        h
  Agrees-receive_self (diagnostic_call r) k m s e h =
      let same : r.book_key ≡ k = (string_eq.beq_iff r.book_key k).0 e in
      subst (λ x. Agrees x m s → Agrees x (on_diagnostic r m) (Ledger.on_diagnostic r s)) same
        (λ g. (g.0, g.1, logged_own r.book_key m.diagnostics r m.diag_index s.diagnostics g.2, g.3))
        h
  Agrees-receive_self reset_call k m s e h = Agrees-empty k

  Agrees-apply_strategy_fill_ne :
      (key k : String) (id : ℤ) (source : UpdateSource) (role : PaperOrderFillRole) (r : FillRecord)
      (m : InMemoryMultiLogSink) (s : InMemoryLogSink)
      → (key == k) ≡ false
      → Agrees k m s
      → Agrees k (apply_strategy_fill key id source role r m) s
  Agrees-apply_strategy_fill_ne key k id source role r m s ne h =
      let logs : Shows k s.fills s.events s.diagnostics
          (apply_strategy_fill key id source role r m) =
        apply_strategy_fill_keeps (Shows k s.fills s.events s.diagnostics) (λ m l p. p) key id
          source role r m (h.0, h.1, h.2) in
      (logs.0, logs.1, logs.2, refs_at-apply_strategy_fill_ne key k id source role r m ne ∙ h.3)

  refs_at-update_strategy_order_ne :
      (k : String) (r : EventApplyRecord) (m : InMemoryMultiLogSink)
      → (r.book_key == k) ≡ false
      → refs_at k (update_strategy_order r m) ≡ refs_at k m
  unfolding update_strategy_order
  refs_at-update_strategy_order_ne k r m ne =
      let refs : BookRefs = book_event r.update_type r (refs_at r.book_key m) in
      if_both (λ (x : InMemoryMultiLogSink). refs_at k x ≡ refs_at k m) (is_strategy r.source) _ _
        (rw ne at (refs_at-write_refs r.book_key k refs m)) refl

  pub Agrees-receive_other :
      (c : SinkCall) (k : String) (m : InMemoryMultiLogSink) (s : InMemoryLogSink)
      → is_about k c ≡ false
      → Agrees k m s
      → Agrees k (receive c m) s
  unfolding receive on_fill on_event_apply on_diagnostic
  Agrees-receive_other (fill_call r) k m s ne h =
      Agrees-apply_strategy_fill_ne r.book_key k r.taker_order_id r.taker_source taker r _ s ne (
        Agrees-apply_strategy_fill_ne r.book_key k r.maker_order_id r.maker_source maker r _ s ne
          (logged_other r.book_key k m.fills r m.fill_index s.fills ne h.0, h.1, h.2, h.3))
  Agrees-receive_other (event_call r) k m s ne h =
      let logs =
        Shows-update_strategy_order k s.fills s.events s.diagnostics r _
          (h.0, logged_other r.book_key k m.events r m.event_index s.events ne h.1, h.2) in
      (logs.0, logs.1, logs.2, refs_at-update_strategy_order_ne k r _ ne ∙ h.3)
  Agrees-receive_other (diagnostic_call r) k m s ne h =
      (h.0, h.1, logged_other r.book_key k m.diagnostics r m.diag_index s.diagnostics ne h.2, h.3)
  Agrees-receive_other reset_call k m s ne h = absurd (ground (arith, ne))

  -- For any calls of a sink of several books that was empty, resets included, and any book key: the
  -- fills, applied events and diagnostics that it gives for that key, its ledger of that key and the
  -- rejected events of that key are those of an `InMemoryLogSink` that was given only the calls about
  -- that key and the resets.
  pub receive_each-Agrees :
      (cs : List SinkCall) (k : String)
      → Agrees k (receive_each cs empty_multi_sink) (receive_all (calls_of k cs) empty_sink)
  unfolding receive_each receive_all
  receive_each-Agrees [] k = Agrees-empty k
  receive_each-Agrees (c ∷ cs) k = elim (Bool-cases (is_about k c)) [
    | inl own ↦ rw own (Agrees-receive_self c k _ _ own (receive_each-Agrees cs k))
    | inr other ↦ rw other (Agrees-receive_other c k _ _ other (receive_each-Agrees cs k))
  ]
