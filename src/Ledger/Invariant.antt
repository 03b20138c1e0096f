-- ===== src/Ledger/Invariant.antt =====
-- The entries of the ledger, over sequences of calls of the sink.
use lobsim.Base.{
  int_eq, HashMap, ==ℤ_iff, Bool-cases, List, Option-cases, [], arith, false, if_both, inl, inr,
  leb_ℤ, ltb_ℤ, none, not, pos, some, sym, ℤ, ◌==ℤ◌, ◌∙◌, ◌∷◌, ◌≡◌,
}
use lobsim.Types.{
  add, delete, subtract, match, set, aggressive_trade, invalid, EventApplyRecord, FillRecord,
  SinkCall, UpdateSource, UpdateType, is_strategy, unknown_order_id_sentinel,
}
use lobsim.Types.{
  on_fill as fill_call, on_event_apply as event_call, on_diagnostic as diagnostic_call,
  reset as reset_call,
}
use lobsim.Ledger.{
  reset, on_fill, on_event_apply, on_diagnostic, InMemoryLogSink, PaperOrderFillRole,
  PaperOrderLedgerEntry, apply_strategy_fill, change_entry, delete_state, empty_sink, fill_entry,
  find_paper_order, maker, opened, receive, receive_all, set_state, strategy_event, subtract_state,
  taker, update_strategy_order,
}
use lobsim.Ledger.Entry.{
  IsSound, Keeps-IsSound, assigned, delete_state-Keeps, fill_entry-IsSound, opened-IsSound,
  set_state-Keeps, subtract_state-Keeps,
}

module _ ⦃H : HashMap⦄ where
  abbrev Sound : InMemoryLogSink → Type 0
  Sound s =
      (id : ℤ) (entry : PaperOrderLedgerEntry)
      → find_paper_order id s ≡ some entry
      → IsSound id entry

  Sound-assign :
      (id : ℤ) (entry : PaperOrderLedgerEntry) (s : InMemoryLogSink)
      → IsSound id entry
      → Sound s
      → Sound (record s { paper_ledger = H.assign id entry s.paper_ledger })
  Sound-assign id entry s h k j e found =
      assigned id j entry e (id ==ℤ j) (H.find j s.paper_ledger)
        (λ p. ground (arith, p, ==ℤ_iff id j)) h (k j e)
        (sym (H.find-assign j id entry s.paper_ledger) ∙ found)

  Sound-change_entry :
      (id : ℤ) (f : PaperOrderLedgerEntry → PaperOrderLedgerEntry) (s : InMemoryLogSink)
      → ((entry : PaperOrderLedgerEntry) → IsSound id entry → IsSound id (f entry))
      → Sound s
      → Sound (change_entry id f s)
  Sound-change_entry id f s keeps k = elim (Option-cases (find_paper_order id s)) [
    | inl missing ↦ rw (missing, change_entry) k
    | inr (entry, found) ↦
        rw (found, change_entry) (Sound-assign id (f entry) s (keeps entry (k id entry found)) k)
  ]

  Sound-open :
      (r : EventApplyRecord) (s : InMemoryLogSink)
      → leb_ℤ r.qty_lots (pos 0) ≡ false
      → find_paper_order r.order_id s ≡ none
      → Sound s
      → Sound (record s { paper_ledger = H.emplace r.order_id (opened r) s.paper_ledger })
  Sound-open r s h missing k j e found =
      let placed = H.find-emplace j r.order_id (opened r) s.paper_ledger in
      assigned r.order_id j (opened r) e (r.order_id ==ℤ j) (H.find j s.paper_ledger)
        (λ p. ground (arith, p, ==ℤ_iff r.order_id j)) (opened-IsSound r h) (k j e)
        (sym (rw missing at placed) ∙ found)

  Sound-add :
      (r : EventApplyRecord) (s : InMemoryLogSink) → Sound s → Sound (strategy_event add r s)
  unfolding strategy_event
  Sound-add r s k = elim (Bool-cases (leb_ℤ r.qty_lots (pos 0))) [
    | inl bad ↦ rw bad k
    | inr good ↦ rw good (elim (Option-cases (find_paper_order r.order_id s)) [
      | inl missing ↦ rw missing (Sound-open r s good missing k)
      | inr (entry, found) ↦ rw found k
    ])
  ]

  Sound-subtract :
      (r : EventApplyRecord) (s : InMemoryLogSink) → Sound s → Sound (strategy_event subtract r s)
  unfolding strategy_event
  Sound-subtract r s k = elim (Bool-cases (ltb_ℤ r.qty_lots (pos 0))) [
    | inl bad ↦ rw bad k
    | inr good ↦ rw good (
        Sound-change_entry r.order_id _ s
          (Keeps-IsSound r.order_id (subtract_state r) (subtract_state-Keeps r good)) k)
  ]

  Sound-strategy_event :
      (t : UpdateType) (r : EventApplyRecord) (s : InMemoryLogSink)
      → Sound s
      → Sound (strategy_event t r s)
  unfolding strategy_event
  Sound-strategy_event add r s k = Sound-add r s k
  Sound-strategy_event subtract r s k = Sound-subtract r s k
  Sound-strategy_event set r s k =
      Sound-change_entry r.order_id _ s (Keeps-IsSound r.order_id (set_state r) (set_state-Keeps r))
        k
  Sound-strategy_event delete r s k =
      Sound-change_entry r.order_id _ s
        (Keeps-IsSound r.order_id (delete_state r) (delete_state-Keeps r)) k
  Sound-strategy_event match r s k = k
  Sound-strategy_event aggressive_trade r s k = k
  Sound-strategy_event invalid r s k = k

  Sound-apply_strategy_fill :
      (id : ℤ) (source : UpdateSource) (role : PaperOrderFillRole) (r : FillRecord)
      (s : InMemoryLogSink)
      → Sound s
      → Sound (apply_strategy_fill id source role r s)
  unfolding apply_strategy_fill
  Sound-apply_strategy_fill id source role r s k = if_both Sound (not (is_strategy source)) _ _ k (
      if_both Sound (id ==ℤ unknown_order_id_sentinel) _ _ k
        (Sound-change_entry id (fill_entry role r) s (fill_entry-IsSound id role r) k))

  Sound-receive : (c : SinkCall) (s : InMemoryLogSink) → Sound s → Sound (receive c s)
  unfolding receive on_fill on_event_apply on_diagnostic reset update_strategy_order
  Sound-receive (fill_call r) s k =
      Sound-apply_strategy_fill r.taker_order_id r.taker_source taker r _
        (Sound-apply_strategy_fill r.maker_order_id r.maker_source maker r _ k)
  Sound-receive (event_call r) s k =
      if_both Sound (is_strategy r.source) _ _ (Sound-strategy_event r.update_type r _ k) k
  Sound-receive (diagnostic_call r) s k = k
  Sound-receive reset_call s k =
      λ id e found. absurd (ground (arith, found, H.find-empty {V = PaperOrderLedgerEntry} id))

  -- Whatever calls the sink is given, each entry of the ledger is kept under its own id, its filled
  -- quantity is the sum of the positive quantities of its fills, and its status fits: an open order has
  -- lots left and none filled, a partly filled order has lots left and lots filled, a filled order has
  -- none left and some filled, and a cancelled order has none left. No entry is ever rejected.
  pub receive_all-IsSound :
      (cs : List SinkCall) (id : ℤ) (entry : PaperOrderLedgerEntry)
      → find_paper_order id (receive_all cs empty_sink) ≡ some entry
      → IsSound id entry
  unfolding receive_all
  receive_all-IsSound cs id entry found = sound_after cs id entry found
    where
      sound_after : (cs : List SinkCall) → Sound (receive_all cs empty_sink)
      sound_after [] =
          λ id e found. absurd (ground (arith, found, H.find-empty {V = PaperOrderLedgerEntry} id))
      sound_after (c ∷ cs) = Sound-receive c (receive_all cs empty_sink) (sound_after cs)
