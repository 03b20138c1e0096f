-- ===== src/MultiBook/Step.antt =====
-- `step`, `step_until`, `step_for` and `submit_strategy_event`.
use lobsim.MultiBook.State.{StrategyItem}
use lobsim.MultiBook.State.{StreamState}
use lobsim.Base.{
  ℕ, zero, suc, ◌+◌, ℤ, pos, negsuc, ◌+ℤ◌, ltb_ℤ, leb_ℤ, ◌==ℤ◌, Bool, true, false, ◌&&◌, ◌||◌, not,
  Option, none, some, List, [], ◌∷◌, ◌++◌, HashMap, string_eq, ◌==◌, is_blank, length, get_elem?,
  if◌then◌else◌, String,
}
use lobsim.Types.{
  NormalizedLobEvent, error, apply_event_requested_for_unknown_book,
  non_monotonic_ts_received_detected_in_multi_book_simulator, heap_entry_without_buffered_event,
  submit_strategy_event_for_unknown_book, strategy_event_time_travel, next_u64,
}
use lobsim.Types.{strategy as from_strategy}
use lobsim.Engine.Update.{update}
use lobsim.MultiBook.Merge.{HeapEntry, stream, strategy}
use lobsim.MultiBook.State.{
  MultiBookSimulator, BookId, book_key, emit_diagnostic, has_book_key, put_engine,
  current_ts_received, Run, returned, then_run, fail_or, submit_for_unknown_book,
  strategy_time_travel, invalid_strategy_heap_entry, heap_entry_without_event, non_monotonic_ts,
}
use lobsim.MultiBook.Stream.{put_stream, push_entry, is_before, fill_buffer, prime_streams, unread}

-- `symbol_id.empty() || symbol_id != key`: the event under the key of its book.
abbrev pub addressed : String → NormalizedLobEvent → NormalizedLobEvent
addressed key ev =
    if is_blank ev.symbol_id || not (ev.symbol_id == key) then record ev { symbol_id = key } else ev

-- `std::numeric_limits<std::int64_t>::max()`.
abbrev int64_max : ℤ
int64_max = pos 9223372036854775807

-- `if (ref.ev.ts_exchange == 0)`.
abbrev exchange_last : NormalizedLobEvent → NormalizedLobEvent
exchange_last ev = record ev {
  ts_exchange = if ev.ts_exchange ==ℤ pos 0 then int64_max else ev.ts_exchange;
}

abbrev pub strategy_entry : StrategyItem → ℕ → HeapEntry
strategy_entry item index = record {
  ts_received = item.ev.ts_received;
  ts_exchange = item.ev.ts_exchange;
  stream_index = 0;
  kind = strategy;
  strategy_index = index;
}

-- The events that the sources have left.
abbrev pub unread_all : List StreamState → ℕ
unread_all [] = 0
unread_all (ss ∷ sss) = unread ss.stream + unread_all sss

module _ ⦃H : HashMap⦄ where
  -- The event comes before the last one that was applied, where that matters.
  abbrev pub is_late : NormalizedLobEvent → MultiBookSimulator → Bool
  is_late ev m = m.cfg.require_monotonic_ts_received && is_before ev.ts_received m.current_time

  unfoldable pub apply_to_book : String → NormalizedLobEvent → MultiBookSimulator → Run (Unit {0})
  apply_to_book key ev m = elim (H.find key m.books) [
    | none ↦ returned tt (
        emit_diagnostic key apply_event_requested_for_unknown_book error 0 ev.ts_received
          ev.ts_exchange m)
    | some entry ↦
        if is_late ev m
        then fail_or non_monotonic_ts tt (
            emit_diagnostic key non_monotonic_ts_received_detected_in_multi_book_simulator error 0
              ev.ts_received ev.ts_exchange m)
        else returned tt (record (put_engine key entry (update (addressed key ev) entry.engine) m) {
          current_time = some ev.ts_received;
        })
  ]

  abbrev entry_without_event : String → ℕ → MultiBookSimulator → MultiBookSimulator
  entry_without_event key seq m =
      emit_diagnostic key heap_entry_without_buffered_event error seq (current_ts_received m)
        (negsuc 0) m

  unfoldable pub step_strategy : HeapEntry → MultiBookSimulator → Run Bool
  unfolding apply_to_book
  step_strategy entry m = elim (get_elem? m.strategy_events entry.strategy_index) [
    | none ↦ fail_or invalid_strategy_heap_entry false (entry_without_event "__multibook__" 0 m)
    | some item ↦ then_run (apply_to_book item.ev.symbol_id item.ev m) (λ _ m'. returned true m')
  ]

  unfoldable pub step_stream : HeapEntry → MultiBookSimulator → Run Bool
  unfolding apply_to_book fill_buffer
  step_stream entry m = elim (get_elem? m.streams entry.stream_index) [
    | none ↦ returned false m
    | some ss ↦ elim ss.buffered [
      | none ↦ fail_or heap_entry_without_event false (entry_without_event ss.book_key ss.seq m)
      | some ev ↦
          then_run
            (apply_to_book ss.book_key ev
              (put_stream entry.stream_index (record ss { buffered = none }) m))
            (λ _ m'. then_run (fill_buffer entry.stream_index m') (λ _ m''. returned true m''))
    ]
  ]

  unfoldable pub step_entry : HeapEntry → MultiBookSimulator → Run Bool
  unfolding step_strategy step_stream
  step_entry entry m = elim entry.kind [
    | strategy ↦ step_strategy entry m
    | stream ↦ step_stream entry m
  ]

  -- `step` after `prime_streams`.
  unfoldable pub step_heap : MultiBookSimulator → Run Bool
  unfolding step_entry
  step_heap m = elim m.heap [
    | [] ↦ returned false m
    | entry ∷ rest ↦ step_entry entry (record m { heap = rest })
  ]

  unfoldable pub step : MultiBookSimulator → Run Bool
  unfolding prime_streams step_heap
  step m = then_run (prime_streams m) (λ _ m'. step_heap m')

  -- `while (!heap_.empty())`, with the number of events that were applied. The fuel is the number of
  -- events that there are and one more: see `pending`.
  unfoldable pub until_loop : ℕ → ℤ → ℕ → MultiBookSimulator → Run ℕ
  unfolding step
  until_loop zero bound applied m = returned applied m
  until_loop (suc fuel) bound applied m = elim m.heap [
    | [] ↦ returned applied m
    | entry ∷ rest ↦
        let go_on = then_run (step m) (λ went m'. elim went [
          | true ↦ until_loop fuel bound (suc applied) m'
          | false ↦ returned applied m'
        ]) in
        if ltb_ℤ bound entry.ts_received then returned applied m else go_on
  ]

  -- The events that wait: those on the heap, and those that the sources have left.
  abbrev pub pending : MultiBookSimulator → ℕ
  pending m = length m.heap + unread_all m.streams

  unfoldable pub step_until : ℤ → MultiBookSimulator → Run ℕ
  unfolding prime_streams until_loop
  step_until bound m = then_run (prime_streams m) (λ _ m'. until_loop (suc (pending m')) bound 0 m')

  unfoldable pub step_for : ℤ → MultiBookSimulator → Run ℕ
  unfolding step_until
  step_for delta m =
      if leb_ℤ delta (pos 0) then returned 0 m else step_until (current_ts_received m +ℤ delta) m

  -- The event of a strategy, with its key, source and time of receipt.
  unfoldable pub strategy_event :
      String → NormalizedLobEvent → Option ℤ → MultiBookSimulator → NormalizedLobEvent
  strategy_event key ev latency m = record (addressed key ev) {
    update_source = from_strategy;
    ts_received =
        if ev.ts_received ==ℤ pos 0
        then current_ts_received m +ℤ elim latency [ none ↦ pos 1 | some l ↦ l ]
        else elim latency [ none ↦ ev.ts_received | some l ↦ ev.ts_received +ℤ l ];
  }

  -- The item, with the time of the exchange that it is ordered by, and its entry on the heap.
  unfoldable pub enqueue_strategy : NormalizedLobEvent → MultiBookSimulator → MultiBookSimulator
  enqueue_strategy ev m =
      let counter = next_u64 m.strategy_seq_counter in
      let item : StrategyItem = record { ev = exchange_last ev; insertion_seq = counter } in
      push_entry (strategy_entry item (length m.strategy_events)) (record m {
        strategy_events = m.strategy_events ++ item ∷ [];
        strategy_seq_counter = counter;
      })

  unfoldable pub submit_strategy_event :
      BookId → NormalizedLobEvent → Option ℤ → MultiBookSimulator → Run (Unit {0})
  unfolding strategy_event enqueue_strategy
  submit_strategy_event id ev latency m =
      let key = book_key id in
      let ev' = strategy_event key ev latency m in
      if not (has_book_key key m)
      then fail_or submit_for_unknown_book tt (
          emit_diagnostic key submit_strategy_event_for_unknown_book error 0 ev.ts_received
            ev.ts_exchange m)
      else if is_late ev' m
      then fail_or strategy_time_travel tt
          (emit_diagnostic key strategy_event_time_travel error 0 ev'.ts_received ev'.ts_exchange m)
      else returned tt (enqueue_strategy ev' m)
