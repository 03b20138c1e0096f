-- ===== src/MultiBook/Reachable.antt =====
-- The simulators that any calls lead to from a new one.
use lobsim.Engine.State.{init}
use lobsim.MultiBook.Step.{strategy_event, is_late}
use lobsim.Base.{
  string_eq, Bool, HashMap, List, String, [], if_both, is_some, option_both, ◌∷◌, Option, false,
  if◌then◌else◌, none, refl, some, true, ℤ, leb_ℤ, not, pos, ℕ, ◌+ℤ◌,
}
use lobsim.MultiBook.Calls.{
  Call, add_book, add_stream, init_from_l2_snapshot, init_from_l3_snapshot, set_log_sink,
  set_multi_log_sink, depth_at, l2_top_n, get_best_price_ticks, apply, submit, take_step,
  take_until, take_for, state_after, run_call, run_calls,
}
use lobsim.MultiBook.Api
use lobsim.MultiBook.State.{
  MultiBookSimulator, new_simulator, Run, returned, threw, fail_or, BookEntry, BookId,
  MultiBookError, book_key, Config, Stream, has_book_key, current_ts_received, duplicate_stream,
  strategy_time_travel, submit_for_unknown_book,
}
use lobsim.MultiBook.Step.{step, step_until, step_for, submit_strategy_event, enqueue_strategy}
use lobsim.MultiBook.Filled.{Valid, EndsAs, emit_diagnostic_keeps}
use lobsim.MultiBook.Steps.{StepEnds, step-StepEnds, put_engine_keeps, apply_to_book_keeps}
use lobsim.MultiBook.Until.{Stops, step_until-Stops}
use lobsim.MultiBook.Valid.{Merges}
use lobsim.MultiBook.Changes.{Merges-strategy, Merges-stream}
use lobsim.Engine.State.{PaperTradingSimulator, init}
use lobsim.Types.{
  DiagnosticRecordCode, NormalizedLobEvent, error, apply_event_requested_for_unknown_book,
  depth_at_for_unknown_book_in_multi_book_simulator,
  duplicate_stream_for_book_in_multi_book_simulator,
  get_best_price_ticks_for_unknown_book_in_multi_book_simulator,
  l2_top_n_for_unknown_book_in_multi_book_simulator,
  set_log_sink_for_unknown_book_in_multi_book_simulator, strategy_event_time_travel,
  submit_strategy_event_for_unknown_book,
}
use lobsim.Engine.Init.{SnapshotError}
use lobsim.Engine.Query.{Level}

module _ ⦃H : HashMap⦄ where
  Valid-of :
      {A : Type 0} (Q : A → MultiBookSimulator → Type 0) (r : Run A)
      → ((a : A) (m : MultiBookSimulator) → Q a m → Valid m)
      → EndsAs Q Valid r
      → Valid (state_after r)
  Valid-of Q (returned a m) f h = f a m h
  Valid-of Q (threw e m) f h = h.1

  told_unknown :
      (id : BookId) (code : DiagnosticRecordCode) (m : MultiBookSimulator)
      → Valid m
      → Valid (Api.unknown_book id code m)
  told_unknown id code m v = emit_diagnostic_keeps Valid (λ x o p. p) _ _ _ _ _ _ m v

  Valid-fail_or :
      (e : MultiBookError) (m : MultiBookSimulator) → Valid m → Valid (state_after (fail_or e tt m))
  Valid-fail_or e m v =
      if_both (λ (r : Run (Unit {0})). Valid (state_after r)) m.cfg.fail_fast _ _ v v

  Valid-attach :
      (key : String) (entry : BookEntry) (m : MultiBookSimulator)
      → Valid m
      → Valid (Api.attach_book_sink key entry m)
  unfolding Api.attach_book_sink
  Valid-attach key entry m v = option_both Valid m.multi_sink _ _ v (λ log. v)

  Valid-add_book :
      (id : BookId) (engine : PaperTradingSimulator) (m : MultiBookSimulator)
      → Valid m
      → Valid (Api.add_book id engine m).1
  unfolding Api.add_book
  Valid-add_book id engine m v =
      if_both (λ (r : Bool × MultiBookSimulator). Valid r.1) (has_book_key (book_key id) m) _ _ v
        (Valid-attach (book_key id) _ m v)

  Valid-detach_all :
      (es : List (String × BookEntry)) (m : MultiBookSimulator)
      → Valid m
      → Valid (Api.detach_all es m)
  unfolding Api.detach_all
  Valid-detach_all [] m v = v
  Valid-detach_all ((key, entry) ∷ es) m v =
      Valid-detach_all es _ (if_both Valid (is_some (H.find key m.book_sinks)) _ _ v v)

  Valid-attach_all :
      (es : List (String × BookEntry)) (m : MultiBookSimulator)
      → Valid m
      → Valid (Api.attach_all es m)
  unfolding Api.attach_all
  Valid-attach_all [] m v = v
  Valid-attach_all ((key, entry) ∷ es) m v =
      Valid-attach_all es (Api.attach_book_sink key entry m) (Valid-attach key entry m v)

  Valid-load_book :
      (key : String) (entry : BookEntry) (e : Option SnapshotError) (engine : PaperTradingSimulator)
      (m : MultiBookSimulator)
      → Valid m
      → Valid (state_after (Api.load_book key entry (e, engine) m))
  Valid-load_book key entry none engine m v =
      put_engine_keeps Valid (λ x b o p. p) key entry engine m v
  Valid-load_book key entry (some e) engine m v =
      put_engine_keeps Valid (λ x b o p. p) key entry engine m v

  Valid-submit :
      (id : BookId) (ev : NormalizedLobEvent) (latency : Option ℤ) (m : MultiBookSimulator)
      → Valid m
      → Valid (state_after (submit_strategy_event id ev latency m))
  unfolding submit_strategy_event enqueue_strategy
  Valid-submit id ev latency m v =
      let Goal : Run (Unit {0}) → Type 0 = λ r. Valid (state_after r) in
      let told = λ (code : DiagnosticRecordCode) (a b : ℤ).
        emit_diagnostic_keeps Valid (λ x o p. p) (book_key id) code error 0 a b m v in
      let ev' : NormalizedLobEvent = strategy_event (book_key id) ev latency m in
      if_both Goal (not (has_book_key (book_key id) m)) _ _
        (Valid-fail_or submit_for_unknown_book _
          (told submit_strategy_event_for_unknown_book ev.ts_received ev.ts_exchange))
        (if_both Goal (is_late ev' m) _ _
          (Valid-fail_or strategy_time_travel _
            (told strategy_event_time_travel ev'.ts_received ev'.ts_exchange))
          (Merges-strategy m.streams m.strategy_events m.heap _ v))

  Valid-add_stream :
      (id : BookId) (src : Stream) (m : MultiBookSimulator)
      → Valid m
      → Valid (state_after (Api.add_stream id src m))
  unfolding Api.add_stream
  Valid-add_stream id src m v =
      let m' : MultiBookSimulator =
        if has_book_key (book_key id) m then m else (Api.add_new_book id m).1 in
      let v' : Valid m' =
        if_both Valid (has_book_key (book_key id) m) _ _ v
          (Valid-add_book id (init Api.default_pools) m v) in
      if_both (λ (r : Run (Unit {0})). Valid (state_after r))
        (Api.has_stream (book_key id) m.streams) _ _
        (Valid-fail_or duplicate_stream _
          (told_unknown id duplicate_stream_for_book_in_multi_book_simulator m v))
        (Merges-stream m'.streams m'.strategy_events m'.heap _ refl v')

  Valid-of_step : (went : Bool) (m : MultiBookSimulator) → StepEnds went m → Valid m
  Valid-of_step true m h = h
  Valid-of_step false m h = h.0

  Valid-run_call : (c : Call) (m : MultiBookSimulator) → Valid m → Valid (run_call c m)
  unfolding run_call Api.init_from_l2_snapshot Api.init_from_l3_snapshot Api.set_log_sink
      Api.set_multi_log_sink Api.depth_at Api.l2_top_n Api.get_best_price_ticks step_for
  Valid-run_call (add_book id engine) m v = Valid-add_book id engine m v
  Valid-run_call (add_stream id src) m v = Valid-add_stream id src m v
  Valid-run_call (init_from_l2_snapshot id sides prices quantities) m v =
      option_both (λ (r : Run (Unit {0})). Valid (state_after r)) (H.find (book_key id) m.books) _ _
        (told_unknown id apply_event_requested_for_unknown_book m v)
        (λ entry. Valid-load_book (book_key id) entry _ _ m v)
  Valid-run_call (init_from_l3_snapshot id sides prices quantities order_ids trader_ids) m v =
      option_both (λ (r : Run (Unit {0})). Valid (state_after r)) (H.find (book_key id) m.books) _ _
        (told_unknown id apply_event_requested_for_unknown_book m v)
        (λ entry. Valid-load_book (book_key id) entry _ _ m v)
  Valid-run_call (set_log_sink id sink) m v =
      option_both Valid (H.find (book_key id) m.books) _ _
        (told_unknown id set_log_sink_for_unknown_book_in_multi_book_simulator m v) (λ entry. v)
  Valid-run_call (set_multi_log_sink sink) m v =
      let m' : MultiBookSimulator = record (Api.detach_all (H.entries m.books) m) {
        multi_sink = sink;
        book_sinks = H.empty;
      } in
      Valid-attach_all (H.entries m'.books) m' (Valid-detach_all (H.entries m.books) m v)
  Valid-run_call (depth_at id side price) m v =
      option_both (λ (r : Option ℤ × MultiBookSimulator). Valid r.1) (Api.get_book id m) _ _
        (told_unknown id depth_at_for_unknown_book_in_multi_book_simulator m v) (λ engine. v)
  Valid-run_call (l2_top_n id side n) m v =
      option_both (λ (r : List Level × MultiBookSimulator). Valid r.1) (Api.get_book id m) _ _
        (told_unknown id l2_top_n_for_unknown_book_in_multi_book_simulator m v) (λ engine. v)
  Valid-run_call (get_best_price_ticks id side) m v =
      option_both (λ (r : Option ℤ × MultiBookSimulator). Valid r.1) (H.find (book_key id) m.books)
        _ _ (told_unknown id get_best_price_ticks_for_unknown_book_in_multi_book_simulator m v)
        (λ entry. v)
  Valid-run_call (apply id ev) m v =
      Valid-of (λ _. Valid) _ (λ _ _ w. w)
        (apply_to_book_keeps Valid (λ x b o p. p) (book_key id) ev m (λ _. v) v)
  Valid-run_call (submit id ev latency) m v = Valid-submit id ev latency m v
  Valid-run_call take_step m v = Valid-of StepEnds (step m) Valid-of_step (step-StepEnds m v)
  Valid-run_call (take_until bound) m v =
      Valid-of (Stops bound) (step_until bound m) (λ _ _ h. h.0) (step_until-Stops bound m v)
  Valid-run_call (take_for delta) m v =
      if_both (λ (r : Run ℕ). Valid (state_after r)) (leb_ℤ delta (pos 0)) _ _ v
        (Valid-of (Stops (current_ts_received m +ℤ delta)) _ (λ _ _ h. h.0)
          (step_until-Stops (current_ts_received m +ℤ delta) m v))

  Merges-new : (cfg : Config) → Valid (new_simulator cfg)
  unfolding new_simulator
  Merges-new cfg = record { counts = λ i. refl; stands = tt; sorted = tt }

  -- Whatever calls are made of a new simulator of several books, whether they return or throw: each event
  -- in the buffer of a stream has one entry on the heap and no other stream has one; each entry stands
  -- for the buffered event of its stream or for an event of the strategy, with its times; and no entry
  -- comes after one that stands behind it.
  pub run_calls-Merges :
      (cfg : Config) (cs : List Call)
      → let m = run_calls cs (new_simulator cfg) in Merges m.streams m.strategy_events m.heap
  unfolding run_calls
  run_calls-Merges cfg [] = Merges-new cfg
  run_calls-Merges cfg (c ∷ cs) =
      Valid-run_call c (run_calls cs (new_simulator cfg)) (run_calls-Merges cfg cs)

  -- Whatever calls were made of a new simulator of several books, the next `step` never meets an entry
  -- of the heap without an event: it throws neither of the exceptions for that. And it returns false only
  -- where no event is left: the heap is empty and all streams are exhausted.
  pub run_calls-step :
      (cfg : Config) (cs : List Call)
      → EndsAs StepEnds Valid (step (run_calls cs (new_simulator cfg)))
  run_calls-step cfg cs = step-StepEnds (run_calls cs (new_simulator cfg)) (run_calls-Merges cfg cs)

  -- Whatever calls were made of a new simulator of several books, the next `step_until` ends by itself:
  -- the fuel of the model suffices. It never meets an entry of the heap without an event. And where it
  -- returns, no event is left on the heap or the first one there is after the bound.
  pub run_calls-step_until :
      (cfg : Config) (cs : List Call) (bound : ℤ)
      → EndsAs (Stops bound) Valid (step_until bound (run_calls cs (new_simulator cfg)))
  run_calls-step_until cfg cs bound =
      step_until-Stops bound (run_calls cs (new_simulator cfg)) (run_calls-Merges cfg cs)
