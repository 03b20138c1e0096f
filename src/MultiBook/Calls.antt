-- ===== src/MultiBook/Calls.antt =====
-- Any sequence of calls of the simulator of several books.
use lobsim.Base.{ℕ, ℤ, Option, List, [], ◌∷◌, HashMap}
use lobsim.Types.{Side, NormalizedLobEvent, SinkCall}
use lobsim.Engine.State.{PaperTradingSimulator}
use lobsim.MultiBook.State.{BookId, Stream, MultiBookSimulator, Run, returned, threw}
use lobsim.MultiBook.Step.{step, step_until, step_for, submit_strategy_event}
use lobsim.MultiBook.Api

module _ ⦃H : HashMap⦄ where
  pub data Call : Type 0 where
    add_book : BookId → PaperTradingSimulator → Call
    add_stream : BookId → Stream → Call
    init_from_l2_snapshot : BookId → List Side → List ℤ → List ℤ → Call
    init_from_l3_snapshot : BookId → List Side → List ℤ → List ℤ → List ℤ → List ℤ → Call
    set_log_sink : BookId → Option (List SinkCall) → Call
    set_multi_log_sink : Option (List SinkCall) → Call
    depth_at : BookId → Side → ℤ → Call
    l2_top_n : BookId → Side → ℕ → Call
    get_best_price_ticks : BookId → Side → Call
    apply : BookId → NormalizedLobEvent → Call
    submit : BookId → NormalizedLobEvent → Option ℤ → Call
    take_step : Call
    take_until take_for : ℤ → Call

  -- The simulator after a call, which may have thrown.
  abbrev pub state_after : {A : Type 0} → Run A → MultiBookSimulator
  state_after (returned a m) = m
  state_after (threw e m) = m

  unfoldable pub run_call : Call → MultiBookSimulator → MultiBookSimulator
  run_call (add_book id engine) m = (Api.add_book id engine m).1
  run_call (add_stream id stream) m = state_after (Api.add_stream id stream m)
  run_call (init_from_l2_snapshot id sides prices quantities) m =
      state_after (Api.init_from_l2_snapshot id sides prices quantities m)
  run_call (init_from_l3_snapshot id sides prices quantities order_ids trader_ids) m =
      state_after (Api.init_from_l3_snapshot id sides prices quantities order_ids trader_ids m)
  run_call (set_log_sink id sink) m = Api.set_log_sink id sink m
  run_call (set_multi_log_sink sink) m = Api.set_multi_log_sink sink m
  run_call (depth_at id side price) m = (Api.depth_at id side price m).1
  run_call (l2_top_n id side n) m = (Api.l2_top_n id side n m).1
  run_call (get_best_price_ticks id side) m = (Api.get_best_price_ticks id side m).1
  run_call (apply id ev) m = state_after (Api.apply id ev m)
  run_call (submit id ev latency) m = state_after (submit_strategy_event id ev latency m)
  run_call take_step m = state_after (step m)
  run_call (take_until bound) m = state_after (step_until bound m)
  run_call (take_for delta) m = state_after (step_for delta m)

  -- The calls, the last one first.
  unfoldable pub run_calls : List Call → MultiBookSimulator → MultiBookSimulator
  unfolding run_call
  run_calls [] m = m
  run_calls (c ∷ cs) m = run_call c (run_calls cs m)
