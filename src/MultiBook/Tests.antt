-- ===== src/MultiBook/Tests.antt =====
-- A simulator of two books with a stream each and an event of the strategy.
use lobsim.Base.{
  assoc_map, string_eq, List, [], pos, refl, some, true, ◌∷◌, ◌≡◌, String, false, none, ◌==◌,
}
use lobsim.Engine.Tests.{quotes, buyer}
use lobsim.MultiBook.Calls.{Call, add_stream, submit, take_step, set_multi_log_sink, run_calls}
use lobsim.MultiBook.State.{
  BookId, MultiBookSimulator, new_simulator, default_config, normalized, adapted,
}
use lobsim.MultiBook.Api
use lobsim.Base.{◌+ℤ◌}
use lobsim.Engine.Update
use lobsim.Engine.Update.{update}
use lobsim.Engine.State.{init}
use lobsim.Engine.Add.{on_add}
use lobsim.Engine.Cross.{take_paper_levels}
use lobsim.Engine.Prices.{best_opposite_price, best_paper_opposite_price}
use lobsim.Pool.{acquire}
use lobsim.MultiBook.State.{put_engine}
use lobsim.MultiBook.Merge.{heap_compare}
use lobsim.MultiBook.State.{book_key}
use lobsim.MultiBook.Step.{submit_strategy_event, step, step_until, apply_to_book, is_late}
use lobsim.Types.{NormalizedLobEvent}
use lobsim.MultiBook.Bounded.{run_calls-RunsBy}
use lobsim.MultiBook.Moves.{RunsBy}
use lobsim.MultiBook.Filled.{EndsAs, Valid}
use lobsim.MultiBook.Isolation.{apply_to_book-books}
use lobsim.MultiBook.Keeps.{Always}
use lobsim.MultiBook.Reachable.{run_calls-Merges, run_calls-step, run_calls-step_until}
use lobsim.MultiBook.Steps.{StepEnds}
use lobsim.MultiBook.Time.{NotBefore, current_time-NotBefore}
use lobsim.MultiBook.Until.{Stops}
use lobsim.MultiBook.Valid.{Merges}

abbrev btc : BookId
btc = record { venue = "X"; symbol = "BTC" }

abbrev eth : BookId
eth = record { venue = ""; symbol = "ETH" }

abbrev later : NormalizedLobEvent
later = record buyer { ts_received = pos 7 }

-- The last call first.
abbrev calls : List Call
calls =
    submit btc buyer (some (pos 2))
    ∷ take_step
    ∷ add_stream eth (adapted true (some later ∷ []))
    ∷ add_stream btc (normalized quotes)
    ∷ set_multi_log_sink (some [])
    ∷ []

abbrev two_books : MultiBookSimulator
two_books = run_calls calls (new_simulator default_config)

times : two_books.current_time ≡ some (pos 1)
unfolding run_calls submit_strategy_event step Api.add_stream Api.set_multi_log_sink new_simulator
    book_key heap_compare put_engine update on_add Update.set_log_sink init take_paper_levels
    best_opposite_price best_paper_opposite_price acquire ◌+ℤ◌
times = refl

mono : two_books.cfg.require_monotonic_ts_received ≡ true
unfolding run_calls submit_strategy_event step Api.add_stream Api.set_multi_log_sink new_simulator
    book_key heap_compare put_engine update on_add Update.set_log_sink init take_paper_levels
    best_opposite_price best_paper_opposite_price acquire ◌+ℤ◌
mono = refl

run_calls-Merges_example : Merges two_books.streams two_books.strategy_events two_books.heap
run_calls-Merges_example = run_calls-Merges default_config calls

run_calls-step_example : EndsAs StepEnds Valid (step two_books)
run_calls-step_example = run_calls-step default_config calls

run_calls-step_until_example : EndsAs (Stops (pos 5)) Valid (step_until (pos 5) two_books)
run_calls-step_until_example = run_calls-step_until default_config calls (pos 5)

run_calls-RunsBy_example : RunsBy (pos 5) two_books (step_until (pos 5) two_books)
run_calls-RunsBy_example = run_calls-RunsBy default_config calls (pos 5)

current_time-NotBefore_example :
    Always (λ m'. NotBefore two_books.current_time m'.current_time) (step two_books)
    × Always (λ m'. NotBefore two_books.current_time m'.current_time) (step_until (pos 5) two_books)
    × Always
        (λ m'. NotBefore two_books.current_time m'.current_time)
        (apply_to_book "X:BTC" later two_books)
current_time-NotBefore_example = current_time-NotBefore two_books (pos 5) "X:BTC" later mono

apply_to_book-books_example :
    ((k : String)
      → ("ETH" == k) ≡ false
      → Always
          (λ x. assoc_map.find k x.books ≡ assoc_map.find k two_books.books)
          (apply_to_book "ETH" later two_books))
    × (assoc_map.find "ETH" two_books.books ≡ none
        → Always
            (λ x. (x.books ≡ two_books.books) × (x.current_time ≡ two_books.current_time))
            (apply_to_book "ETH" later two_books))
    × (is_late later two_books ≡ true
        → Always
            (λ x. (x.books ≡ two_books.books) × (x.current_time ≡ two_books.current_time))
            (apply_to_book "ETH" later two_books))
apply_to_book-books_example = apply_to_book-books "ETH" later two_books
