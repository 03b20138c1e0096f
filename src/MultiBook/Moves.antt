-- ===== src/MultiBook/Moves.antt =====
-- The merge as a machine: a move fills the buffer of a stream, or takes the first entry from the heap and
-- applies its event. The events that the moves apply are those that stand in the buffers and in the list of
-- the strategy's events.
use lobsim.Base.{string_eq, HashMap, List, ℕ, zero, suc, ◌∷◌, ℤ, ◌≤ℤ◌, ◌≡◌, some, none, get_elem?}
use lobsim.Types.{NormalizedLobEvent}
use lobsim.MultiBook.Merge.{HeapEntry, stream, strategy}
use lobsim.MultiBook.State.{MultiBookSimulator, Run, returned, threw, StreamState, StrategyItem}
use lobsim.MultiBook.Stream.{fill_buffer, put_stream, prime_loop, prime_streams}
use lobsim.MultiBook.Step.{apply_to_book}
use lobsim.MultiBook.Calls.{state_after}
use lobsim.MultiBook.Keeps.{Always, Always-then_run}

module _ ⦃H : HashMap⦄ where
  -- The state after the first entry was taken, which stands for the buffered event of a stream.
  abbrev take_stream :
      HeapEntry
      → List HeapEntry
      → StreamState
      → NormalizedLobEvent
      → MultiBookSimulator
      → Run (Unit {0})
  take_stream entry rest ss ev m =
      apply_to_book ss.book_key ev
        (put_stream entry.stream_index (record ss { buffered = none }) (record m { heap = rest }))

  -- And one that stands for an event of the strategy.
  abbrev take_strategy : List HeapEntry → StrategyItem → MultiBookSimulator → Run (Unit {0})
  take_strategy rest item m = apply_to_book item.ev.symbol_id item.ev (record m { heap = rest })

  -- Moves from a state to another, of which `n` take an entry, none of them with an event after the bound.
  pub data MovesBy (bound : ℤ) (start : MultiBookSimulator) : ℕ → MultiBookSimulator → Type 0 where
    begun : MovesBy bound start zero start
    filled :
        (n : ℕ) (m : MultiBookSimulator) (index : ℕ)
        → MovesBy bound start n m
        → MovesBy bound start n (state_after (fill_buffer index m))
    took_stream :
        (n : ℕ) (m : MultiBookSimulator) (entry : HeapEntry) (rest : List HeapEntry)
        (ss : StreamState) (ev : NormalizedLobEvent)
        → m.heap ≡ entry ∷ rest
        → entry.kind ≡ stream
        → get_elem? m.streams entry.stream_index ≡ some ss
        → ss.buffered ≡ some ev
        → ev.ts_received ≤ℤ bound
        → MovesBy bound start n m
        → MovesBy bound start (suc n) (state_after (take_stream entry rest ss ev m))
    took_strategy :
        (n : ℕ) (m : MultiBookSimulator) (entry : HeapEntry) (rest : List HeapEntry)
        (item : StrategyItem)
        → m.heap ≡ entry ∷ rest
        → entry.kind ≡ strategy
        → get_elem? m.strategy_events entry.strategy_index ≡ some item
        → item.ev.ts_received ≤ℤ bound
        → MovesBy bound start n m
        → MovesBy bound start (suc n) (state_after (take_strategy rest item m))

  -- A call that returns a number moved on by so many entries; one that throws by some.
  abbrev pub RunsBy : ℤ → MultiBookSimulator → Run ℕ → Type 0
  RunsBy bound start (returned n m) = MovesBy bound start n m
  RunsBy bound start (threw e m) = (n : ℕ) × MovesBy bound start n m

  Always-state_after :
      {A : Type 0} (P : MultiBookSimulator → Type 0) (r : Run A) → P (state_after r) → Always P r
  Always-state_after P (returned a m) h = h
  Always-state_after P (threw e m) h = h

  pub MovesBy-fill_buffer :
      (bound : ℤ) (start : MultiBookSimulator) (n index : ℕ) (m : MultiBookSimulator)
      → MovesBy bound start n m
      → Always (MovesBy bound start n) (fill_buffer index m)
  MovesBy-fill_buffer bound start n index m h =
      Always-state_after (MovesBy bound start n) (fill_buffer index m) (filled n m index h)

  MovesBy-prime_loop :
      (bound : ℤ) (start : MultiBookSimulator) (n left index : ℕ) (m : MultiBookSimulator)
      → MovesBy bound start n m
      → Always (MovesBy bound start n) (prime_loop left index m)
  unfolding prime_loop
  MovesBy-prime_loop bound start n zero index m h = h
  MovesBy-prime_loop bound start n (suc left) index m h =
      Always-then_run (MovesBy bound start n) (fill_buffer index m) _
        (MovesBy-fill_buffer bound start n index m h)
        (λ _ x. MovesBy-prime_loop bound start n left (suc index) x)

  pub MovesBy-prime_streams :
      (bound : ℤ) (start : MultiBookSimulator) (n : ℕ) (m : MultiBookSimulator)
      → MovesBy bound start n m
      → Always (MovesBy bound start n) (prime_streams m)
  unfolding prime_streams
  MovesBy-prime_streams bound start n m h = MovesBy-prime_loop bound start n _ 0 m h
