-- ===== src/MultiBook/Api.antt =====
-- The books and their sinks, the streams that are added, and the calls that go to one book.
use lobsim.Base.{
  ℕ, ℤ, negsuc, Bool, true, false, Option, none, some, List, [], ◌∷◌, ◌++◌, HashMap, string_eq,
  ◌==◌, ◌||◌, is_some, if◌then◌else◌, String,
}
use lobsim.Types.{
  Side, NormalizedLobEvent, SinkCall, error, DiagnosticRecordCode,
  apply_event_requested_for_unknown_book, set_log_sink_for_unknown_book_in_multi_book_simulator,
  depth_at_for_unknown_book_in_multi_book_simulator,
  l2_top_n_for_unknown_book_in_multi_book_simulator,
  get_best_price_ticks_for_unknown_book_in_multi_book_simulator,
  duplicate_stream_for_book_in_multi_book_simulator,
}
use lobsim.Engine.State.{PaperTradingSimulator, OrderPoolConfig, init}
use lobsim.Engine.Prices
use lobsim.Engine.Init
use lobsim.Engine.Query
use lobsim.Engine.Query.{Level}
use lobsim.Engine.Update
use lobsim.MultiBook.State.{
  BookId, book_key, BookEntry, Stream, StreamState, MultiBookSimulator, emit_diagnostic,
  get_book_key, has_book_key, put_engine, Run, returned, threw, fail_or, duplicate_stream,
  snapshot_failed,
}
use lobsim.MultiBook.Step.{apply_to_book}

-- The default of `OrderPoolConfig`.
abbrev pub default_pools : OrderPoolConfig
default_pools = record { historical_capacity = 200000; paper_capacity = 100000 }

module _ ⦃H : HashMap⦄ where
  -- `attach_book_sink`.
  unfoldable pub attach_book_sink : String → BookEntry → MultiBookSimulator → MultiBookSimulator
  attach_book_sink key entry m = elim m.multi_sink [
    | none ↦ record m { books = H.assign key entry m.books }
    | some log ↦ record m {
      books =
          H.assign key (record entry { engine = Update.set_log_sink (some []) entry.engine })
            m.books;
      book_sinks = H.assign key (record { book_key = entry.key }) m.book_sinks;
    }
  ]

  unfoldable pub add_book :
      BookId → PaperTradingSimulator → MultiBookSimulator → Bool × MultiBookSimulator
  unfolding attach_book_sink
  add_book id engine m =
      let key = book_key id in
      if has_book_key key m
      then (false, m)
      else (true, attach_book_sink key (record { id = id; key = key; engine = engine }) m)

  abbrev pub add_new_book : BookId → MultiBookSimulator → Bool × MultiBookSimulator
  add_new_book id m = add_book id (init default_pools) m

  abbrev has_book : BookId → MultiBookSimulator → Bool
  has_book id m = has_book_key (book_key id) m

  abbrev pub get_book : BookId → MultiBookSimulator → Option PaperTradingSimulator
  get_book id m = get_book_key (book_key id) m

  -- A call for a book that is not there.
  abbrev pub unknown_book : BookId → DiagnosticRecordCode → MultiBookSimulator → MultiBookSimulator
  unknown_book id code m = emit_diagnostic (book_key id) code error 0 (negsuc 0) (negsuc 0) m

  -- A snapshot load on an engine, and the exception that it may throw.
  abbrev pub load_book : String → BookEntry → Init.Outcome → MultiBookSimulator → Run (Unit {0})
  load_book key entry o m = elim o.0 [
    | none ↦ returned tt (put_engine key entry o.1 m)
    | some e ↦ threw snapshot_failed (put_engine key entry o.1 m)
  ]

  unfoldable pub init_from_l2_snapshot :
      BookId → List Side → List ℤ → List ℤ → MultiBookSimulator → Run (Unit {0})
  init_from_l2_snapshot id sides prices quantities m = elim (H.find (book_key id) m.books) [
    | none ↦ returned tt (unknown_book id apply_event_requested_for_unknown_book m)
    | some entry ↦
        load_book (book_key id) entry
          (Init.init_from_l2_snapshot sides prices quantities entry.engine) m
  ]

  unfoldable pub init_from_l3_snapshot :
      BookId → List Side → List ℤ → List ℤ → List ℤ → List ℤ → MultiBookSimulator → Run (Unit {0})
  init_from_l3_snapshot id sides prices quantities order_ids trader_ids m =
      elim (H.find (book_key id) m.books) [
        | none ↦ returned tt (unknown_book id apply_event_requested_for_unknown_book m)
        | some entry ↦
            load_book (book_key id) entry
              (Init.init_from_l3_snapshot sides prices quantities order_ids trader_ids entry.engine)
              m
      ]

  unfoldable pub set_log_sink :
      BookId → Option (List SinkCall) → MultiBookSimulator → MultiBookSimulator
  set_log_sink id sink m = elim (H.find (book_key id) m.books) [
    | none ↦ unknown_book id set_log_sink_for_unknown_book_in_multi_book_simulator m
    | some entry ↦ record m {
      books =
          H.assign (book_key id) (record entry { engine = Update.set_log_sink sink entry.engine })
            m.books;
      book_sinks = H.erase (book_key id) m.book_sinks;
    }
  ]

  -- The first loop of `set_multi_log_sink`, over the books.
  unfoldable pub detach_all : List (String × BookEntry) → MultiBookSimulator → MultiBookSimulator
  detach_all [] m = m
  detach_all ((key, entry) ∷ es) m = detach_all es (
      if is_some (H.find key m.book_sinks)
      then record m {
        books =
            H.assign key (record entry { engine = Update.set_log_sink none entry.engine }) m.books;
      }
      else m)

  -- Its second loop.
  unfoldable pub attach_all : List (String × BookEntry) → MultiBookSimulator → MultiBookSimulator
  unfolding attach_book_sink
  attach_all [] m = m
  attach_all ((key, entry) ∷ es) m = attach_all es (attach_book_sink key entry m)

  unfoldable pub set_multi_log_sink :
      Option (List SinkCall) → MultiBookSimulator → MultiBookSimulator
  unfolding detach_all attach_all
  set_multi_log_sink sink m =
      let m' = record (detach_all (H.entries m.books) m) {
        multi_sink = sink;
        book_sinks = H.empty;
      } in
      attach_all (H.entries m'.books) m'

  unfoldable pub depth_at : BookId → Side → ℤ → MultiBookSimulator → Option ℤ × MultiBookSimulator
  depth_at id side price m = elim (get_book id m) [
    | none ↦ (none, unknown_book id depth_at_for_unknown_book_in_multi_book_simulator m)
    | some engine ↦ (Query.depth_at side price engine, m)
  ]

  unfoldable pub l2_top_n : BookId → Side → ℕ → MultiBookSimulator → List Level × MultiBookSimulator
  l2_top_n id side n m = elim (get_book id m) [
    | none ↦ ([], unknown_book id l2_top_n_for_unknown_book_in_multi_book_simulator m)
    | some engine ↦ (Query.l2_top_n side n engine, m)
  ]

  -- The query drops prices that are gone from the heap of the engine.
  unfoldable pub get_best_price_ticks :
      BookId → Side → MultiBookSimulator → Option ℤ × MultiBookSimulator
  get_best_price_ticks id side m = elim (H.find (book_key id) m.books) [
    | none ↦ (none, unknown_book id get_best_price_ticks_for_unknown_book_in_multi_book_simulator m)
    | some entry ↦
        let r = Prices.get_best_price_ticks side entry.engine in
        (r.0, record m { books = H.assign (book_key id) (record entry { engine = r.1 }) m.books })
  ]

  abbrev pub apply : BookId → NormalizedLobEvent → MultiBookSimulator → Run (Unit {0})
  apply id ev m = apply_to_book (book_key id) ev m

  abbrev pub has_stream : String → List StreamState → Bool
  has_stream key [] = false
  has_stream key (ss ∷ sss) = (ss.book_key == key) || has_stream key sss

  -- Both kinds of `add_stream`.
  unfoldable pub add_stream : BookId → Stream → MultiBookSimulator → Run (Unit {0})
  unfolding add_book
  add_stream id stream m =
      let key = book_key id in
      let m' = if has_book_key key m then m else (add_new_book id m).1 in
      if has_stream key m.streams
      then fail_or duplicate_stream tt
          (unknown_book id duplicate_stream_for_book_in_multi_book_simulator m)
      else returned tt (record m' {
        streams =
            m'.streams
            ++ record {
              book_key = key;
              stream = stream;
              exhausted = false;
              buffered = none;
              last_ts = none;
              seq = 0;
            }
              ∷ [];
      })
