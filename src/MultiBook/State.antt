-- ===== src/MultiBook/State.antt =====
-- The state of the simulator of several books, its diagnostics, and the calls that the engines make of
-- their sinks.
use lobsim.Base.{
  ℕ, ℤ, pos, Bool, true, Option, none, some, List, [], ◌∷◌, ◌++◌, HashMap, string_eq, is_some,
  is_blank, if◌then◌else◌, String,
}
use Prim.Native.String.{◌++◌ as text_append}
use lobsim.Types.{
  NormalizedLobEvent, SinkCall, on_diagnostic, DiagnosticRecordCode, DiagnosticRecordSeverity,
}
use lobsim.MultiSink.{scoped}
use lobsim.Engine.State.{PaperTradingSimulator}
use lobsim.MultiBook.Merge.{HeapEntry}

pub record BookId : Type 0 where
  pub venue : String
  pub symbol : String

pub record Config : Type 0 where
  pub require_monotonic_ts_received : Bool
  pub fail_fast : Bool

-- The exceptions. The last two are those of an adapter and of a snapshot load.
pub data MultiBookError : Type 0 where
  submit_for_unknown_book strategy_time_travel invalid_strategy_heap_entry : MultiBookError
  heap_entry_without_event duplicate_stream non_monotonic_ts non_monotonic_stream : MultiBookError
  normalization_failed snapshot_failed : MultiBookError

-- A stream, by what its source has left. An adapter throws on a raw event, or refuses it, where
-- `none` stands; `fail_fast` is kept from when the stream was added.
pub data Stream : Type 0 where
  adapted : Bool → List (Option NormalizedLobEvent) → Stream
  normalized : List NormalizedLobEvent → Stream

-- `buffered` stands for `has_buffered` and `buffered`, and `last_ts` for `has_last_ts` and `last_ts`.
pub record StreamState : Type 0 where
  pub book_key : String
  pub stream : Stream
  pub exhausted : Bool
  pub buffered : Option NormalizedLobEvent
  pub last_ts : Option ℤ
  pub seq : ℕ

pub record StrategyItem : Type 0 where
  pub ev : NormalizedLobEvent
  pub insertion_seq : ℕ

pub record BookScopedSink : Type 0 where
  pub book_key : String

abbrev pub default_config : Config
default_config = record { require_monotonic_ts_received = true; fail_fast = true }

unfoldable pub book_key : BookId → String
book_key id =
    if is_blank id.venue then id.symbol else text_append (text_append id.venue ":") id.symbol

-- What a `BookScopedSink` passes on of the calls of its engine, the last one first.
scoped_calls : String → List SinkCall → List SinkCall
unfolding scoped
scoped_calls key [] = []
scoped_calls key (c ∷ cs) =
    let rest = scoped_calls key cs in elim (scoped key c) [ none ↦ rest | some c' ↦ c' ∷ rest ]

module _ ⦃H : HashMap⦄ where
  pub record BookEntry : Type 0 where
    pub id : BookId
    pub key : String
    pub engine : PaperTradingSimulator

  -- `multi_sink` is `none` for `nullptr`, and else the calls that it was given, the last one first.
  -- `current_time` stands for `has_current_time_` and `current_ts_received_`.
  pub record MultiBookSimulator : Type 0 where
    pub cfg : Config
    pub book_sinks : H.Map String BookScopedSink
    pub books : H.Map String BookEntry
    pub multi_sink : Option (List SinkCall)
    pub streams : List StreamState
    pub heap : List HeapEntry
    pub strategy_events : List StrategyItem
    pub strategy_seq_counter : ℕ
    pub current_time : Option ℤ

  unfoldable pub new_simulator : Config → MultiBookSimulator
  new_simulator cfg = record {
    cfg = cfg;
    book_sinks = H.empty;
    books = H.empty;
    multi_sink = none;
    streams = [];
    heap = [];
    strategy_events = [];
    strategy_seq_counter = 0;
    current_time = none;
  }

  -- `current_ts_received_`, which is 0 until an event has been applied.
  abbrev pub current_ts_received : MultiBookSimulator → ℤ
  current_ts_received m = elim m.current_time [ none ↦ pos 0 | some t ↦ t ]

  -- A call on the sink of all books, where there is one.
  abbrev tell : List SinkCall → MultiBookSimulator → MultiBookSimulator
  tell cs m = elim m.multi_sink [ none ↦ m | some log ↦ record m { multi_sink = some (cs ++ log) } ]

  unfoldable pub emit_diagnostic :
      String
      → DiagnosticRecordCode
      → DiagnosticRecordSeverity
      → ℕ
      → ℤ
      → ℤ
      → MultiBookSimulator
      → MultiBookSimulator
  emit_diagnostic key code severity seq ts_received ts_exchange m =
      tell
        (on_diagnostic (record {
          seq = seq;
          ts_exchange = ts_exchange;
          ts_received = ts_received;
          code = code;
          severity = severity;
          book_key = key;
        })
          ∷ [])
        m

  abbrev pub get_book_key : String → MultiBookSimulator → Option PaperTradingSimulator
  get_book_key key m = elim (H.find key m.books) [ none ↦ none | some e ↦ some e.engine ]

  abbrev pub has_book_key : String → MultiBookSimulator → Bool
  has_book_key key m = is_some (H.find key m.books)

  -- The engine of a book after a call on it. What it has told a `BookScopedSink` is passed on.
  unfoldable pub put_engine :
      String → BookEntry → PaperTradingSimulator → MultiBookSimulator → MultiBookSimulator
  unfolding scoped_calls
  put_engine key entry engine m = elim (H.find key m.book_sinks) [
    | none ↦ record m { books = H.assign key (record entry { engine = engine }) m.books }
    | some sink ↦ elim engine.sink [
      | none ↦ record m { books = H.assign key (record entry { engine = engine }) m.books }
      | some calls ↦ tell (scoped_calls sink.book_key calls) (record m {
        books = H.assign key (record entry { engine = record engine { sink = some [] } }) m.books;
      })
    ]
  ]

  -- How a call ends: with a value, or with an exception; the state is the simulator's in both cases.
  pub data Run (A : Type 0) : Type 0 where
    returned : A → MultiBookSimulator → Run A
    threw : MultiBookError → MultiBookSimulator → Run A

  -- What follows a call that returns.
  abbrev pub then_run : {A B : Type 0} → Run A → (A → MultiBookSimulator → Run B) → Run B
  then_run (returned a m) f = f a m
  then_run (threw e m) f = threw e m

  -- `if (cfg_.fail_fast) throw`, and else the value.
  abbrev pub fail_or : {A : Type 0} → MultiBookError → A → MultiBookSimulator → Run A
  fail_or e a m = if m.cfg.fail_fast then threw e m else returned a m
