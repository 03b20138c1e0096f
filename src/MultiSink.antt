-- ===== src/MultiSink.antt =====
-- The sinks of several books: cpp/include/lobsim/multi_log_sink.hpp. `BookScopedSink` writes the key
-- of its book on what it passes on; `InMemoryMultiLogSink` keeps the logs of all books together, with
-- an index by book, and a ledger for each book.
pub mod Index
pub mod Refs
pub mod Agrees
pub mod Scoped
pub mod Split
mod Tests
use lobsim.Base.{
  ℕ, ℤ, pos, ltb_ℤ, leb_ℤ, ◌==ℤ◌, not, Option, none, some, List, [], ◌∷◌, ◌++◌, HashMap, int_eq,
  string_eq, is_some, length, get_elem?, if◌then◌else◌, String, is_blank,
}
use lobsim.Types.{
  UpdateSource, UpdateType, add, delete, subtract, match, set, aggressive_trade, invalid,
  FillRecord, EventApplyRecord, DiagnosticRecord, SinkCall, on_fill as fill_call,
  on_event_apply as event_call, on_diagnostic as diagnostic_call, reset as reset_call, is_strategy,
  unknown_order_id_sentinel,
}
use lobsim.Ledger.{
  PaperOrderFillRole, maker, taker, PaperOrderState, PaperOrderLedgerEntry, opened, fill_entry,
  subtract_state, set_state, delete_state,
}

-- `BookScopedSink`: a record with no key gets that of the book; `reset` is not passed on.
abbrev pub tagged : String → String → String
tagged key own = if is_blank own then key else own

unfoldable pub scoped : String → SinkCall → Option SinkCall
scoped key (fill_call r) = some (fill_call (record r { book_key = tagged key r.book_key }))
scoped key (event_call r) = some (event_call (record r { book_key = tagged key r.book_key }))
scoped key (diagnostic_call r) =
    some (diagnostic_call (record r { book_key = tagged key r.book_key }))
scoped key reset_call = none

-- The records at the indices. `none` is a read out of range.
unfoldable pub records_at {ℓ} : {R : Type ℓ} → List R → List ℕ → Option (List R)
records_at rs [] = some []
records_at rs (i ∷ is) = elim (get_elem? rs i) [
  | none ↦ none
  | some r ↦ elim (records_at rs is) [ none ↦ none | some out ↦ some (r ∷ out) ]
]

module _ ⦃H : HashMap⦄ where
  -- `operator[]`: what is kept under the key, or a new value.
  abbrev pub found_or : {V : Type 0} → V → String → H.Map String V → V
  found_or new key m = elim (H.find key m) [ none ↦ new | some v ↦ v ]

  -- `index[key].push_back(n)`.
  pub push_index : String → ℕ → H.Map String (List ℕ) → H.Map String (List ℕ)
  push_index key n index = H.assign key (found_or [] key index ++ n ∷ []) index

  -- The body of `fills_for`, `events_for` and `diagnostics_for`.
  pub records_for : {R : Type 0} → List R → H.Map String (List ℕ) → String → Option (List R)
  unfolding records_at
  records_for rs index key = elim (H.find key index) [ none ↦ some [] | some is ↦ records_at rs is ]

  pub record InMemoryMultiLogSink : Type 0 where
    pub fills : List FillRecord
    pub events : List EventApplyRecord
    pub diagnostics : List DiagnosticRecord
    pub fill_index : H.Map String (List ℕ)
    pub event_index : H.Map String (List ℕ)
    pub diag_index : H.Map String (List ℕ)
    pub paper_ledger : H.Map String (H.Map ℤ PaperOrderLedgerEntry)
    pub rejected_strategy_events : H.Map String (List EventApplyRecord)

  abbrev pub empty_multi_sink : InMemoryMultiLogSink
  empty_multi_sink = record {
    fills = [];
    events = [];
    diagnostics = [];
    fill_index = H.empty;
    event_index = H.empty;
    diag_index = H.empty;
    paper_ledger = H.empty;
    rejected_strategy_events = H.empty;
  }

  abbrev pub fills_for : String → InMemoryMultiLogSink → Option (List FillRecord)
  fills_for key m = records_for m.fills m.fill_index key

  abbrev pub events_for : String → InMemoryMultiLogSink → Option (List EventApplyRecord)
  events_for key m = records_for m.events m.event_index key

  abbrev pub diagnostics_for : String → InMemoryMultiLogSink → Option (List DiagnosticRecord)
  diagnostics_for key m = records_for m.diagnostics m.diag_index key

  abbrev pub paper_ledger_for : String → InMemoryMultiLogSink → H.Map ℤ PaperOrderLedgerEntry
  paper_ledger_for key m = found_or H.empty key m.paper_ledger

  abbrev pub find_book_order : String → ℤ → InMemoryMultiLogSink → Option PaperOrderLedgerEntry
  find_book_order key id m = elim (H.find key m.paper_ledger) [
    | none ↦ none
    | some ledger ↦ H.find id ledger
  ]

  abbrev rejected_strategy_events_for : String → InMemoryMultiLogSink → List EventApplyRecord
  rejected_strategy_events_for key m = found_or [] key m.rejected_strategy_events

  -- A fill on the entry that was found in a ledger.
  abbrev pub fill_in_ledger :
      ℤ
      → PaperOrderFillRole
      → FillRecord
      → H.Map ℤ PaperOrderLedgerEntry
      → Option (H.Map ℤ PaperOrderLedgerEntry)
  fill_in_ledger id role r ledger = elim (H.find id ledger) [
    | none ↦ none
    | some entry ↦ some (H.assign id (fill_entry role r entry) ledger)
  ]

  -- The ledger of the book, with the fill written through the iterators.
  abbrev pub fill_book :
      String → ℤ → PaperOrderFillRole → FillRecord → InMemoryMultiLogSink → InMemoryMultiLogSink
  fill_book key id role r m = elim (H.find key m.paper_ledger) [
    | none ↦ m
    | some ledger ↦ elim (fill_in_ledger id role r ledger) [
      | none ↦ m
      | some ledger' ↦ record m { paper_ledger = H.assign key ledger' m.paper_ledger }
    ]
  ]

  unfoldable pub apply_strategy_fill :
      String
      → ℤ
      → UpdateSource
      → PaperOrderFillRole
      → FillRecord
      → InMemoryMultiLogSink
      → InMemoryMultiLogSink
  apply_strategy_fill key id source role r m =
      if not (is_strategy source)
      then m
      else if id ==ℤ unknown_order_id_sentinel
      then m
      else fill_book key id role r m

  -- The references `ledger` and `rejected` of `update_strategy_order`.
  pub record BookRefs : Type 0 where
    pub ledger : H.Map ℤ PaperOrderLedgerEntry
    pub rejected : List EventApplyRecord

  abbrev pub refs_at : String → InMemoryMultiLogSink → BookRefs
  refs_at key m = record {
    ledger = found_or H.empty key m.paper_ledger;
    rejected = found_or [] key m.rejected_strategy_events;
  }

  -- The maps behind the references: `operator[]` has made the entries, and a write changes them.
  abbrev pub write_refs : String → BookRefs → InMemoryMultiLogSink → InMemoryMultiLogSink
  write_refs key refs m = record m {
    paper_ledger = H.assign key refs.ledger m.paper_ledger;
    rejected_strategy_events = H.assign key refs.rejected m.rejected_strategy_events;
  }

  abbrev push_rejected : EventApplyRecord → BookRefs → BookRefs
  push_rejected r refs = record refs { rejected = refs.rejected ++ r ∷ [] }

  abbrev pub change_order : ℤ → (PaperOrderState → PaperOrderState) → BookRefs → BookRefs
  change_order id f refs = elim (H.find id refs.ledger) [
    | none ↦ refs
    | some entry ↦ record refs {
      ledger = H.assign id (record entry { state = f entry.state }) refs.ledger;
    }
  ]

  -- The `switch` on the type.
  pub book_event : UpdateType → EventApplyRecord → BookRefs → BookRefs
  book_event add r refs =
      if leb_ℤ r.qty_lots (pos 0)
      then push_rejected r refs
      else if is_some (H.find r.order_id refs.ledger)
      then push_rejected r refs
      else record refs { ledger = H.emplace r.order_id (opened r) refs.ledger }
  book_event subtract r refs =
      if ltb_ℤ r.qty_lots (pos 0)
      then push_rejected r refs
      else change_order r.order_id (subtract_state r) refs
  book_event set r refs = change_order r.order_id (set_state r) refs
  book_event delete r refs = change_order r.order_id (delete_state r) refs
  book_event match r refs = refs
  book_event aggressive_trade r refs = refs
  book_event invalid r refs = refs

  unfoldable pub update_strategy_order :
      EventApplyRecord → InMemoryMultiLogSink → InMemoryMultiLogSink
  unfolding book_event
  update_strategy_order r m =
      if is_strategy r.source
      then write_refs r.book_key (book_event r.update_type r (refs_at r.book_key m)) m
      else m

  unfoldable pub on_fill : FillRecord → InMemoryMultiLogSink → InMemoryMultiLogSink
  unfolding apply_strategy_fill push_index
  on_fill r m = apply_strategy_fill r.book_key r.taker_order_id r.taker_source taker r (
      apply_strategy_fill r.book_key r.maker_order_id r.maker_source maker r (record m {
        fill_index = push_index r.book_key (length m.fills) m.fill_index;
        fills = m.fills ++ r ∷ [];
      }))

  unfoldable pub on_event_apply : EventApplyRecord → InMemoryMultiLogSink → InMemoryMultiLogSink
  unfolding update_strategy_order push_index
  on_event_apply r m = update_strategy_order r (record m {
    event_index = push_index r.book_key (length m.events) m.event_index;
    events = m.events ++ r ∷ [];
  })

  unfoldable pub on_diagnostic : DiagnosticRecord → InMemoryMultiLogSink → InMemoryMultiLogSink
  unfolding push_index
  on_diagnostic r m = record m {
    diag_index = push_index r.book_key (length m.diagnostics) m.diag_index;
    diagnostics = m.diagnostics ++ r ∷ [];
  }

  unfoldable pub reset : InMemoryMultiLogSink → InMemoryMultiLogSink
  reset m = empty_multi_sink

  pub drain_fills : InMemoryMultiLogSink → List FillRecord × InMemoryMultiLogSink
  drain_fills m = (m.fills, record m { fills = []; fill_index = H.empty })

  pub drain_events : InMemoryMultiLogSink → List EventApplyRecord × InMemoryMultiLogSink
  drain_events m = (m.events, record m { events = []; event_index = H.empty })

  pub drain_diagnostics : InMemoryMultiLogSink → List DiagnosticRecord × InMemoryMultiLogSink
  drain_diagnostics m = (m.diagnostics, record m { diagnostics = []; diag_index = H.empty })

  -- What a client may do to the sink.
  pub data Use : Type 0 where
    call : SinkCall → Use
    take_fills take_events take_diagnostics : Use

  pub receive : SinkCall → InMemoryMultiLogSink → InMemoryMultiLogSink
  unfolding on_fill on_event_apply on_diagnostic reset
  receive (fill_call r) m = on_fill r m
  receive (event_call r) m = on_event_apply r m
  receive (diagnostic_call r) m = on_diagnostic r m
  receive reset_call m = reset m

  pub use_sink : Use → InMemoryMultiLogSink → InMemoryMultiLogSink
  unfolding receive drain_fills drain_events drain_diagnostics
  use_sink (call c) m = receive c m
  use_sink take_fills m = (drain_fills m).1
  use_sink take_events m = (drain_events m).1
  use_sink take_diagnostics m = (drain_diagnostics m).1

  -- The uses of a sink, the last one first.
  pub use_all : List Use → InMemoryMultiLogSink → InMemoryMultiLogSink
  unfolding use_sink
  use_all [] m = m
  use_all (u ∷ us) m = use_sink u (use_all us m)

  -- Calls alone.
  pub receive_each : List SinkCall → InMemoryMultiLogSink → InMemoryMultiLogSink
  unfolding receive
  receive_each [] m = m
  receive_each (c ∷ cs) m = receive c (receive_each cs m)

  -- The calls of the engines through their `BookScopedSink`s, each with the key of its engine's book.
  abbrev pub pass_on : String → SinkCall → InMemoryMultiLogSink → InMemoryMultiLogSink
  pass_on key c m = elim (scoped key c) [ none ↦ m | some c' ↦ receive c' m ]

  pub send_all : List (String × SinkCall) → InMemoryMultiLogSink → InMemoryMultiLogSink
  unfolding receive scoped
  send_all [] m = m
  send_all ((key, c) ∷ cs) m = pass_on key c (send_all cs m)
