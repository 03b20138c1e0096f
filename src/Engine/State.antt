-- ===== src/Engine/State.antt =====
-- The state of `PaperTradingSimulator` (cpp/include/lobsim/paper_trading_simulator.hpp), over any hash
-- map, and what its handlers write to the sink.
use lobsim.Base.{ℕ, ℤ, pos, Option, none, some, List, [], ◌∷◌, HashMap, int_eq}
use lobsim.Types.{
  Side, sell, buy, UpdateSource, historical, NormalizedLobEvent, SinkCall, on_diagnostic,
  DiagnosticRecordCode, DiagnosticRecordSeverity,
}
use lobsim.Pool.{NodePool, empty_pool, deref}
use lobsim.Fenwick.{FenwickTree, empty_tree}

pub data PaperOrderStatus : Type 0 where
  open_order partially_filled filled cancelled rejected : PaperOrderStatus

pub record PaperOrder : Type 0 where
  pub original_event : NormalizedLobEvent
  pub status : PaperOrderStatus
  pub remaining_qty : ℤ
  pub placement_seq : ℕ
  pub paper_index : ℕ

pub record OrderPoolConfig : Type 0 where
  pub historical_capacity : ℕ
  pub paper_capacity : ℕ

-- What an `OrderNode` holds beside what the pool keeps in each node.
pub record OrderNode : Type 0 where
  pub order_id : ℤ
  pub trader_id : ℤ
  pub qty : ℤ
  pub source : UpdateSource
  pub arrival_seq : ℕ

pub record PaperOrderNode : Type 0 where
  pub order_id : ℤ

abbrev pub blank_order_node : OrderNode
blank_order_node = record {
  order_id = pos 0;
  trader_id = pos 0;
  qty = pos 0;
  source = historical;
  arrival_seq = 0;
}

abbrev pub blank_paper_node : PaperOrderNode
blank_paper_node = record { order_id = pos 0 }

-- `node` is a pool index, and `none` for `nullptr`.
pub record OrderInfo : Type 0 where
  pub side : Side
  pub price_ticks : ℤ
  pub node : Option ℕ

pub record PaperOrderInfo : Type 0 where
  pub side : Side
  pub price_ticks : ℤ
  pub node : Option ℕ

-- `OrderPriorityQueue`: the pool indices of the linked nodes, front first.
abbrev pub OrderPriorityQueue : Type 0
OrderPriorityQueue = List ℕ

module _ ⦃H : HashMap⦄ where
  abbrev pub Book : Type 0
  Book = H.Map ℤ OrderPriorityQueue

  pub record PaperOrderLevel : Type 0 where
    pub orders : List ℕ
    pub queued_lots : ℤ
    pub market_seqs : List ℕ
    pub market_qty : FenwickTree
    pub market_index_by_seq : H.Map ℕ ℕ
    pub paper_qty : FenwickTree
    pub next_paper_index : ℕ

  abbrev pub blank_level : PaperOrderLevel
  blank_level = record {
    orders = [];
    queued_lots = pos 0;
    market_seqs = [];
    market_qty = empty_tree;
    market_index_by_seq = H.empty;
    paper_qty = empty_tree;
    next_paper_index = 0;
  }

  -- `sink` is `none` for `nullptr`, and else the calls that the sink was given, the last one first.
  pub record PaperTradingSimulator : Type 0 where
    pub seq : ℕ
    pub order_arrival_seq : ℕ
    pub bids : Book
    pub asks : Book
    pub bids_heap : List ℤ
    pub asks_heap : List ℤ
    pub order_info : H.Map ℤ OrderInfo
    pub paper_orders : H.Map ℤ PaperOrder
    pub paper_order_info : H.Map ℤ PaperOrderInfo
    pub paper_bids : H.Map ℤ PaperOrderLevel
    pub paper_asks : H.Map ℤ PaperOrderLevel
    pub sink : Option (List SinkCall)
    pub pool_config : OrderPoolConfig
    pub order_pool : NodePool OrderNode
    pub paper_pool : NodePool PaperOrderNode

  -- The constructor `PaperTradingSimulator(pool_config)`.
  unfoldable pub init : OrderPoolConfig → PaperTradingSimulator
  init config = record {
    seq = 0;
    order_arrival_seq = 0;
    bids = H.empty;
    asks = H.empty;
    bids_heap = [];
    asks_heap = [];
    order_info = H.empty;
    paper_orders = H.empty;
    paper_order_info = H.empty;
    paper_bids = H.empty;
    paper_asks = H.empty;
    sink = none;
    pool_config = config;
    order_pool = empty_pool;
    paper_pool = empty_pool;
  }

  -- `side == Side::BUY ? bids : asks`, and so for the heaps and the paper levels.
  abbrev pub book : Side → PaperTradingSimulator → Book
  book buy s = s.bids
  book sell s = s.asks

  abbrev pub with_book : Side → Book → PaperTradingSimulator → PaperTradingSimulator
  with_book buy b s = record s { bids = b }
  with_book sell b s = record s { asks = b }

  abbrev pub heap : Side → PaperTradingSimulator → List ℤ
  heap buy s = s.bids_heap
  heap sell s = s.asks_heap

  abbrev pub with_heap : Side → List ℤ → PaperTradingSimulator → PaperTradingSimulator
  with_heap buy h s = record s { bids_heap = h }
  with_heap sell h s = record s { asks_heap = h }

  abbrev pub paper_levels : Side → PaperTradingSimulator → H.Map ℤ PaperOrderLevel
  paper_levels buy s = s.paper_bids
  paper_levels sell s = s.paper_asks

  abbrev pub with_paper_levels :
      Side → H.Map ℤ PaperOrderLevel → PaperTradingSimulator → PaperTradingSimulator
  with_paper_levels buy m s = record s { paper_bids = m }
  with_paper_levels sell m s = record s { paper_asks = m }

  -- `book.find(px)`, as the queue that is there, or the empty one.
  abbrev pub queue_at : ℤ → Book → OrderPriorityQueue
  queue_at px b = elim (H.find px b) [ none ↦ [] | some q ↦ q ]

  abbrev pub order_node : PaperTradingSimulator → ℕ → OrderNode
  order_node s i = (deref blank_order_node s.order_pool i).content

  abbrev pub paper_node : PaperTradingSimulator → ℕ → PaperOrderNode
  paper_node s i = (deref blank_paper_node s.paper_pool i).content

  -- A call of the sink, if there is one.
  abbrev pub emit : SinkCall → PaperTradingSimulator → PaperTradingSimulator
  emit c s = record s { sink = elim s.sink [ none ↦ none | some cs ↦ some (c ∷ cs) ] }

  unfoldable pub emit_diagnostic :
      NormalizedLobEvent
      → DiagnosticRecordCode
      → DiagnosticRecordSeverity
      → PaperTradingSimulator
      → PaperTradingSimulator
  emit_diagnostic e c v s =
      emit
        (on_diagnostic (record {
          seq = s.seq;
          ts_exchange = e.ts_exchange;
          ts_received = e.ts_received;
          code = c;
          severity = v;
          book_key = e.symbol_id;
        }))
        s
