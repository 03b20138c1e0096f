-- ===== src/Engine/Books.antt =====
-- The books and their heaps as a part of the state, and the functions that leave them alone.
use lobsim.Base.{
  int_eq, Bool, HashMap, List, [], ap, arith, false, if◌then◌else◌, ltb_ℤ, pos, refl, true, ℕ, ℤ,
  ◌∙◌, ◌∷◌, ◌≡◌,
}
use lobsim.Engine.State.{
  book, Book, OrderInfo, OrderNode, PaperOrderLevel, PaperTradingSimulator, emit, emit_diagnostic,
  heap,
}
use lobsim.Types.{
  DiagnosticRecordCode, DiagnosticRecordSeverity, NormalizedLobEvent, Side, SinkCall, buy, opposite,
  sell,
}
use lobsim.Engine.Add.{join_market}
use lobsim.Engine.Cancel.{check_stored, pass_on}
use lobsim.Engine.Cross.{Matching, adjust_all, match_queue}
use lobsim.Engine.Isolation.{
  Market, market, market-adjust_market_at, market-apply_paper_trade_at_level,
}
use lobsim.Engine.PaperLevel.{adjust_market_at, put_level}
use lobsim.Engine.PaperTrade.{apply_paper_trade_at_level}

module _ ⦃H : HashMap⦄ where
  pub record Books : Type 0 where
    pub bids : Book
    pub asks : Book
    pub bids_heap : List ℤ
    pub asks_heap : List ℤ

  abbrev pub books : PaperTradingSimulator → Books
  books s = record {
    bids = s.bids;
    asks = s.asks;
    bids_heap = s.bids_heap;
    asks_heap = s.asks_heap;
  }

  books_of : Market → Books
  books_of m = record {
    bids = m.bids;
    asks = m.asks;
    bids_heap = m.bids_heap;
    asks_heap = m.asks_heap;
  }

  pub books_of_market : (s t : PaperTradingSimulator) → market s ≡ market t → books s ≡ books t
  unfolding books_of
  books_of_market s t e = ap books_of e

  books-match_queue :
      (e : NormalizedLobEvent) (px : ℤ) (ns : List ℕ) (m : Matching)
      → books (match_queue e px ns m).sim ≡ books m.sim
  unfolding match_queue
  books-match_queue e px [] m = refl
  books-match_queue e px (n ∷ ns) m = grind (arith, books-match_queue e px ns)

  books-adjust_market_at :
      (side : Side) (px : ℤ) (k : ℕ) (delta : ℤ) (s : PaperTradingSimulator)
      → books (adjust_market_at side px k delta s) ≡ books s
  books-adjust_market_at side px k delta s =
      books_of_market (adjust_market_at side px k delta s) s
        (market-adjust_market_at side px k delta s)

  books-apply_paper_trade_at_level :
      (side : Side) (px qty : ℤ) (e : NormalizedLobEvent) (s : PaperTradingSimulator)
      → books (apply_paper_trade_at_level side px qty e s) ≡ books s
  books-apply_paper_trade_at_level side px qty e s =
      books_of_market (apply_paper_trade_at_level side px qty e s) s
        (market-apply_paper_trade_at_level side px qty e s)

  books-adjust_all :
      (side : Side) (px : ℤ) (ds : List (ℕ × ℤ)) (s : PaperTradingSimulator)
      → books (adjust_all side px ds s) ≡ books s
  unfolding adjust_all
  books-adjust_all side px [] s = refl
  books-adjust_all side px ((k, delta) ∷ ds) s =
      books-adjust_market_at side px k delta (adjust_all side px ds s)
      ∙ books-adjust_all side px ds s

  pub book_of_books :
      (side : Side) (s t : PaperTradingSimulator) → books s ≡ books t → book side s ≡ book side t
  book_of_books buy s t e = ap (λ b. b.bids) e
  book_of_books sell s t e = ap (λ b. b.asks) e

  pub heap_of_books :
      (side : Side) (s t : PaperTradingSimulator) → books s ≡ books t → heap side s ≡ heap side t
  heap_of_books buy s t e = ap (λ b. b.bids_heap) e
  heap_of_books sell s t e = ap (λ b. b.asks_heap) e

  -- What `match_level` puts its queue into: the state before, as far as the books go.
  unfoldable pub matched :
      NormalizedLobEvent → ℤ → List ℕ → ℤ → PaperTradingSimulator → PaperTradingSimulator
  matched e px ns remaining s =
      let m = match_queue e px ns (record {
        remaining = remaining;
        traded_at_level = pos 0;
        market_deltas = [];
        queue = [];
        sim = s;
      }) in
      if ltb_ℤ (pos 0) m.traded_at_level
      then adjust_all (opposite e.side) px m.market_deltas
          (apply_paper_trade_at_level (opposite e.side) px m.traded_at_level e m.sim)
      else m.sim

  pub books-matched :
      (e : NormalizedLobEvent) (px : ℤ) (ns : List ℕ) (remaining : ℤ) (s : PaperTradingSimulator)
      → books (matched e px ns remaining s) ≡ books s
  unfolding matched
  books-matched e px ns remaining s =
      grind (arith, books-adjust_all, books-apply_paper_trade_at_level, books-match_queue)

  books-put_level :
      (side : Side) (px : ℤ) (level : PaperOrderLevel) (s : PaperTradingSimulator)
      → books (put_level side px level s) ≡ books s
  books-put_level buy px level s = refl
  books-put_level sell px level s = refl

  pub books-join_market :
      (side : Side) (px : ℤ) (node : OrderNode) (s : PaperTradingSimulator)
      → books (join_market side px node s) ≡ books s
  books-join_market side px node s = grind (arith, books-put_level)

  pub books-check_stored :
      (e : NormalizedLobEvent) (i : OrderInfo) (c d : DiagnosticRecordCode)
      (s : PaperTradingSimulator)
      → books (check_stored e i c d s) ≡ books s
  unfolding emit_diagnostic
  books-check_stored e i c d s = ground arith

  pub books-adjust_if :
      (b : Bool) (side : Side) (px : ℤ) (k : ℕ) (delta : ℤ) (s : PaperTradingSimulator)
      → books (if b then adjust_market_at side px k delta s else s) ≡ books s
  books-adjust_if true side px k delta s = books-adjust_market_at side px k delta s
  books-adjust_if false side px k delta s = refl

  pub books-adjust_unless :
      (b : Bool) (side : Side) (px : ℤ) (k : ℕ) (delta : ℤ) (s : PaperTradingSimulator)
      → books (if b then s else adjust_market_at side px k delta s) ≡ books s
  books-adjust_unless false side px k delta s = books-adjust_market_at side px k delta s
  books-adjust_unless true side px k delta s = refl

  pub books-pass_on :
      (is_trade : Bool) (e : NormalizedLobEvent) (i : OrderInfo) (k : ℕ) (take : ℤ)
      (s : PaperTradingSimulator)
      → books (pass_on is_trade e i k take s) ≡ books s
  books-pass_on is_trade e i k take s =
      grind (arith, books-adjust_market_at, books-apply_paper_trade_at_level)

  pub books-emit_if :
      (b : Bool) (k : SinkCall) (s t : PaperTradingSimulator)
      → books s ≡ books t
      → books (if b then emit k s else s) ≡ books t
  books-emit_if true k s t h = h
  books-emit_if false k s t h = h

  pub books-diagnostic_if :
      (b : Bool) (e : NormalizedLobEvent) (k : DiagnosticRecordCode) (v : DiagnosticRecordSeverity)
      (s : PaperTradingSimulator)
      → books (if b then emit_diagnostic e k v s else s) ≡ books s
  unfolding emit_diagnostic
  books-diagnostic_if true e k v s = refl
  books-diagnostic_if false e k v s = refl
