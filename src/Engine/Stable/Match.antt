-- ===== src/Engine/Stable/Match.antt =====
-- A stable property that also survives the loss of stale prices is kept: an order of the market is matched.
use lobsim.Base.{
  int_eq, Bool, HashMap, List, Option, [], if_both, leb_ℤ, none, pos, refl, some, subst, suc, sym,
  true, zero, ℕ, ℤ, ◌∷◌, ◌≡◌,
}
use lobsim.Types.{NormalizedLobEvent, Side, opposite}
use lobsim.Engine.Add.{cross_market}
use lobsim.Engine.Books.{Books, book_of_books, books, books-matched, books_of_market, matched}
use lobsim.Engine.Cross.{
  crosses, crosses_best, look, match_best, match_found, match_level, match_levels, match_round,
  take_paper_levels,
}
use lobsim.Engine.Isolation.{market-take_paper_levels}
use lobsim.Engine.Prices.{is_live}
use lobsim.Engine.Stable.Shrink.{Holds-put_queue, Holds-of_books}
use lobsim.Engine.State.{Book, PaperTradingSimulator, book, queue_at, with_book}

module _ ⦃H : HashMap⦄ where
  live_queue :
      (px : ℤ) (b : Book) (n : ℕ) (ns : List ℕ) → queue_at px b ≡ n ∷ ns → is_live b px ≡ true
  live_queue px b n ns h = rw h refl

module _ ⦃H : HashMap⦄ (P : Books → Type 0)
    (stable : (side : Side) (b : Book) (s : PaperTradingSimulator)
      → ((q : ℤ) → is_live b q ≡ true → is_live (book side s) q ≡ true)
      → P (books s)
      → P (books (with_book side b s)))
    (looked : (e : NormalizedLobEvent) (s : PaperTradingSimulator)
      → P (books s)
      → P (books (look e s).1)) where
  abbrev Holds : PaperTradingSimulator → Type 0
  Holds s = P (books s)

  Holds-match_level :
      (e : NormalizedLobEvent) (px : ℤ) (ns : List ℕ) (remaining : ℤ) (s : PaperTradingSimulator)
      → is_live (book (opposite e.side) s) px ≡ true
      → Holds s
      → Holds (match_level e px ns (remaining, s)).1
  unfolding match_level matched
  Holds-match_level e px ns remaining s live c =
      let same = books-matched e px ns remaining s in
      Holds-put_queue P stable (opposite e.side) px _ (matched e px ns remaining s)
        (subst (λ b. is_live b px ≡ true)
          (sym (book_of_books (opposite e.side) (matched e px ns remaining s) s same)) live)
        (Holds-of_books P stable (matched e px ns remaining s) s same c)

  Holds-match_found :
      (e : NormalizedLobEvent) (px : ℤ) (queue : List ℕ) (r : ℤ × PaperTradingSimulator)
      → queue_at px (book (opposite e.side) r.1) ≡ queue
      → Holds r.1
      → Holds (match_found e px queue r).1
  Holds-match_found e px [] r h c = c
  Holds-match_found e px (n ∷ ns) r h c =
      Holds-match_level e px (n ∷ ns) r.0 r.1 (live_queue px (book (opposite e.side) r.1) n ns h) c

  Holds-match_best :
      (e : NormalizedLobEvent) (best : Option ℤ) (r : ℤ × PaperTradingSimulator)
      → Holds r.1
      → Holds (match_best e best r).1.1
  Holds-match_best e none r c = c
  Holds-match_best e (some px) r c =
      if_both (λ (x : Bool × (ℤ × PaperTradingSimulator)). Holds x.1.1) (crosses e px) _ _
        (Holds-match_found e px (queue_at px (book (opposite e.side) r.1)) r refl c) c

  Holds-match_round :
      (e : NormalizedLobEvent) (r : ℤ × PaperTradingSimulator)
      → Holds r.1
      → Holds (match_round e r).1.1
  Holds-match_round e r c =
      if_both (λ (x : Bool × (ℤ × PaperTradingSimulator)). Holds x.1.1) (leb_ℤ r.0 (pos 0)) _ _ c
        (Holds-match_best e (look e r.1).0 (r.0, (look e r.1).1) (looked e r.1 c))

  pub Holds-match_levels :
      (fuel : ℕ) (e : NormalizedLobEvent) (r : ℤ × PaperTradingSimulator)
      → Holds r.1
      → Holds (match_levels fuel e r).1
  unfolding match_levels
  Holds-match_levels zero e r c = c
  Holds-match_levels (suc fuel) e r c =
      let c' = Holds-match_round e r c in
      if_both (λ (x : ℤ × PaperTradingSimulator). Holds x.1) (match_round e r).0 _ _ c'
        (Holds-match_levels fuel e (match_round e r).1 c')

  Holds-take_paper_levels :
      (fuel : ℕ) (limit : ℤ → Bool) (e : NormalizedLobEvent) (r : ℤ × PaperTradingSimulator)
      → Holds r.1
      → Holds (take_paper_levels fuel limit e r).1
  Holds-take_paper_levels fuel limit e r c =
      Holds-of_books P stable (take_paper_levels fuel limit e r).1 r.1
        (books_of_market (take_paper_levels fuel limit e r).1 r.1
          (market-take_paper_levels fuel limit e r))
        c

  pub Holds-cross_market :
      (e : NormalizedLobEvent) (s : PaperTradingSimulator) → Holds s → Holds (cross_market e s).1
  Holds-cross_market e s c = Holds-take_paper_levels _ (crosses e) e _ (
      if_both (λ (x : ℤ × PaperTradingSimulator). Holds x.1) (crosses_best e (look e s).0) _ _
        (Holds-match_levels _ e (e.quantity_lots, (look e s).1) (looked e s c)) (looked e s c))
