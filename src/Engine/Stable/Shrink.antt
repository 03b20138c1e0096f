-- ===== src/Engine/Stable/Shrink.antt =====
-- How the live prices of a book change: an entry is erased, or a queue assigned.
use lobsim.Base.{
  int_eq, ==ℤ_iff, HashMap, List, [], arith, some, subst, sym, true, ℕ, ℤ, ◌∷◌, ◌≡◌, ◌⊎◌,
}
use lobsim.Types.{Side}
use lobsim.Engine.Books.{Books, books, books_of_market}
use lobsim.Engine.Cancel.{drop_order, put_rest, remove_order}
use lobsim.Engine.Cross.{put_queue}
use lobsim.Engine.Isolation.{market}
use lobsim.Engine.PaperLevel.{erase_node}
use lobsim.Engine.Prices.{is_live}
use lobsim.Engine.State.{Book, OrderInfo, PaperTradingSimulator, book, with_book}

module _ ⦃H : HashMap⦄ where
  -- A level that shrinks, or goes.
  live-erase : (px q : ℤ) (b : Book) → is_live (H.erase px b) q ≡ true → is_live b q ≡ true
  live-erase px q b = ground (arith, H.find-erase q px b)

  pub live-assign :
      (px q : ℤ) (ns : List ℕ) (b : Book)
      → is_live (H.assign px ns b) q ≡ true
      → (px ≡ q) ⊎ (is_live b q ≡ true)
  live-assign px q ns b = ground (arith, H.find-assign q px ns b, ==ℤ_iff px q)

  live-put_rest :
      (px q : ℤ) (n : ℕ) (queue : List ℕ) (b : Book)
      → H.find px b ≡ some queue
      → is_live (put_rest px (erase_node n queue) b) q ≡ true
      → is_live b q ≡ true
  unfolding erase_node
  live-put_rest px q n [] b h = ground (arith, live-erase px q b)
  live-put_rest px q n (m ∷ ms) b h =
      ground (arith, live-erase px q b, live-assign px q (erase_node n (m ∷ ms)) b, ==ℤ_iff px q)

module _ ⦃H : HashMap⦄ (P : Books → Type 0)
    (stable : (side : Side) (b : Book) (s : PaperTradingSimulator)
      → ((q : ℤ) → is_live b q ≡ true → is_live (book side s) q ≡ true)
      → P (books s)
      → P (books (with_book side b s))) where
  abbrev Holds : PaperTradingSimulator → Type 0
  Holds s = P (books s)

  pub Holds-of_books : (s t : PaperTradingSimulator) → books s ≡ books t → Holds t → Holds s
  Holds-of_books s t e c = subst P (sym e) c

  pub Holds-of_market : (s t : PaperTradingSimulator) → market s ≡ market t → Holds t → Holds s
  Holds-of_market s t e c = Holds-of_books s t (books_of_market s t e) c

  pub Holds-put_queue :
      (side : Side) (px : ℤ) (ns : List ℕ) (s : PaperTradingSimulator)
      → is_live (book side s) px ≡ true
      → Holds s
      → Holds (put_queue side px ns s)
  Holds-put_queue side px ns s live c =
      stable side _ s
        (λ q l. ground (arith, live-erase px q (book side s), live-assign px q ns (book side s))) c

  pub Holds-remove_order :
      (id : ℤ) (i : OrderInfo) (n : ℕ) (queue : List ℕ) (s : PaperTradingSimulator)
      → H.find i.price_ticks (book i.side (drop_order id n s)) ≡ some queue
      → Holds s
      → Holds (remove_order id i n queue s)
  Holds-remove_order id i n queue s h c =
      let s' = drop_order id n s in
      stable i.side _ s' (λ q. live-put_rest i.price_ticks q n queue (book i.side s') h) c
