-- ===== src/Engine/Matching.antt =====
-- The end of the matching loop of an order of the market (`on_add`).
use lobsim.Base.{
  int_eq, Bool, HashMap, List, [], arith, false, leb_ℤ, min_ℤ, pos, refl, true, ℕ, ℤ, ◌∷◌, ◌≡◌,
  Bool-cases, inl, inr, length, some, ◌-ℤ◌, ◌<◌, ◌≤◌, ◌⊎◌, ==ℤ_iff, subst, sym, ◌∙◌, ap, suc, zero,
  Option, if◌then◌else◌, none,
}
use lobsim.Engine.Cross.{
  Matching, match_node, match_queue, crosses_best, look, match_level, put_queue, match_found,
  match_levels, crosses, match_best,
}
use lobsim.Types.{NormalizedLobEvent, opposite, Side, buy, sell, is_buy}
use lobsim.Engine.Prices.{best_opposite_price, decode, is_live}
use lobsim.Engine.State.{heap, Book, PaperTradingSimulator, with_heap, book, queue_at}
use lobsim.Engine.Books.{books-matched, heap_of_books, matched}

-- `remaining > 0` is false.
abbrev pub used_up : ℤ → Bool
used_up remaining = leb_ℤ remaining (pos 0)

module _ ⦃H : HashMap⦄ where
  match_queue-used_up :
      (e : NormalizedLobEvent) (px : ℤ) (ns : List ℕ) (m : Matching)
      → used_up m.remaining ≡ true
      → (match_queue e px ns m).remaining ≡ m.remaining
  unfolding match_queue
  match_queue-used_up e px [] m h = refl
  match_queue-used_up e px (n ∷ ns) m h = rw h refl

  -- An order that stays at the front of the level has used the incoming order up.
  pub match_node_kept :
      (e : NormalizedLobEvent) (px : ℤ) (n : ℕ) (m : Matching)
      → (match_node e px n m).0 ≡ true
      → used_up (match_node e px n m).1.remaining ≡ true
  unfolding min_ℤ ◌-ℤ◌
  match_node_kept e px n m = ground arith

  -- A level is left with no order if the incoming order is not used up.
  match_queue_emptied :
      (e : NormalizedLobEvent) (px : ℤ) (ns : List ℕ) (m : Matching)
      → used_up (match_queue e px ns m).remaining ≡ false
      → (match_queue e px ns m).queue ≡ []
  unfolding match_queue
  match_queue_emptied e px [] m h = refl
  match_queue_emptied e px (n ∷ ns) m h =
      let m' = (match_node e px n m).1 in
      ground (
        arith,
        match_queue_emptied e px ns m',
        match_queue-used_up e px ns m',
        match_node_kept e px n m,
      )

  -- A second look at the book sees the same price.
  best_opposite_price_again :
      (is_ask : Bool) (b : Book) (h : List ℤ)
      → best_opposite_price is_ask b (best_opposite_price is_ask b h).1
        ≡ best_opposite_price is_ask b h
  unfolding best_opposite_price
  best_opposite_price_again is_ask b [] = refl
  best_opposite_price_again is_ask b (x ∷ h) = ground (arith, best_opposite_price_again is_ask b h)

  length-best_opposite_price :
      (is_ask : Bool) (b : Book) (h : List ℤ) → length (best_opposite_price is_ask b h).1 ≤ length h
  unfolding best_opposite_price
  length-best_opposite_price is_ask b [] = omega arith
  length-best_opposite_price is_ask b (x ∷ h) =
      ground (arith, length-best_opposite_price is_ask b h)

  -- Once the price that a look found has gone from the book, the next look pops it.
  length-best_opposite_price_dead :
      (is_ask : Bool) (b b' : Book) (h : List ℤ) (px : ℤ)
      → (best_opposite_price is_ask b h).0 ≡ some px
      → is_live b' px ≡ false
      → length (best_opposite_price is_ask b' (best_opposite_price is_ask b h).1).1
        < length (best_opposite_price is_ask b h).1
  unfolding best_opposite_price
  length-best_opposite_price_dead is_ask b b' [] px found dead = cc
  length-best_opposite_price_dead is_ask b b' (x ∷ h) px found dead =
      elim (Bool-cases (is_live b (decode is_ask x))) [
        | inl live ↦ ground (arith, length-best_opposite_price is_ask b' h)
        | inr stale ↦
            rw stale (length-best_opposite_price_dead is_ask b b' h px (rw stale at found) dead)
      ]

  -- The stale prices that a look would pop do not count.
  abbrev pub prices_left : NormalizedLobEvent → PaperTradingSimulator → ℕ
  prices_left e s =
      length
        (best_opposite_price (is_buy e.side) (book (opposite e.side) s)
          (heap (opposite e.side) s)).1

  -- The test of the loop says that it is over: the order is used up, or the price that a look at the
  -- heap finds does not cross it.
  abbrev pub IsMatched : NormalizedLobEvent → ℤ × PaperTradingSimulator → Type 0
  IsMatched e r = (used_up r.0 ≡ true) ⊎ (crosses_best e (look e r.1).0 ≡ false)

  best_opposite_price_live :
      (is_ask : Bool) (b : Book) (h : List ℤ) (px : ℤ)
      → (best_opposite_price is_ask b h).0 ≡ some px
      → is_live b px ≡ true
  unfolding best_opposite_price
  best_opposite_price_live is_ask b [] px found = cc
  best_opposite_price_live is_ask b (x ∷ h) px found =
      ground (arith, best_opposite_price_live is_ask b h px)

  heap-with_heap :
      (side : Side) (h : List ℤ) (s : PaperTradingSimulator)
      → (heap side (with_heap side h s) ≡ h) × (book side (with_heap side h s) ≡ book side s)
  heap-with_heap buy h s = (refl, refl)
  heap-with_heap sell h s = (refl, refl)

  heap-put_queue :
      (side : Side) (px : ℤ) (q : List ℕ) (s : PaperTradingSimulator)
      → heap side (put_queue side px q s) ≡ heap side s
  heap-put_queue buy px q s = refl
  heap-put_queue sell px q s = refl

  dead-erase : (px : ℤ) (b : Book) → is_live (H.erase px b) px ≡ false
  dead-erase px b = ground (arith, H.find-erase px px b, ==ℤ_iff px px)

  -- A level whose queue has gone is dead.
  dead-put_queue :
      (side : Side) (px : ℤ) (s : PaperTradingSimulator)
      → is_live (book side (put_queue side px [] s)) px ≡ false
  dead-put_queue buy px s = dead-erase px s.bids
  dead-put_queue sell px s = dead-erase px s.asks

  -- A level that does not use the order up is gone, and the heap is as it was.
  match_level_progress :
      (e : NormalizedLobEvent) (px : ℤ) (ns : List ℕ) (remaining : ℤ) (s : PaperTradingSimulator)
      → used_up (match_level e px ns (remaining, s)).0 ≡ false
      → (is_live (book (opposite e.side) (match_level e px ns (remaining, s)).1) px ≡ false)
        × (heap (opposite e.side) (match_level e px ns (remaining, s)).1 ≡ heap (opposite e.side) s)
  unfolding match_level matched
  match_level_progress e px ns remaining s more =
      let m : Matching = record {
        remaining = remaining;
        traded_at_level = pos 0;
        market_deltas = [];
        queue = [];
        sim = s;
      } in
      let gone = match_queue_emptied e px ns m more in
      let s' = matched e px ns remaining s in
      (
        subst
            (λ q. is_live (book (opposite e.side) (put_queue (opposite e.side) px q s')) px ≡ false)
            (sym gone) (dead-put_queue (opposite e.side) px s'),
        heap-put_queue (opposite e.side) px (match_queue e px ns m).queue s'
            ∙ heap_of_books (opposite e.side) s' s (books-matched e px ns remaining s),
      )

  pub look_again :
      (e : NormalizedLobEvent) (s : PaperTradingSimulator) → (look e (look e s).1).0 ≡ (look e s).0
  look_again e s =
      let opp = opposite e.side in
      let h = (best_opposite_price (is_buy e.side) (book opp s) (heap opp s)).1 in
      let back = heap-with_heap opp h s in
      rw (back.0, back.1)
        (ap (λ x. x.0) (best_opposite_price_again (is_buy e.side) (book opp s) (heap opp s)))

  match_levels-used_up :
      (fuel : ℕ) (e : NormalizedLobEvent) (r : ℤ × PaperTradingSimulator)
      → used_up r.0 ≡ true
      → match_levels fuel e r ≡ r
  unfolding match_levels
  match_levels-used_up zero e r u = refl
  match_levels-used_up (suc fuel) e r u = rw u refl

  -- A round on a live level leaves fewer prices, or the order used up.
  match_found_progress :
      (e : NormalizedLobEvent) (px : ℤ) (queue : List ℕ) (r : ℤ × PaperTradingSimulator)
      → (look e r.1).0 ≡ some px
      → queue_at px (book (opposite e.side) (look e r.1).1) ≡ queue
      → used_up (match_found e px queue (r.0, (look e r.1).1)).0 ≡ false
      → prices_left e (match_found e px queue (r.0, (look e r.1).1)).1 < prices_left e r.1
  match_found_progress e px [] r found h more =
      let opp = opposite e.side in
      let looked = best_opposite_price (is_buy e.side) (book opp r.1) (heap opp r.1) in
      absurd (
        ground (
          arith,
          h,
          (heap-with_heap opp looked.1 r.1).1,
          best_opposite_price_live (is_buy e.side) (book opp r.1) (heap opp r.1) px found,
        ))
  match_found_progress e px (n ∷ ns) r found h more =
      let opp = opposite e.side in
      let looked = best_opposite_price (is_buy e.side) (book opp r.1) (heap opp r.1) in
      let r' = match_level e px (n ∷ ns) (r.0, (look e r.1).1) in
      let moved = match_level_progress e px (n ∷ ns) r.0 (look e r.1).1 more in
      subst
        (λ l. length (best_opposite_price (is_buy e.side) (book opp r'.1) l).1 < length looked.1)
        (sym (moved.1 ∙ (heap-with_heap opp looked.1 r.1).0))
        (length-best_opposite_price_dead (is_buy e.side) (book opp r.1) (book opp r'.1)
          (heap opp r.1) px found moved.0)

  -- The rest of the loop, from a state that is used up or has fewer prices left.
  IsMatched-rest :
      (fuel : ℕ) (e : NormalizedLobEvent) (r : ℤ × PaperTradingSimulator)
      → (prices_left e r.1 < fuel → IsMatched e (match_levels fuel e r))
      → (used_up r.0 ≡ false → prices_left e r.1 < fuel)
      → IsMatched e (match_levels fuel e r)
  IsMatched-rest fuel e r ih fewer = elim (Bool-cases (used_up r.0)) [
    | inl u ↦ subst (IsMatched e) (sym (match_levels-used_up fuel e r u)) (inl u)
    | inr more ↦ ih (fewer more)
  ]

  -- A round, by what the look found.
  IsMatched-after :
      (fuel : ℕ) (e : NormalizedLobEvent) (r : ℤ × PaperTradingSimulator) (best : Option ℤ)
      → (look e r.1).0 ≡ best
      → (((r' : ℤ × PaperTradingSimulator)
          → prices_left e r'.1 < fuel
          → IsMatched e (match_levels fuel e r')))
      → prices_left e r.1 < suc fuel
      → let x = match_best e best (r.0, (look e r.1).1) in
        IsMatched e (if x.0 then x.1 else match_levels fuel e x.1)
  IsMatched-after fuel e r none found ih h = inr (rw (look_again e r.1 ∙ found) refl)
  IsMatched-after fuel e r (some px) found ih h = elim (Bool-cases (crosses e px)) [
    | inl hit ↦ rw hit (
        let queue = queue_at px (book (opposite e.side) (look e r.1).1) in
        let r' = match_found e px queue (r.0, (look e r.1).1) in
        IsMatched-rest fuel e r' (ih r')
          (λ more. omega (arith, match_found_progress e px queue r found refl more)))
    | inr miss ↦ rw miss (inr (rw (look_again e r.1 ∙ found) miss))
  ]

  -- With more fuel than prices the loop ends by its own test.
  pub match_levels-IsMatched :
      (fuel : ℕ) (e : NormalizedLobEvent) (r : ℤ × PaperTradingSimulator)
      → prices_left e r.1 < fuel
      → IsMatched e (match_levels fuel e r)
  unfolding match_levels
  match_levels-IsMatched zero e r h = elim h [ ]
  match_levels-IsMatched (suc fuel) e r h = elim (Bool-cases (used_up r.0)) [
    | inl u ↦ rw u (inl u)
    | inr more ↦
        rw more (IsMatched-after fuel e r (look e r.1).0 refl (match_levels-IsMatched fuel e) h)
  ]

  pub prices_left_le :
      (e : NormalizedLobEvent) (s : PaperTradingSimulator)
      → prices_left e s ≤ length (heap (opposite e.side) s)
  prices_left_le e s =
      length-best_opposite_price (is_buy e.side) (book (opposite e.side) s)
        (heap (opposite e.side) s)
