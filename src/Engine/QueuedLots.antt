-- ===== src/Engine/QueuedLots.antt =====
-- What `trade_against_paper_level` does to the lots that a level counts as queued.
use lobsim.Base.{
  int_eq, HashMap, ==ℤ_iff, arith, false, int_laws, leb_ℤ, ltb_ℤ, min_ℤ, none, pos, true, ℕ, ℤ,
  ◌-ℤ◌, ◌==ℤ◌, ◌≡◌, Bool-cases, if◌then◌else◌, inl, inr, refl, some, ◌||◌, ap, ◌∙◌,
}
use lobsim.Engine.PaperLevel.{clipped, remove_paper_order}
use lobsim.Engine.PaperTrade.{Walk, after_take, take_from, is_done, taking_round, taken_fill}
use lobsim.Engine.State.{PaperOrder, PaperOrderLevel, PaperTradingSimulator, paper_node, emit}
use lobsim.Types.{NormalizedLobEvent, Side, on_fill}

minus_zero : (a b : ℤ) → b ≡ pos 0 → a -ℤ b ≡ a
minus_zero a b h = grind int_laws

zero_left : (a : ℤ) → a -ℤ a ≡ pos 0
zero_left a = grind int_laws

min_ℤ-left : (a b : ℤ) → leb_ℤ a b ≡ true → min_ℤ a b ≡ a
unfolding min_ℤ
min_ℤ-left a b h = ground arith

min_ℤ-right : (a b : ℤ) → leb_ℤ a b ≡ false → min_ℤ a b ≡ b
unfolding min_ℤ
min_ℤ-right a b h = ground arith

not_all_left : (a b : ℤ) → leb_ℤ a b ≡ false → (a -ℤ b ==ℤ pos 0) ≡ false
not_all_left a b h = grind int_laws

module _ ⦃H : HashMap⦄ where
  clipped_to_zero :
      (qty remaining : ℤ)
      → remaining ≡ pos 0
      → ltb_ℤ (pos 0) qty ≡ true
      → clipped qty remaining ≡ pos 0
  unfolding min_ℤ
  clipped_to_zero qty remaining z h = ground arith

  after_take-full :
      (n : ℕ) (id qty : ℤ) (order : PaperOrder) (r : PaperOrderLevel × PaperTradingSimulator)
      → (paper_node r.1 n).order_id ≡ id
      → order.remaining_qty ≡ pos 0
      → ltb_ℤ (pos 0) qty ≡ true
      → let r' = after_take n id qty order r in
        (r'.0.queued_lots ≡ r.0.queued_lots) × (H.find id r'.1.paper_orders ≡ none)
  unfolding remove_paper_order
  after_take-full n id qty order r at z more = ground (
    arith,
    at,
    z,
    more,
    H.find-assign id id order r.1.paper_orders,
    H.find-erase id id (H.assign id order r.1.paper_orders),
    ==ℤ_iff id id,
    clipped_to_zero qty order.remaining_qty z more,
    minus_zero r.0.queued_lots (clipped qty order.remaining_qty),
  )

  take_from-full :
      (side : Side) (px : ℤ) (e : NormalizedLobEvent) (n : ℕ) (w : Walk) (order : PaperOrder)
      → leb_ℤ order.remaining_qty (pos 0) ≡ false
      → leb_ℤ order.remaining_qty w.trade_lots ≡ true
      → let id = (paper_node w.sim n).order_id in
        let w' = take_from side px e n id order w in
        (w'.level.queued_lots ≡ w.level.queued_lots) × (H.find id w'.sim.paper_orders ≡ none)
  take_from-full side px e n w order p le =
      let qty = min_ℤ order.remaining_qty w.trade_lots in
      let id = (paper_node w.sim n).order_id in
      let told = emit (on_fill (taken_fill w.sim.seq side px qty id order e)) w.sim in
      let all = min_ℤ-left order.remaining_qty w.trade_lots le in
      let more : ltb_ℤ (pos 0) qty ≡ true = rw all (ground (arith, p)) in
      rw more (
        after_take-full n id qty (record order { remaining_qty = order.remaining_qty -ℤ qty })
          (w.level, told) refl
          (ap (λ (x : ℤ). order.remaining_qty -ℤ x) all ∙ zero_left order.remaining_qty) more)

  take_from-part :
      (side : Side) (px : ℤ) (e : NormalizedLobEvent) (n : ℕ) (id : ℤ) (w : Walk)
      (order : PaperOrder)
      → leb_ℤ order.remaining_qty w.trade_lots ≡ false
      → (take_from side px e n id order w).level.queued_lots ≡ w.level.queued_lots -ℤ w.trade_lots
  take_from-part side px e n id w order gt =
      rw (min_ℤ-right order.remaining_qty w.trade_lots gt)
        (rw (not_all_left order.remaining_qty w.trade_lots gt) refl)

  -- A paper order that is only partly filled by an order that runs into its level takes the lots of the
  -- fill from the level's `queued_lots`; one that is filled up is gone from the orders, and leaves
  -- `queued_lots` as it was, its own lots included.
  pub taking_round-queued_lots :
      (side : Side) (px : ℤ) (e : NormalizedLobEvent) (n : ℕ) (w : Walk) (order : PaperOrder)
      → H.find (paper_node w.sim n).order_id w.sim.paper_orders ≡ some order
      → (leb_ℤ order.remaining_qty (pos 0) || is_done order.status) ≡ false
      → leb_ℤ w.trade_lots (pos 0) ≡ false
      → let w' = taking_round side px e n w in
        if leb_ℤ order.remaining_qty w.trade_lots
        then (w'.level.queued_lots ≡ w.level.queued_lots)
          × (H.find (paper_node w.sim n).order_id w'.sim.paper_orders ≡ none)
        else w'.level.queued_lots ≡ w.level.queued_lots -ℤ w.trade_lots
  unfolding taking_round
  taking_round-queued_lots side px e n w order found live more =
      elim (Bool-cases (leb_ℤ order.remaining_qty w.trade_lots)) [
        | inl le ↦ rw le (
            rw more
              (rw found (rw live (take_from-full side px e n w order (ground (arith, live)) le))))
        | inr gt ↦ rw gt (
            rw more (
              rw found
                (rw live (take_from-part side px e n (paper_node w.sim n).order_id w order gt))))
      ]
