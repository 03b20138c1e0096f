-- ===== src/Engine/Fills.antt =====
-- The lots of the fills that are told to the sink, in the loops over the book. The child has the loops
-- over paper orders.
pub mod Paper
use lobsim.Base.{
  int_eq, HashMap, Bool, List, Option, Option-cases, [], arith, if_both, inl, inr, int_laws,
  is_some, leb_ℤ, none, pos, refl, some, suc, true, zero, ℕ, ℤ, ◌+ℤ◌, ◌-ℤ◌, ◌∙◌, ◌∷◌, ◌≡◌, min_ℤ,
  ◌≤ℤ◌, ◌==ℤ◌,
}
use lobsim.Engine.Cross.{
  view_level, view_levels, view_node, view_round, book_fill, Matching, match_node, match_queue,
  retire,
}
use lobsim.Engine.State.{PaperTradingSimulator, emit, order_node}
use lobsim.Types.{FillRecord, NormalizedLobEvent, SinkCall, on_diagnostic, on_event_apply, on_fill}

-- The lots of a call, and of all calls.
abbrev fill_lots : SinkCall → ℤ
fill_lots (on_fill f) = f.qty_lots
fill_lots (on_event_apply r) = pos 0
fill_lots (on_diagnostic r) = pos 0
fill_lots lobsim.Types.reset = pos 0

abbrev total_lots : List SinkCall → ℤ
total_lots [] = pos 0
total_lots (c ∷ cs) = fill_lots c +ℤ total_lots cs

abbrev pub told_lots : Option (List SinkCall) → ℤ
told_lots none = pos 0
told_lots (some cs) = total_lots cs

module _ ⦃H : HashMap⦄ where
  -- The lots told so far and the lots that are left.
  abbrev pub account : ℤ × PaperTradingSimulator → ℤ
  account r = told_lots r.1.sink +ℤ r.0

  abbrev pub is_logged : PaperTradingSimulator → Bool
  is_logged s = is_some s.sink

  -- With a sink, every lot that goes from the order is told, and no more lots go than there are.
  pub record Balanced (r r' : ℤ × PaperTradingSimulator) : Type 0 where
    pub told : is_logged r.1 ≡ true → (is_logged r'.1 ≡ true) × (account r' ≡ account r)
    pub left : pos 0 ≤ℤ r.0 → pos 0 ≤ℤ r'.0

  pub Balanced-trans :
      (a b c : ℤ × PaperTradingSimulator) → Balanced a b → Balanced b c → Balanced a c
  Balanced-trans a b c p q = record {
    told = λ h. let m = p.told h in let n = q.told m.0 in (n.0, n.1 ∙ m.1);
    left = λ h. q.left (p.left h);
  }

  pub Balanced-refl : (a : ℤ × PaperTradingSimulator) → Balanced a a
  Balanced-refl a = record { told = λ h. (h, refl); left = λ h. h }

  pub Balanced-of_sink :
      (a r r' : ℤ × PaperTradingSimulator)
      → r'.1.sink ≡ r.1.sink
      → r'.0 ≡ r.0
      → Balanced a r
      → Balanced a r'
  Balanced-of_sink a r r' p q b = record {
    told = λ h. ground (arith, p, q, b.told h);
    left = λ h. ground (arith, q, b.left h);
  }

  pub told_lots-emit :
      (f : FillRecord) (left : ℤ) (s : PaperTradingSimulator)
      → f.qty_lots ≤ℤ left
      → Balanced (left, s) (left -ℤ f.qty_lots, emit (on_fill f) s)
  told_lots-emit f left s le = record {
    told = λ h. elim (Option-cases s.sink) [
      | inl e ↦ absurd (ground (arith, h, e))
      | inr (cs, e) ↦ rw e (refl, grind int_laws)
    ];
    left = λ h. grind int_laws;
  }

  pub min_ℤ-le : (a b : ℤ) → min_ℤ a b ≤ℤ b
  unfolding min_ℤ
  min_ℤ-le a b = ground arith

  Balanced-view_node :
      (e : NormalizedLobEvent) (px : ℤ) (n : ℕ) (r : ℤ × PaperTradingSimulator)
      → Balanced r (view_node e px n r)
  Balanced-view_node e px n r =
      if_both (Balanced r) (leb_ℤ (order_node r.1 n).qty (pos 0)) _ _ (Balanced-refl r) (
        told_lots-emit
          (book_fill r.1.seq px (min_ℤ (order_node r.1 n).qty r.0) (order_node r.1 n) e) r.0 r.1
          (min_ℤ-le (order_node r.1 n).qty r.0))

  Balanced-view_level :
      (e : NormalizedLobEvent) (px : ℤ) (ns : List ℕ) (r : ℤ × PaperTradingSimulator)
      → Balanced r (view_level e px ns r)
  unfolding view_level
  Balanced-view_level e px [] r = Balanced-refl r
  Balanced-view_level e px (n ∷ ns) r =
      if_both (Balanced r) (leb_ℤ r.0 (pos 0)) _ _ (Balanced-refl r) (
        Balanced-trans r (view_node e px n r) (view_level e px ns (view_node e px n r))
          (Balanced-view_node e px n r) (Balanced-view_level e px ns (view_node e px n r)))

  Balanced-view_round :
      (limit : ℤ → Bool) (e : NormalizedLobEvent) (h : List ℤ) (r : ℤ × PaperTradingSimulator)
      → Balanced r (view_round limit e h r).2
  Balanced-view_round limit e h r = grind (arith, Balanced-view_level, Balanced-refl)

  pub Balanced-view_levels :
      (fuel : ℕ) (limit : ℤ → Bool) (e : NormalizedLobEvent) (h : List ℤ)
      (r : ℤ × PaperTradingSimulator)
      → Balanced r (view_levels fuel limit e h r)
  unfolding view_levels
  Balanced-view_levels zero limit e h r = Balanced-refl r
  Balanced-view_levels (suc fuel) limit e h r =
      let x = view_round limit e h r in
      let first = Balanced-view_round limit e h r in
      if_both (Balanced r) x.0 _ _ first (
        Balanced-trans r x.2 (view_levels fuel limit e x.1 x.2) first
          (Balanced-view_levels fuel limit e x.1 x.2))

  -- The matching loop of an order of the market tells what it takes too.
  Balanced-match_node :
      (e : NormalizedLobEvent) (px : ℤ) (n : ℕ) (m : Matching)
      → let m' = (match_node e px n m).1 in Balanced (m.remaining, m.sim) (m'.remaining, m'.sim)
  Balanced-match_node e px n m =
      let node = order_node m.sim n in
      let take = min_ℤ node.qty m.remaining in
      let f = book_fill m.sim.seq px take node e in
      let told = told_lots-emit f m.remaining m.sim (min_ℤ-le node.qty m.remaining) in
      let start : ℤ × PaperTradingSimulator = (m.remaining, m.sim) in
      if_both (λ (x : Bool × Matching). Balanced start (x.1.remaining, x.1.sim))
        (leb_ℤ node.qty (pos 0)) _ _
        (Balanced-of_sink start start (m.remaining, retire n m.sim) refl refl (Balanced-refl start))
        (if_both (λ (s : PaperTradingSimulator). Balanced start (m.remaining -ℤ take, s))
          (node.qty -ℤ take ==ℤ pos 0) _ _
          (Balanced-of_sink start (m.remaining -ℤ take, emit (on_fill f) m.sim) _ refl refl told)
          (Balanced-of_sink start (m.remaining -ℤ take, emit (on_fill f) m.sim) _ refl refl told))

  Balanced-match_queue :
      (e : NormalizedLobEvent) (px : ℤ) (ns : List ℕ) (m : Matching)
      → let m' = match_queue e px ns m in Balanced (m.remaining, m.sim) (m'.remaining, m'.sim)
  unfolding match_queue
  Balanced-match_queue e px [] m = Balanced-refl (m.remaining, m.sim)
  Balanced-match_queue e px (n ∷ ns) m =
      let m1 = (match_node e px n m).1 in
      let m2 = match_queue e px ns m1 in
      if_both (λ (x : Matching). Balanced (m.remaining, m.sim) (x.remaining, x.sim))
        (leb_ℤ m.remaining (pos 0)) _ _ (Balanced-refl (m.remaining, m.sim))
        (Balanced-trans (m.remaining, m.sim) (m1.remaining, m1.sim) (m2.remaining, m2.sim)
          (Balanced-match_node e px n m) (Balanced-match_queue e px ns m1))

  -- With a sink, and if what is left of the order is not negative, the lots of the fills that the
  -- matching loop of an order of the market tells at a level and the lots that are left of the order
  -- after it make up what was left before, and what is left after it is not negative.
  pub match_queue-Balanced :
      (e : NormalizedLobEvent) (px : ℤ) (ns : List ℕ) (m : Matching)
      → is_logged m.sim ≡ true
      → pos 0 ≤ℤ m.remaining
      → let m' = match_queue e px ns m in
        (told_lots m'.sim.sink +ℤ m'.remaining ≡ told_lots m.sim.sink +ℤ m.remaining)
        × (pos 0 ≤ℤ m'.remaining)
  match_queue-Balanced e px ns m h q =
      let b = Balanced-match_queue e px ns m in ((b.told h).1, b.left q)
