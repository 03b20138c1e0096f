-- ===== src/Engine/Conservation/Matched.antt =====
-- The lots of a level under the matching loop of `on_add`, and the order in which its orders trade.
use lobsim.Pool.{size}
use lobsim.Base.{
  int_eq, HashMap, Bool, Bool-cases, List, [], ap, arith, false, if_both, if◌then◌else◌, inl, inr,
  int_laws, leb_ℤ, min_ℤ, pos, refl, subst, sym, true, ℕ, ℤ, ◌+ℤ◌, ◌-ℤ◌, ◌<◌, ◌==ℤ◌, ◌∙◌, ◌∷◌, ◌≡◌,
  ◌≤ℤ◌, ◌⊎◌,
}
use lobsim.Engine.Cancel.{set_qty}
use lobsim.Engine.Conservation.{
  AllBelow, OnlyNode, live_lots, queue_lots, queue_lots-OnlyNode, retire-same, set_qty-OnlyNode,
}
use lobsim.Engine.Cross.{Matching, match_node, match_queue}
use lobsim.Engine.Matching.{match_node_kept}
use lobsim.Engine.State.{order_node}
use lobsim.Pool.WellFormed.{NoRepeat}
use lobsim.Types.{NormalizedLobEvent}

module _ ⦃H : HashMap⦄ where
  -- The loop's account of a level: the lots of the queue and the lots that the order has taken.
  abbrev taken_lots : Matching → Matching → ℤ
  taken_lots m m' = m.remaining -ℤ m'.remaining

  -- The list is what is left of the other after some orders at its front.
  abbrev pub IsSuffix : List ℕ → List ℕ → Type 0
  IsSuffix ms [] = ms ≡ []
  IsSuffix ms (n ∷ ns) = (ms ≡ n ∷ ns) ⊎ IsSuffix ms ns

  IsSuffix-refl : (ns : List ℕ) → IsSuffix ns ns
  IsSuffix-refl [] = refl
  IsSuffix-refl (n ∷ ns) = inl refl

  match_queue-stops :
      (e : NormalizedLobEvent) (px : ℤ) (ns : List ℕ) (m : Matching)
      → leb_ℤ m.remaining (pos 0) ≡ true
      → match_queue e px ns m ≡ record m { queue = ns }
  unfolding match_queue
  match_queue-stops e px [] m h = refl
  match_queue-stops e px (n ∷ ns) m h = rw h refl

  -- First in, first out: the orders that a level loses to an order of the market are the ones at its
  -- front, and the others stay in their order.
  pub match_queue-IsSuffix :
      (e : NormalizedLobEvent) (px : ℤ) (ns : List ℕ) (m : Matching)
      → IsSuffix (match_queue e px ns m).queue ns
  unfolding match_queue
  match_queue-IsSuffix e px [] m = refl
  match_queue-IsSuffix e px (n ∷ ns) m =
      let m' = (match_node e px n m).1 in
      let rest = (match_queue e px ns m').queue in
      let queue = (match_queue e px (n ∷ ns) m).queue in
      elim (Bool-cases (leb_ℤ m.remaining (pos 0))) [
        | inl done ↦ inl (rw done refl)
        | inr more ↦ elim (Bool-cases (match_node e px n m).0) [
          | inl kept ↦
              let same : rest ≡ ns =
                ap (λ (x : Matching). x.queue)
                  (match_queue-stops e px ns m' (match_node_kept e px n m kept)) in
              let here : queue ≡ n ∷ rest = rw more (rw kept refl) in
              inl (here ∙ ap (λ (q : List ℕ). n ∷ q) same)
          | inr gone ↦
              let here : queue ≡ rest = rw more (rw gone refl) in
              inr
                (subst (λ (q : List ℕ). IsSuffix q ns) (sym here) (match_queue-IsSuffix e px ns m'))
        ]
      ]

  match_node-OnlyNode :
      (e : NormalizedLobEvent) (px : ℤ) (n : ℕ) (m : Matching)
      → n < size m.sim.order_pool
      → OnlyNode n m.sim (match_node e px n m).1.sim
  match_node-OnlyNode e px n m h =
      let node = order_node m.sim n in
      let left = node.qty -ℤ min_ℤ node.qty m.remaining in
      let taken = set_qty n left m.sim in
      let set1 = (set_qty-OnlyNode n left m.sim h).0 in
      let gone = retire-same n m.sim h in
      let gone2 = retire-same n taken (subst (λ k. n < k) (sym set1.0) h) in
      if_both (λ (x : Bool × Matching). OnlyNode n m.sim x.1.sim) (leb_ℤ node.qty (pos 0)) _ _
        (gone.0, λ j ne. gone.1 j)
        (if_both (OnlyNode n m.sim) (left ==ℤ pos 0) _ _
          (gone2.0 ∙ set1.0, λ j ne. gone2.1 j ∙ set1.1 j ne) set1)

  nothing_taken : (rem : ℤ) → pos 0 +ℤ (rem -ℤ rem) ≡ pos 0
  nothing_taken rem = grind int_laws

  took_all :
      (qty take rem : ℤ) → (qty -ℤ take ==ℤ pos 0) ≡ true → pos 0 +ℤ (rem -ℤ (rem -ℤ take)) ≡ qty
  took_all qty take rem h = grind int_laws

  took_part :
      (qty take rem : ℤ)
      → take ≤ℤ qty
      → (qty -ℤ take ==ℤ pos 0) ≡ false
      → live_lots (qty -ℤ take) +ℤ (rem -ℤ (rem -ℤ take)) ≡ qty
  took_part qty take rem le h = grind int_laws

  min_ℤ-le_left : (a b : ℤ) → min_ℤ a b ≤ℤ a
  unfolding min_ℤ
  min_ℤ-le_left a b = ground arith

  -- What the loop does with the first order of the level, in lots.
  match_node-lots :
      (e : NormalizedLobEvent) (px : ℤ) (n : ℕ) (m : Matching)
      → n < size m.sim.order_pool
      → let (kept, m') = match_node e px n m in
        (if kept then live_lots (order_node m'.sim n).qty else pos 0) +ℤ taken_lots m m'
        ≡ live_lots (order_node m.sim n).qty
  match_node-lots e px n m h =
      let qty = (order_node m.sim n).qty in
      let take = min_ℤ qty m.remaining in
      let kept_qty = (set_qty-OnlyNode n (qty -ℤ take) m.sim h).1 in
      elim (Bool-cases (leb_ℤ qty (pos 0))) [
        | inl none_left ↦ rw none_left (nothing_taken m.remaining)
        | inr more ↦ rw more (elim (Bool-cases (qty -ℤ take ==ℤ pos 0)) [
          | inl all ↦ rw all (took_all qty take m.remaining all)
          | inr part ↦
              rw part
                (rw kept_qty (took_part qty take m.remaining (min_ℤ-le_left qty m.remaining) part))
        ])
      ]

  add_front :
      (front lots rem rem1 rem2 all node : ℤ)
      → front +ℤ (rem -ℤ rem1) ≡ node
      → lots +ℤ (rem1 -ℤ rem2) ≡ all
      → (front +ℤ lots) +ℤ (rem -ℤ rem2) ≡ node +ℤ all
  add_front front lots rem rem1 rem2 all node p q = grind int_laws

  no_change : (a r : ℤ) → a +ℤ (r -ℤ r) ≡ a
  no_change a r = grind int_laws

  no_front : (lots taken all : ℤ) → (pos 0 +ℤ lots) +ℤ taken ≡ all → lots +ℤ taken ≡ all
  no_front lots taken all h = grind int_laws

  match_queue-gone :
      (e : NormalizedLobEvent) (px : ℤ) (n : ℕ) (ns : List ℕ) (m : Matching)
      → leb_ℤ m.remaining (pos 0) ≡ false
      → (match_node e px n m).0 ≡ false
      → match_queue e px (n ∷ ns) m ≡ match_queue e px ns (match_node e px n m).1
  unfolding match_queue
  match_queue-gone e px n ns m more gone = rw more (rw gone refl)

  match_queue-kept :
      (e : NormalizedLobEvent) (px : ℤ) (n : ℕ) (ns : List ℕ) (m : Matching)
      → leb_ℤ m.remaining (pos 0) ≡ false
      → (match_node e px n m).0 ≡ true
      → match_queue e px (n ∷ ns) m ≡ record (match_node e px n m).1 { queue = n ∷ ns }
  unfolding match_queue
  match_queue-kept e px n ns m more kept =
      let stops =
        match_queue-stops e px ns (match_node e px n m).1 (match_node_kept e px n m kept) in
      rw more (rw kept (ap (λ (x : Matching). record x { queue = n ∷ x.queue }) stops))

  -- Conservation at one level: the lots that the orders of the level still have after the loop and the
  -- lots that the incoming order has lost make up the lots that the orders had, whatever the queue, if
  -- its nodes are nodes of the pool and none stands in it twice.
  pub match_queue-queue_lots :
      (e : NormalizedLobEvent) (px : ℤ) (ns : List ℕ) (m : Matching)
      → NoRepeat ns
      → AllBelow (size m.sim.order_pool) ns
      → let m' = match_queue e px ns m in
        queue_lots m'.sim m'.queue +ℤ (m.remaining -ℤ m'.remaining) ≡ queue_lots m.sim ns
  unfolding match_queue
  match_queue-queue_lots e px [] m d a = nothing_taken m.remaining
  match_queue-queue_lots e px (n ∷ ns) m d a =
      let (kept, m1) = match_node e px n m in
      let only = match_node-OnlyNode e px n m a.0 in
      let node = match_node-lots e px n m a.0 in
      let same = queue_lots-OnlyNode n ns m.sim m1.sim only d.0 in
      let Goal : Matching → Type 0 =
        λ x. queue_lots x.sim x.queue +ℤ (m.remaining -ℤ x.remaining) ≡ queue_lots m.sim (n ∷ ns) in
      elim (Bool-cases (leb_ℤ m.remaining (pos 0))) [
        | inl done ↦
            subst Goal (sym (match_queue-stops e px (n ∷ ns) m done))
              (no_change (queue_lots m.sim (n ∷ ns)) m.remaining)
        | inr more ↦ elim (Bool-cases kept) [
          | inl stays ↦ subst Goal (sym (match_queue-kept e px n ns m more stays)) (
              add_front (live_lots (order_node m1.sim n).qty) (queue_lots m1.sim ns) m.remaining
                m1.remaining m1.remaining (queue_lots m.sim ns) (live_lots (order_node m.sim n).qty)
                (rw stays at node) (no_change (queue_lots m1.sim ns) m1.remaining ∙ same))
          | inr gone ↦ subst Goal (sym (match_queue-gone e px n ns m more gone)) (
              let m2 = match_queue e px ns m1 in
              let rest = queue_lots m2.sim m2.queue in
              let ih =
                match_queue-queue_lots e px ns m1 d.1
                  (subst (λ k. AllBelow k ns) (sym only.0) a.1) in
              no_front rest (m.remaining -ℤ m2.remaining) (queue_lots m.sim (n ∷ ns)) (
                add_front (pos 0) rest m.remaining m1.remaining m2.remaining (queue_lots m.sim ns)
                  (live_lots (order_node m.sim n).qty) (rw gone at node) (ih ∙ same)))
        ]
      ]
