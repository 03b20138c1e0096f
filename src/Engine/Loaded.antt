-- ===== src/Engine/Loaded.antt =====
-- The book that an L2 snapshot leaves: one order for each row. A child has the load as a whole.
pub mod Depth
mod Tests
use lobsim.Pool.{NodePool, deref, store, acquire, blank_node}
use lobsim.Pool.Room.{Held, IsOpen, room, Gained, acquire-Gains}
use lobsim.Pool.WellFormed.{get_or-set}
use lobsim.Base.{
  ℕ, suc, ◌<◌, ==ℕ_iff, ℤ, ◌==ℤ◌, ==ℤ_iff, Bool, true, false, ◌&&◌, Option, none, some, List, [],
  ◌∷◌, ◌++◌, length-set, HashMap, int_eq, ◌≡◌, refl, ap, subst, arith, if◌then◌else◌, Bool-cases,
  inl, inr,
}
use lobsim.Types.{Side, buy, sell, same_side, unknown_order_id_sentinel, unknown_trader_id_sentinel}
use lobsim.Engine.State.{
  PaperTradingSimulator, OrderNode, OrderPriorityQueue, Book, blank_order_node, book, with_book,
}
use lobsim.Engine.Init.{L2Row, row_node, store_row, push_side, add_l2_row}

-- The row is about that level.
abbrev pub is_at : Side → ℤ → L2Row → Bool
is_at side px r = same_side r.side side && r.price ==ℤ px

-- What the rows say of a level.
abbrev pub row_depth : Side → ℤ → List L2Row → Option ℤ
row_depth side px [] = none
row_depth side px (r ∷ rs) = if is_at side px r then some r.quantity else row_depth side px rs

-- No row of the second list is about the level of one before it.
abbrev pub AllNew : List L2Row → List L2Row → Type 0
AllNew before [] = Unit
AllNew before (r ∷ rs) = (row_depth r.side r.price before ≡ none) × AllNew (before ++ r ∷ []) rs

row_depth-append :
    (side : Side) (px : ℤ) (rs : List L2Row) (r : L2Row)
    → row_depth side px (rs ++ r ∷ []) ≡ elim (row_depth side px rs) [
      | none ↦ if is_at side px r then some r.quantity else none
      | some d ↦ some d
    ]
row_depth-append side px [] r = refl
row_depth-append side px (x ∷ rs) r = ground (arith, row_depth-append side px rs r)

-- The queue is that of a level with these lots: one node, that the pool has handed out.
abbrev pub IsLevelOf : NodePool OrderNode → Option OrderPriorityQueue → Option ℤ → Type 0
IsLevelOf p none none = Unit
IsLevelOf p none (some d) = false ≡ true
IsLevelOf p (some q) none = false ≡ true
IsLevelOf p (some q) (some d) =
    (n : ℕ) × (q ≡ n ∷ [])
    × Held blank_order_node p n
    × ((deref blank_order_node p n).content.qty ≡ d)

IsLevelOf-kept :
    (p t : NodePool OrderNode) (q : Option OrderPriorityQueue) (d : Option ℤ)
    → ((n : ℕ)
        → Held blank_order_node p n
        → Held blank_order_node t n
          × ((deref blank_order_node t n).content ≡ (deref blank_order_node p n).content))
    → IsLevelOf p q d
    → IsLevelOf t q d
IsLevelOf-kept p t none none k h = h
IsLevelOf-kept p t none (some d) k h = h
IsLevelOf-kept p t (some q) none k h = h
IsLevelOf-kept p t (some q) (some d) k (n, e, held_n, lots) =
    (n, e, (k n held_n).0, ground (arith, lots, (k n held_n).1))

module _ ⦃H : HashMap⦄ where
  -- The state after the rows have been read.
  pub record IsLoaded (rows : List L2Row) (s : PaperTradingSimulator) : Type 0 where
    pub levels :
        (side : Side) (px : ℤ)
        → IsLevelOf s.order_pool (H.find px (book side s)) (row_depth side px rows)
    pub free_nodes : IsOpen blank_order_node s.order_pool

  abbrev pub room_in : PaperTradingSimulator → ℕ
  room_in s = room blank_order_node s.pool_config.historical_capacity s.order_pool

  pool-push :
      (side : Side) (px : ℤ) (b : Book) (s : PaperTradingSimulator)
      → (push_side side px (with_book side b s)).order_pool ≡ s.order_pool
  pool-push buy px b s = refl
  pool-push sell px b s = refl

  config-push :
      (side : Side) (px : ℤ) (b : Book) (s : PaperTradingSimulator)
      → (push_side side px (with_book side b s)).pool_config ≡ s.pool_config
  config-push buy px b s = refl
  config-push sell px b s = refl

  book-push :
      (side own : Side) (px : ℤ) (b : Book) (s : PaperTradingSimulator)
      → book side (push_side own px (with_book own b s))
        ≡ (if same_side own side then b else book side s)
  book-push buy buy px b s = refl
  book-push buy sell px b s = refl
  book-push sell buy px b s = refl
  book-push sell sell px b s = refl

  same_side-eq : (a b : Side) → same_side a b ≡ true → a ≡ b
  same_side-eq buy buy h = refl
  same_side-eq buy sell h = ground (arith, h)
  same_side-eq sell buy h = ground (arith, h)
  same_side-eq sell sell h = refl

  find-push :
      (r : L2Row) (side : Side) (px : ℤ) (q : OrderPriorityQueue) (s : PaperTradingSimulator)
      → H.find px (
          book side
            (push_side r.side r.price (with_book r.side (H.assign r.price q (book r.side s)) s)))
        ≡ (if is_at side px r then some q else H.find px (book side s))
  find-push r side px q s =
      rw (book-push side r.side r.price (H.assign r.price q (book r.side s)) s)
        (elim (Bool-cases (same_side r.side side)) [
          | inl own ↦ rw own ground (
            arith,
            H.find-assign px r.price q (book r.side s),
            ap (λ x. H.find px (book x s)) (same_side-eq r.side side own),
          )
          | inr other ↦ rw other refl
        ])

  -- What the acquired node and its content leave of the nodes that were handed out.
  store_kept :
      (most n : ℕ) (p q : NodePool OrderNode) (content : OrderNode)
      → Gained blank_order_node most p q n
      → let t = store q n blank_order_node content in
        IsOpen blank_order_node t
        × Held blank_order_node t n
        × ((deref blank_order_node t n).content ≡ content)
        × ((j : ℕ)
            → Held blank_order_node p j
            → Held blank_order_node t j
              × ((deref blank_order_node t j).content ≡ (deref blank_order_node p j).content))
        × (room blank_order_node most p ≡ suc (room blank_order_node most t))
  store_kept most n p q content g =
      let d = blank_node blank_order_node in
      let x = record (deref blank_order_node q n) { content = content } in
      (
        (λ i k. ground (arith, length-set q.pool n x, g.still_open.0 i k), g.still_open.1),
        ground (arith, length-set q.pool n x, g.held),
        ground (arith, get_or-set blank_order_node q.pool x d n n g.held.0, ==ℕ_iff n n),
        λ j k.
            let kept = g.keeps j k in
            (
              ground (arith, length-set q.pool n x, kept.0),
              ground (arith, get_or-set blank_order_node q.pool x d n j g.held.0, kept.1, kept.2),
            ),
        ground (arith, length-set q.pool n x, g.less),
      )

  row_depth-here :
      (side : Side) (px : ℤ) (rows : List L2Row) (r : L2Row)
      → is_at side px r ≡ true
      → row_depth r.side r.price rows ≡ none
      → row_depth side px (rows ++ r ∷ []) ≡ some r.quantity
  row_depth-here side px rows r here new =
      let own = same_side-eq r.side side (ground (arith, here)) in
      let price : r.price ≡ px = (==ℤ_iff r.price px).0 (ground (arith, here)) in
      let none_before : row_depth side px rows ≡ none =
        subst (λ x. row_depth x px rows ≡ none) own
          (subst (λ x. row_depth r.side x rows ≡ none) price new) in
      ground (arith, row_depth-append side px rows r, here, none_before)

  row_depth-there :
      (side : Side) (px : ℤ) (rows : List L2Row) (r : L2Row)
      → is_at side px r ≡ false
      → row_depth side px (rows ++ r ∷ []) ≡ row_depth side px rows
  row_depth-there side px rows r there = ground (arith, row_depth-append side px rows r, there)

  book-same :
      (side : Side) (s u : PaperTradingSimulator)
      → u.bids ≡ s.bids
      → u.asks ≡ s.asks
      → book side u ≡ book side s
  book-same buy s u bids asks = bids
  book-same sell s u bids asks = asks

  IsLoaded-push :
      (rows : List L2Row) (r : L2Row) (n : ℕ) (s u : PaperTradingSimulator)
      → u.bids ≡ s.bids
      → u.asks ≡ s.asks
      → row_depth r.side r.price rows ≡ none
      → IsLoaded rows s
      → IsOpen blank_order_node u.order_pool
      → Held blank_order_node u.order_pool n
      → (deref blank_order_node u.order_pool n).content.qty ≡ r.quantity
      → ((j : ℕ)
          → Held blank_order_node s.order_pool j
          → Held blank_order_node u.order_pool j
            × ((deref blank_order_node u.order_pool j).content
                ≡ (deref blank_order_node s.order_pool j).content))
      → IsLoaded (rows ++ r ∷ []) (
          push_side r.side r.price (with_book r.side (H.assign r.price (n ∷ []) (book r.side u)) u))
  IsLoaded-push rows r n s u bids asks new h o own lots kept =
      let t =
        push_side r.side r.price (with_book r.side (H.assign r.price (n ∷ []) (book r.side u)) u) in
      let pool : t.order_pool ≡ u.order_pool = pool-push r.side r.price _ u in
      record {
        levels = λ side px.
            rw (pool, find-push r side px (n ∷ []) u)
              (elim (Bool-cases (is_at side px r)) [
                | inl here ↦ rw (here, row_depth-here side px rows r here new) (n, refl, own, lots)
                | inr there ↦
                    rw (there, row_depth-there side px rows r there, book-same side s u bids asks)
                      (IsLevelOf-kept s.order_pool u.order_pool _ _ kept (h.levels side px))
              ]);
        free_nodes = rw pool o;
      }

  pub IsLoaded-add_l2_row :
      (rows : List L2Row) (r : L2Row) (s : PaperTradingSimulator)
      → row_depth r.side r.price rows ≡ none
      → 0 < room_in s
      → IsLoaded rows s
      → IsLoaded (rows ++ r ∷ []) (add_l2_row r s) × (room_in s ≡ suc (room_in (add_l2_row r s)))
  IsLoaded-add_l2_row rows r s new space h =
      let most = s.pool_config.historical_capacity in
      let (n, got, g) = acquire-Gains blank_order_node most s.order_pool h.free_nodes space in
      let node =
        row_node r.quantity unknown_order_id_sentinel unknown_trader_id_sentinel
          s.order_arrival_seq in
      let u =
        store_row n node
          (record s { order_pool = (acquire blank_order_node most s.order_pool).1 }) in
      let kept = store_kept most n s.order_pool _ node g in
      rw (got, add_l2_row)
        (
          IsLoaded-push rows r n s u refl refl new h kept.0 kept.1
              (ap (λ (x : OrderNode). x.qty) kept.2) kept.3,
          rw
              (
                pool-push r.side r.price (H.assign r.price (n ∷ []) (book r.side u)) u,
                config-push r.side r.price (H.assign r.price (n ∷ []) (book r.side u)) u,
              )
              kept.4,
        )
