-- ===== src/Engine/BestPrice.antt =====
-- The lazily cleaned heaps of cpp/src/paper_trading_simulator.cpp: what a heap owes its book, and
-- `best_opposite_price`.
use lobsim.Engine.State.{Book}
use lobsim.Base.{
  int_eq, ==ℤ_iff, Bool, Bool-cases, HashMap, List, Option, [], arith, false, if◌then◌else◌, inl,
  inr, leb_ℤ, neg_ℤ-neg_ℤ, neg_ℤ_parts, none, refl, some, true, ℤ, ◌==ℤ◌, ◌||◌, ◌∷◌, ◌≡◌, ◌≤ℤ◌, ◌⊎◌,
}
use lobsim.Engine.Prices.{best_opposite_price, decode, encode, is_live, push_price}

-- The heap holds the value.
abbrev pub has : ℤ → List ℤ → Bool
has x [] = false
has x (y ∷ ys) = x ==ℤ y || has x ys

abbrev AtMost : ℤ → List ℤ → Type 0
AtMost x [] = Unit
AtMost x (y ∷ ys) = (y ≤ℤ x) × AtMost x ys

abbrev Descending : List ℤ → Type 0
Descending [] = Unit
Descending (x ∷ xs) = AtMost x xs × Descending xs

AtMost-trans : (x y : ℤ) (h : List ℤ) → x ≤ℤ y → AtMost x h → AtMost y h
AtMost-trans x y [] p a = tt
AtMost-trans x y (z ∷ h) p a = (omega arith, AtMost-trans x y h p a.1)

has-AtMost : (x y : ℤ) (h : List ℤ) → AtMost x h → has y h ≡ true → y ≤ℤ x
has-AtMost x y [] a m = cc
has-AtMost x y (z ∷ h) a m = ground (arith, ==ℤ_iff y z, has-AtMost x y h a.1)

has-push : (x y : ℤ) (h : List ℤ) → has y (push_price x h) ≡ (y ==ℤ x || has y h)
has-push x y [] = refl
has-push x y (z ∷ h) = ground (arith, has-push x y h)

push-AtMost : (x y : ℤ) (h : List ℤ) → x ≤ℤ y → AtMost y h → AtMost y (push_price x h)
push-AtMost x y [] p a = (p, tt)
push-AtMost x y (z ∷ h) p a = ground (arith, push-AtMost x y h p a.1)

push-Descending : (x : ℤ) (h : List ℤ) → Descending h → Descending (push_price x h)
push-Descending x [] d = (tt, tt)
push-Descending x (z ∷ h) d =
    ground (arith, push-Descending x h d.1, push-AtMost x z h, AtMost-trans z x h)

decode-encode : (is_ask : Bool) (px : ℤ) → decode is_ask (encode is_ask px) ≡ px
decode-encode true px = neg_ℤ-neg_ℤ px
decode-encode false px = refl

-- `a` is at least as good a price as `b` to trade against.
abbrev pub no_worse : Bool → ℤ → ℤ → Bool
no_worse is_ask a b = if is_ask then leb_ℤ a b else leb_ℤ b a

no_worse_of_le :
    (is_ask : Bool) (x q : ℤ) → encode is_ask q ≤ℤ x → no_worse is_ask (decode is_ask x) q ≡ true
no_worse_of_le true x q p = let n = neg_ℤ_parts x in let m = neg_ℤ_parts q in ground arith
no_worse_of_le false x q p = ground arith

module _ ⦃H : HashMap⦄ where
  -- The heap of a side is in order and has the price of every level that is not empty.
  pub record IsCovered (is_ask : Bool) (b : Book) (h : List ℤ) : Type 0 where
    pub descending : Descending h
    pub covers : (px : ℤ) → is_live b px ≡ true → has (encode is_ask px) h ≡ true

  -- What the best price of the book is, whatever the heap.
  abbrev pub IsBest : Bool → Book → Option ℤ → Type 0
  IsBest is_ask b none = (q : ℤ) → is_live b q ≡ false
  IsBest is_ask b (some px) =
      (is_live b px ≡ true) × ((q : ℤ) → is_live b q ≡ true → no_worse is_ask px q ≡ true)

  covers_tail :
      (is_ask : Bool) (b : Book) (x : ℤ) (h : List ℤ)
      → is_live b (decode is_ask x) ≡ false
      → IsCovered is_ask b (x ∷ h)
      → IsCovered is_ask b h
  covers_tail is_ask b x h stale c = record {
    descending = c.descending.1;
    covers = λ px live.
        ground (arith, c.covers px live, ==ℤ_iff (encode is_ask px) x, decode-encode is_ask px);
  }

  le_top :
      (is_ask : Bool) (b : Book) (x : ℤ) (h : List ℤ)
      → IsCovered is_ask b (x ∷ h)
      → (q : ℤ) → is_live b q ≡ true
      → encode is_ask q ≤ℤ x
  le_top is_ask b x h c q l = ground (
    arith,
    c.covers q l,
    ==ℤ_iff (encode is_ask q) x,
    has-AtMost x (encode is_ask q) h c.descending.0,
  )

  -- On a covered book `best_opposite_price` returns the best price of all levels that are not empty, or
  -- nothing if all are empty, and the heap that it leaves still covers the book.
  pub best_opposite_price-IsBest :
      (is_ask : Bool) (b : Book) (h : List ℤ)
      → IsCovered is_ask b h
      → IsBest is_ask b (best_opposite_price is_ask b h).0
        × IsCovered is_ask b (best_opposite_price is_ask b h).1
  unfolding best_opposite_price
  best_opposite_price-IsBest is_ask b [] c = (λ q. ground (arith, c.covers q), c)
  best_opposite_price-IsBest is_ask b (x ∷ h) c = elim (Bool-cases (is_live b (decode is_ask x))) [
    | inl live ↦ rw live ((live, λ q l. no_worse_of_le is_ask x q (le_top is_ask b x h c q l)), c)
    | inr stale ↦
        rw stale (best_opposite_price-IsBest is_ask b h (covers_tail is_ask b x h stale c))
  ]

  -- A book with no level that was empty before is covered by the same heap.
  pub IsCovered-shrink :
      (is_ask : Bool) (b b' : Book) (h : List ℤ)
      → ((q : ℤ) → is_live b' q ≡ true → is_live b q ≡ true)
      → IsCovered is_ask b h
      → IsCovered is_ask b' h
  IsCovered-shrink is_ask b b' h s c = record {
    descending = c.descending;
    covers = λ px live. c.covers px (s px live);
  }

  -- And a book with one more level by the heap with its price.
  pub IsCovered-push :
      (is_ask : Bool) (b b' : Book) (px : ℤ) (h : List ℤ)
      → ((q : ℤ) → is_live b' q ≡ true → (px ≡ q) ⊎ (is_live b q ≡ true))
      → IsCovered is_ask b h
      → IsCovered is_ask b' (push_price (encode is_ask px) h)
  IsCovered-push is_ask b b' px h s c = record {
    descending = push-Descending (encode is_ask px) h c.descending;
    covers = λ q live. ground (
      arith,
      s q live,
      c.covers q,
      has-push (encode is_ask px) (encode is_ask q) h,
      ==ℤ_iff (encode is_ask q) (encode is_ask px),
    );
  }
