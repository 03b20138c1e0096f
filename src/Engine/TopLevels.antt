-- ===== src/Engine/TopLevels.antt =====
-- What `l2_top_n` returns.
pub mod Complete
use lobsim.Base.{
  int_eq, Bool, Bool-cases, List, [], ap, arith, false, if_both, inl, inr, leb_ℤ, length, ltb, pos,
  refl, suc, ℕ, ◌∙◌, ◌∷◌, ◌≡◌, ◌≤◌, ==ℤ_iff, Distinct, HashMap, is_empty, lookup, some, subst, sym,
  true, ℤ, ◌==ℕ◌, ◌||◌,
}
use lobsim.Base.Heap.{push, pop}
use lobsim.Engine.Query.{
  Level, beats_top, better_price, keep_level, keep_levels, accumulate, depth_at, l2_top_n,
  level_depths,
}
use lobsim.Engine.Query.{sort}
use lobsim.Engine.State.{OrderPriorityQueue, PaperTradingSimulator, book}
use lobsim.Types.{Side, is_buy}

abbrev pub All : (Level → Type 0) → List Level → Type 0
All P [] = Unit
All P (l ∷ ls) = P l × All P ls

pub All-push :
    (P : Level → Type 0) (less : Level → Level → Bool) (l : Level) (ls : List Level)
    → P l
    → All P ls
    → All P (push less l ls)
All-push P less l [] p a = (p, tt)
All-push P less l (m ∷ ls) p a =
    if_both (All P) (less m l) _ _ (p, a) (a.0, All-push P less l ls p a.1)

All-pop : (P : Level → Type 0) (ls : List Level) → All P ls → All P (pop ls)
All-pop P [] a = a
All-pop P (l ∷ ls) a = a.1

pub All-sort :
    (P : Level → Type 0) (less : Level → Level → Bool) (ls : List Level)
    → All P ls
    → All P (sort less ls)
unfolding sort
All-sort P less [] a = tt
All-sort P less (l ∷ ls) a =
    All-push P (λ a b. less b a) l (sort less ls) a.0 (All-sort P less ls a.1)

All-keep_level :
    (P : Level → Type 0) (is_bid : Bool) (n : ℕ) (l : Level) (h : List Level)
    → ((leb_ℤ l.1 (pos 0) ≡ false) → P l)
    → All P h
    → All P (keep_level is_bid n l h)
All-keep_level P is_bid n l h p a = elim (Bool-cases (leb_ℤ l.1 (pos 0))) [
  | inl empty ↦ rw empty a
  | inr some_lots ↦ rw some_lots (
      if_both (All P) (ltb (length h) n) _ _ (All-push P (better_price is_bid) l h (p some_lots) a)
        (if_both (All P) (beats_top is_bid l h) _ _
          (All-push P (better_price is_bid) l (pop h) (p some_lots) (All-pop P h a)) a))
]

pub length-push :
    (less : Level → Level → Bool) (l : Level) (ls : List Level)
    → length (push less l ls) ≡ suc (length ls)
length-push less l [] = refl
length-push less l (m ∷ ls) = ground (arith, length-push less l ls)

pub length-sort :
    (less : Level → Level → Bool) (ls : List Level) → length (sort less ls) ≡ length ls
unfolding sort
length-sort less [] = refl
length-sort less (l ∷ ls) =
    length-push (λ a b. less b a) l (sort less ls) ∙ ap suc (length-sort less ls)

pub length-keep_level :
    (is_bid : Bool) (n : ℕ) (l : Level) (h : List Level)
    → length h ≤ n
    → length (keep_level is_bid n l h) ≤ n
length-keep_level is_bid n l [] le = ground (arith, length-push (better_price is_bid) l [])
length-keep_level is_bid n l (m ∷ h) le =
    ground
      (arith, length-push (better_price is_bid) l (m ∷ h), length-push (better_price is_bid) l h)

length-keep_levels :
    (is_bid : Bool) (n : ℕ) (ls h : List Level)
    → length h ≤ n
    → length (keep_levels is_bid n ls h) ≤ n
unfolding keep_levels
length-keep_levels is_bid n [] h le = le
length-keep_levels is_bid n (l ∷ ls) h le =
    length-keep_levels is_bid n ls (keep_level is_bid n l h) (length-keep_level is_bid n l h le)

-- No price is better than one before it.
abbrev pub BestFirst : Bool → List Level → Type 0
BestFirst is_bid [] = Unit
BestFirst is_bid (l ∷ ls) = All (λ m. better_price is_bid m l ≡ false) ls × BestFirst is_bid ls

pub All-map :
    (P Q : Level → Type 0) (ls : List Level) → ((l : Level) → P l → Q l) → All P ls → All Q ls
All-map P Q [] f a = tt
All-map P Q (l ∷ ls) f a = (f l a.0, All-map P Q ls f a.1)

pub better_price-flip :
    (is_bid : Bool) (l m : Level) → better_price is_bid l m ≡ true → better_price is_bid m l ≡ false
better_price-flip true l m h = ground (arith, h)
better_price-flip false l m h = ground (arith, h)

pub better_price-below :
    (is_bid : Bool) (k l m : Level)
    → better_price is_bid l m ≡ true
    → better_price is_bid k m ≡ false
    → better_price is_bid k l ≡ false
better_price-below true k l m h g = ground (arith, h, g)
better_price-below false k l m h g = ground (arith, h, g)

BestFirst-push :
    (is_bid : Bool) (l : Level) (ls : List Level)
    → BestFirst is_bid ls
    → BestFirst is_bid (push (λ a b. better_price is_bid b a) l ls)
BestFirst-push is_bid l [] b = (tt, tt)
BestFirst-push is_bid l (m ∷ ls) b = elim (Bool-cases (better_price is_bid l m)) [
  | inl better ↦ rw better (
    (
      better_price-flip is_bid l m better,
      All-map _ _ ls (λ k. better_price-below is_bid k l m better) b.0,
    ),
    b,
  )
  | inr worse ↦ rw worse (
    All-push (λ k. better_price is_bid k m ≡ false) (λ x y. better_price is_bid y x) l ls worse b.0,
    BestFirst-push is_bid l ls b.1,
  )
]

BestFirst-sort :
    (is_bid : Bool) (ls : List Level) → BestFirst is_bid (sort (better_price is_bid) ls)
unfolding sort
BestFirst-sort is_bid [] = tt
BestFirst-sort is_bid (l ∷ ls) =
    BestFirst-push is_bid l (sort (better_price is_bid) ls) (BestFirst-sort is_bid ls)

module _ ⦃H : HashMap⦄ where
  -- A level that the book has, with its depth, which is positive.
  abbrev pub IsLevel : Side → PaperTradingSimulator → Level → Type 0
  IsLevel side s l = (leb_ℤ l.1 (pos 0) ≡ false) × (depth_at side l.0 s ≡ some l.1)

  -- What is kept of the levels of some entries of the book.
  keep_levels-IsLevel :
      (side : Side) (n : ℕ) (s : PaperTradingSimulator) (es : List (ℤ × OrderPriorityQueue))
      (h : List Level)
      → Distinct es
      → ((px : ℤ) (q : OrderPriorityQueue)
          → lookup px es ≡ some q
          → H.find px (book side s) ≡ some q)
      → All (IsLevel side s) h
      → All (IsLevel side s) (keep_levels (is_buy side) n (level_depths s es) h)
  unfolding keep_levels level_depths depth_at
  keep_levels-IsLevel side n s [] h d f a = a
  keep_levels-IsLevel side n s ((px, q) ∷ es) h d f a =
      let here : lookup px ((px, q) ∷ es) ≡ some q = ground (arith, ==ℤ_iff px px) in
      keep_levels-IsLevel side n s es _ d.1 (λ j w e. f j w (ground (arith, e, d.0, ==ℤ_iff px j)))
        (All-keep_level (IsLevel side s) (is_buy side) n (px, accumulate s (pos 0) q) h
          (λ more. (more, rw (f px q here, depth_at) refl)) a)

  -- `l2_top_n` returns at most `n` levels, the best price first, each a price at which the book has a
  -- level, with the depth that `depth_at` gives, which is positive.
  pub l2_top_n-BestFirst :
      (side : Side) (n : ℕ) (s : PaperTradingSimulator)
      → let top = l2_top_n side n s in
        (length top ≤ n) × BestFirst (is_buy side) top × All (IsLevel side s) top
  unfolding l2_top_n
  l2_top_n-BestFirst side n s =
      let es = H.entries (book side s) in
      let kept = keep_levels (is_buy side) n (level_depths s es) [] in
      if_both
        (λ (top : List Level).
          (length top ≤ n) × BestFirst (is_buy side) top × All (IsLevel side s) top)
        (is_empty es || (n ==ℕ 0)) _ _ (omega arith, tt, tt)
        (
          subst (λ k. k ≤ n) (sym (length-sort (better_price (is_buy side)) kept))
              (length-keep_levels (is_buy side) n (level_depths s es) [] (omega arith)),
          BestFirst-sort (is_buy side) kept,
          All-sort (IsLevel side s) (better_price (is_buy side)) kept (
              keep_levels-IsLevel side n s es [] (H.entries-Distinct (book side s))
                (λ px q e. sym (H.lookup-entries px (book side s)) ∙ e) tt),
        )
