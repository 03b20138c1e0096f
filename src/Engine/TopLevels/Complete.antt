-- ===== src/Engine/TopLevels/Complete.antt =====
-- The levels that `l2_top_n` leaves out.
use lobsim.Base.Heap.{pop}
use lobsim.Base.{
  int_eq, Bool, Bool-cases, List, [], arith, false, inl, inr, length, subst, sym, true, ℕ, ◌∙◌, ◌∷◌,
  ◌≡◌, ◌⊎◌, if_both, leb_ℤ, ltb, pos, ◌≤◌, HashMap, lookup, some, ℤ, ◌==ℕ◌, ==ℤ_iff, is_empty, none,
  ◌==ℤ◌,
}
use lobsim.Base.Heap.{push}
use lobsim.Engine.Query.{
  sort, Level, better_price, beats_top, keep_level, keep_levels, accumulate, l2_top_n, level_depths,
  depth_at,
}
use lobsim.Engine.TopLevels.{
  All, All-map, All-push, better_price-below, better_price-flip, length-push, length-keep_level,
  All-sort, length-sort,
}
use lobsim.Engine.State.{OrderPriorityQueue, PaperTradingSimulator, book}
use lobsim.Types.{Side, is_buy}

abbrev Member : Level → List Level → Type 0
Member l [] = false ≡ true
Member l (m ∷ ls) = (l ≡ m) ⊎ Member l ls

Member-push :
    (less : Level → Level → Bool) (l x : Level) (ls : List Level)
    → (l ≡ x) ⊎ Member l ls
    → Member l (push less x ls)
Member-push less l x [] h = h
Member-push less l x (m ∷ ls) h = ground (arith, h, Member-push less l x ls)

Member-sort :
    (less : Level → Level → Bool) (l : Level) (ls : List Level)
    → Member l ls
    → Member l (sort less ls)
unfolding sort
Member-sort less l [] h = h
Member-sort less l (m ∷ ls) (inl e) = Member-push (λ a b. less b a) l m (sort less ls) (inl e)
Member-sort less l (m ∷ ls) (inr h) =
    Member-push (λ a b. less b a) l m (sort less ls) (inr (Member-sort less l ls h))

-- No level is better than one after it: the heap of `l2_top_n` keeps the worst on top.
abbrev WorstFirst : Bool → List Level → Type 0
WorstFirst is_bid [] = Unit
WorstFirst is_bid (l ∷ ls) = All (λ m. better_price is_bid l m ≡ false) ls × WorstFirst is_bid ls

not_better_trans :
    (is_bid : Bool) (k l m : Level)
    → better_price is_bid k l ≡ false
    → better_price is_bid l m ≡ false
    → better_price is_bid k m ≡ false
not_better_trans true k l m h g = ground (arith, h, g)
not_better_trans false k l m h g = ground (arith, h, g)

WorstFirst-push :
    (is_bid : Bool) (l : Level) (ls : List Level)
    → WorstFirst is_bid ls
    → WorstFirst is_bid (push (better_price is_bid) l ls)
WorstFirst-push is_bid l [] w = (tt, tt)
WorstFirst-push is_bid l (m ∷ ls) w = elim (Bool-cases (better_price is_bid m l)) [
  | inl better ↦
      let flip = better_price-flip is_bid m l better in
      rw better ((flip, All-map _ _ ls (λ k. not_better_trans is_bid l m k flip) w.0), w)
  | inr worse ↦ rw worse (
    All-push (λ k. better_price is_bid m k ≡ false) (better_price is_bid) l ls worse w.0,
    WorstFirst-push is_bid l ls w.1,
  )
]

-- A level is kept, or the list is full and no level in it is worse.
abbrev pub Placed : Bool → ℕ → Level → List Level → Type 0
Placed is_bid n l h = Member l h ⊎ ((length h ≡ n) × All (λ k. better_price is_bid l k ≡ false) h)

-- The top of a full heap gives way to a better level.
Placed-replace :
    (is_bid : Bool) (n : ℕ) (l x t : Level) (h : List Level)
    → better_price is_bid x t ≡ true
    → WorstFirst is_bid (t ∷ h)
    → length (t ∷ h) ≡ n
    → Placed is_bid n l (t ∷ h)
    → Placed is_bid n l (push (better_price is_bid) x h)
Placed-replace is_bid n l x t h b w full (inl (inl e)) = inr (
  length-push (better_price is_bid) x h ∙ full,
  subst (λ y. All (λ k. better_price is_bid y k ≡ false) (push (better_price is_bid) x h)) (sym e)
      (All-push (λ k. better_price is_bid t k ≡ false) (better_price is_bid) x h
        (better_price-flip is_bid x t b) w.0),
)
Placed-replace is_bid n l x t h b w full (inl (inr m)) =
    inl (Member-push (better_price is_bid) l x h (inr m))
Placed-replace is_bid n l x t h b w full (inr (len, a)) = inr (
  length-push (better_price is_bid) x h ∙ full,
  All-push (λ k. better_price is_bid l k ≡ false) (better_price is_bid) x h
      (better_price-below is_bid l x t b a.0) a.1,
)

-- A level that is placed, or comes in with lots.
abbrev Comes : Bool → ℕ → Level → Level → List Level → Type 0
Comes is_bid n x l h = Placed is_bid n l h ⊎ ((l ≡ x) × (leb_ℤ x.1 (pos 0) ≡ false))

Placed-push :
    (is_bid : Bool) (n : ℕ) (x l : Level) (h : List Level)
    → ltb (length h) n ≡ true
    → Comes is_bid n x l h
    → Placed is_bid n l (push (better_price is_bid) x h)
Placed-push is_bid n x l h room (inl (inl m)) =
    inl (Member-push (better_price is_bid) l x h (inr m))
Placed-push is_bid n x l h room (inl (inr f)) = absurd (ground (arith, room, f.0))
Placed-push is_bid n x l h room (inr e) = inl (Member-push (better_price is_bid) l x h (inl e.0))

-- The list is full, and the top is not worse than the new level.
Placed-stays :
    (is_bid : Bool) (n : ℕ) (x l : Level) (h : List Level)
    → beats_top is_bid x h ≡ false
    → WorstFirst is_bid h
    → length h ≡ n
    → Comes is_bid n x l h
    → Placed is_bid n l h
Placed-stays is_bid n x l h b w full (inl p) = p
Placed-stays is_bid n x l [] b w full (inr e) = inr (full, tt)
Placed-stays is_bid n x l (t ∷ h) b w full (inr e) = inr (
  full,
  subst (λ y. All (λ k. better_price is_bid y k ≡ false) (t ∷ h)) (sym e.0)
      (b, All-map _ _ h (λ k. not_better_trans is_bid x t k b) w.0),
)

Placed-beats :
    (is_bid : Bool) (n : ℕ) (x l : Level) (h : List Level)
    → beats_top is_bid x h ≡ true
    → WorstFirst is_bid h
    → length h ≡ n
    → Comes is_bid n x l h
    → Placed is_bid n l (push (better_price is_bid) x (pop h))
Placed-beats is_bid n x l [] b w full c = absurd (ground (arith, b))
Placed-beats is_bid n x l (t ∷ h) b w full (inl p) = Placed-replace is_bid n l x t h b w full p
Placed-beats is_bid n x l (t ∷ h) b w full (inr e) =
    inl (Member-push (better_price is_bid) l x h (inl e.0))

Placed-keep_level :
    (is_bid : Bool) (n : ℕ) (x l : Level) (h : List Level)
    → WorstFirst is_bid h
    → length h ≤ n
    → Comes is_bid n x l h
    → Placed is_bid n l (keep_level is_bid n x h)
Placed-keep_level is_bid n x l h w le c = elim (Bool-cases (leb_ℤ x.1 (pos 0))) [
  | inl bare ↦ rw bare (elim c [ inl p ↦ p | inr e ↦ absurd (ground (arith, bare, e.1)) ])
  | inr lots ↦ rw lots (elim (Bool-cases (ltb (length h) n)) [
    | inl room ↦ rw room (Placed-push is_bid n x l h room c)
    | inr none_left ↦
        let full : length h ≡ n = ground (arith, none_left, le) in
        rw none_left (elim (Bool-cases (beats_top is_bid x h)) [
          | inl b ↦ rw b (Placed-beats is_bid n x l h b w full c)
          | inr b ↦ rw b (Placed-stays is_bid n x l h b w full c)
        ])
  ])
]

WorstFirst-pop : (is_bid : Bool) (h : List Level) → WorstFirst is_bid h → WorstFirst is_bid (pop h)
WorstFirst-pop is_bid [] w = tt
WorstFirst-pop is_bid (t ∷ h) w = w.1

WorstFirst-keep_level :
    (is_bid : Bool) (n : ℕ) (x : Level) (h : List Level)
    → WorstFirst is_bid h
    → WorstFirst is_bid (keep_level is_bid n x h)
WorstFirst-keep_level is_bid n x h w = if_both (WorstFirst is_bid) (leb_ℤ x.1 (pos 0)) _ _ w (
    if_both (WorstFirst is_bid) (ltb (length h) n) _ _ (WorstFirst-push is_bid x h w) (
      if_both (WorstFirst is_bid) (beats_top is_bid x h) _ _
        (WorstFirst-push is_bid x (pop h) (WorstFirst-pop is_bid h w)) w))

-- Every level with lots is placed at the end.
Placed-keep_levels :
    (is_bid : Bool) (n : ℕ) (ls h : List Level) (l : Level)
    → WorstFirst is_bid h
    → length h ≤ n
    → leb_ℤ l.1 (pos 0) ≡ false
    → Placed is_bid n l h ⊎ Member l ls
    → Placed is_bid n l (keep_levels is_bid n ls h)
unfolding keep_levels
Placed-keep_levels is_bid n [] h l w le lots (inl p) = p
Placed-keep_levels is_bid n [] h l w le lots (inr m) = absurd (ground (arith, m))
Placed-keep_levels is_bid n (x ∷ ls) h l w le lots c =
    Placed-keep_levels is_bid n ls (keep_level is_bid n x h) l
      (WorstFirst-keep_level is_bid n x h w) (length-keep_level is_bid n x h le) lots (next c)
  where
    next :
        Placed is_bid n l h ⊎ Member l (x ∷ ls)
        → Placed is_bid n l (keep_level is_bid n x h) ⊎ Member l ls
    next (inl p) = inl (Placed-keep_level is_bid n x l h w le (inl p))
    next (inr (inl e)) = inl (
        Placed-keep_level is_bid n x l h w le
          (inr (e, subst (λ y. leb_ℤ y.1 (pos 0) ≡ false) e lots)))
    next (inr (inr m)) = inr m

length_zero : (n : ℕ) → (n ==ℕ 0) ≡ true → 0 ≡ n
length_zero n h = ground (arith, h)

module _ ⦃H : HashMap⦄ where
  Member-level_depths :
      (px depth : ℤ) (s : PaperTradingSimulator) (es : List (ℤ × OrderPriorityQueue))
      → (elim (lookup px es) [ none ↦ none | some q ↦ some (accumulate s (pos 0) q) ]) ≡ some depth
      → Member (px, depth) (level_depths s es)
  unfolding level_depths
  Member-level_depths px depth s [] h = ground (arith, h)
  Member-level_depths px depth s ((j, r) ∷ es) h = elim (Bool-cases (j ==ℤ px)) [
    | inl same ↦ inl (ground (arith, rw same at h, same, ==ℤ_iff j px))
    | inr other ↦ inr (Member-level_depths px depth s es (rw other at h))
  ]

  none_listed :
      (l : Level) (s : PaperTradingSimulator) (es : List (ℤ × OrderPriorityQueue))
      → is_empty es ≡ true
      → Member l (level_depths s es)
      → false ≡ true
  unfolding level_depths
  none_listed l s [] e m = m
  none_listed l s (x ∷ es) e m = ground (arith, e)

  Placed-sort :
      (is_bid : Bool) (n : ℕ) (l : Level) (h : List Level)
      → Placed is_bid n l h
      → Placed is_bid n l (sort (better_price is_bid) h)
  Placed-sort is_bid n l h (inl m) = inl (Member-sort (better_price is_bid) l h m)
  Placed-sort is_bid n l h (inr f) = inr (
    length-sort (better_price is_bid) h ∙ f.0,
    All-sort (λ k. better_price is_bid l k ≡ false) (better_price is_bid) h f.1,
  )

  -- A level of the book with a positive depth is among the levels that `l2_top_n` returns, or `n` levels
  -- are returned and none of them has a worse price.
  pub l2_top_n-Placed :
      (side : Side) (n : ℕ) (s : PaperTradingSimulator) (px depth : ℤ)
      → depth_at side px s ≡ some depth
      → leb_ℤ depth (pos 0) ≡ false
      → Placed (is_buy side) n (px, depth) (l2_top_n side n s)
  unfolding l2_top_n depth_at
  l2_top_n-Placed side n s px depth found lots =
      let es = H.entries (book side s) in
      let h : (elim (lookup px es) [ none ↦ none | some q ↦ some (accumulate s (pos 0) q) ])
          ≡ some depth =
        rw (H.lookup-entries px (book side s)) found in
      let m = Member-level_depths px depth s es h in
      elim (Bool-cases (is_empty es)) [
        | inl bare ↦ absurd (ground (arith, none_listed (px, depth) s es bare m))
        | inr some_levels ↦ rw some_levels (elim (Bool-cases (n ==ℕ 0)) [
          | inl none_asked ↦ rw none_asked (inr (length_zero n none_asked, tt))
          | inr asked ↦ rw asked (
              Placed-sort (is_buy side) n (px, depth) _
                (Placed-keep_levels (is_buy side) n (level_depths s es) [] (px, depth) tt
                  (omega arith) lots (inr m)))
        ])
      ]
