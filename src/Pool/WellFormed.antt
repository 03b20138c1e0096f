-- ===== src/Pool/WellFormed.antt =====
-- The pool's invariant, over sequences of calls.
use lobsim.Pool.{reset}
use lobsim.Base.{
  set, Bool, List, [], arith, false, get_or, length, not, refl, suc, true, zero, ℕ, ◌++◌, ◌<◌,
  ◌==ℕ◌, ◌||◌, ◌∷◌, ◌≡◌, ==ℕ_iff, Bool-cases, Option, if_both, if◌then◌else◌, inl, inr, leb,
  length-append, length-set, subst, ap, ltb, some, get_or-set_ne, none, sym, ◌≢◌,
}
use lobsim.Pool.{
  size, Node, NodePool, deref, empty_pool, grow, release_node, blank_node, acquire, clear_nodes,
  iota, release,
}

-- The index is on the list.
abbrev pub is_free : ℕ → List ℕ → Bool
is_free i [] = false
is_free i (j ∷ js) = j ==ℕ i || is_free i js

abbrev pub NoRepeat : List ℕ → Type 0
NoRepeat [] = Unit
NoRepeat (i ∷ is) = (is_free i is ≡ false) × NoRepeat is

module _ {A : Type 0} (blank : A) where
  pub record IsWellFormed (p : NodePool A) : Type 0 where
    indexed : (i : ℕ) → i < size p → (deref blank p i).pool_index ≡ i
    in_use_iff : (i : ℕ) → i < size p → (deref blank p i).in_use ≡ not (is_free i p.free_list)
    in_range : (i : ℕ) → is_free i p.free_list ≡ true → i < size p
    no_repeat : NoRepeat p.free_list

  pub get_or-append_old :
      (xs : List (Node A)) (x d : Node A) (i : ℕ)
      → i < length xs
      → get_or (xs ++ x ∷ []) i d ≡ get_or xs i d
  get_or-append_old [] x d i h = elim h [ ]
  get_or-append_old (y ∷ xs) x d zero h = refl
  get_or-append_old (y ∷ xs) x d (suc i) h = get_or-append_old xs x d i (omega arith)

  get_or-append_new : (xs : List (Node A)) (x d : Node A) → get_or (xs ++ x ∷ []) (length xs) d ≡ x
  get_or-append_new [] x d = refl
  get_or-append_new (y ∷ xs) x d = get_or-append_new xs x d

  pub get_or-set :
      (xs : List (Node A)) (x d : Node A) (i j : ℕ)
      → i < length xs
      → get_or (set xs i x) j d ≡ (if i ==ℕ j then x else get_or xs j d)
  get_or-set [] x d i j h = elim h [ ]
  get_or-set (y ∷ xs) x d zero zero h = ground arith
  get_or-set (y ∷ xs) x d zero (suc j) h = ground arith
  get_or-set (y ∷ xs) x d (suc i) zero h = ground arith
  get_or-set (y ∷ xs) x d (suc i) (suc j) h = ground (arith, get_or-set xs x d i j (omega arith))

  empty_pool-IsWellFormed : IsWellFormed (empty_pool {A = A})
  empty_pool-IsWellFormed = record {
    indexed = λ i h. elim h [ ];
    in_use_iff = λ i h. elim h [ ];
    in_range = λ i h. ground (arith, h);
    no_repeat = tt;
  }

  -- A node at the end of the pool.
  IsWellFormed-grow :
      (p : NodePool A) (max_capacity : ℕ)
      → p.free_list ≡ []
      → IsWellFormed p
      → IsWellFormed (grow blank max_capacity p).1
  IsWellFormed-grow p max_capacity none_free wf =
      if_both (λ (x : Option ℕ × NodePool A). IsWellFormed x.1) (leb max_capacity (size p)) _ _ wf
        (let new = record (blank_node blank) { pool_index = size p; in_use = true } in
          record {
            indexed = λ i h. ground (
              arith,
              h,
              length-append p.pool (new ∷ []),
              wf.indexed i,
              get_or-append_old p.pool new (blank_node blank) i,
              get_or-append_new p.pool new (blank_node blank),
            );
            in_use_iff = λ i h. ground (
              arith,
              h,
              none_free,
              length-append p.pool (new ∷ []),
              wf.in_use_iff i,
              get_or-append_old p.pool new (blank_node blank) i,
              get_or-append_new p.pool new (blank_node blank),
            );
            in_range = λ i h. ground (arith, h, none_free);
            no_repeat = wf.no_repeat;
          })

  IsWellFormed-acquire_free :
      (p : NodePool A) (idx : ℕ) (rest : List ℕ)
      → p.free_list ≡ idx ∷ rest
      → IsWellFormed p
      → IsWellFormed (record p {
        pool = set p.pool idx (record (deref blank p idx) { in_use = true });
        free_list = rest;
      })
  IsWellFormed-acquire_free p idx rest first wf =
      let x = record (deref blank p idx) { in_use = true } in
      let here : idx < size p = wf.in_range idx (ground (arith, first, ==ℕ_iff idx idx)) in
      let repeat : NoRepeat (idx ∷ rest) = subst NoRepeat first wf.no_repeat in
      record {
        indexed = λ i h. ground (
          arith,
          h,
          length-set p.pool idx x,
          wf.indexed i,
          wf.indexed idx,
          ==ℕ_iff idx i,
          get_or-set p.pool x (blank_node blank) idx i here,
        );
        in_use_iff = λ i h. ground (
          arith,
          h,
          first,
          repeat.0,
          length-set p.pool idx x,
          wf.in_use_iff i,
          ==ℕ_iff idx i,
          get_or-set p.pool x (blank_node blank) idx i here,
        );
        in_range = λ i h. ground (arith, h, first, length-set p.pool idx x, wf.in_range i);
        no_repeat = repeat.1;
      }

  IsWellFormed-release_node :
      (p : NodePool A) (i : ℕ) → i < size p → IsWellFormed p → IsWellFormed (release_node blank i p)
  IsWellFormed-release_node p i h wf =
      let x = record (deref blank p i) { in_use = false } in
      elim (Bool-cases (deref blank p i).in_use) [
        | inl used ↦ rw used (record {
          indexed = λ j k. ground (
            arith,
            k,
            length-set p.pool i x,
            wf.indexed j,
            wf.indexed i,
            ==ℕ_iff i j,
            get_or-set p.pool x (blank_node blank) i j h,
          );
          in_use_iff = λ j k. ground (
            arith,
            k,
            length-set p.pool i x,
            wf.indexed i h,
            wf.in_use_iff j,
            ==ℕ_iff i j,
            get_or-set p.pool x (blank_node blank) i j h,
          );
          in_range = λ j k.
              ground (arith, k, length-set p.pool i x, wf.indexed i h, wf.in_range j, ==ℕ_iff i j);
          no_repeat = (ground (arith, used, wf.indexed i h, wf.in_use_iff i h), wf.no_repeat);
        })
        | inr unused ↦ rw unused wf
      ]

  clear_nodes-get_or :
      (ns : List (Node A)) (i : ℕ)
      → i < length ns
      → let d = blank_node blank in
        ((get_or (clear_nodes ns) i d).pool_index ≡ (get_or ns i d).pool_index)
        × ((get_or (clear_nodes ns) i d).in_use ≡ false)
  unfolding clear_nodes
  clear_nodes-get_or [] i h = elim h [ ]
  clear_nodes-get_or (n ∷ ns) zero h = (refl, refl)
  clear_nodes-get_or (n ∷ ns) (suc i) h = clear_nodes-get_or ns i (omega arith)

  pub length-clear_nodes : (ns : List (Node A)) → length (clear_nodes ns) ≡ length ns
  unfolding clear_nodes
  length-clear_nodes [] = refl
  length-clear_nodes (n ∷ ns) = ap suc (length-clear_nodes ns)

  IsWellFormed-acquire_at :
      (pool : List (Node A)) (free : List ℕ) (max_capacity : ℕ)
      → IsWellFormed (record { pool = pool; free_list = free })
      → IsWellFormed (acquire blank max_capacity (record { pool = pool; free_list = free })).1
  unfolding acquire
  IsWellFormed-acquire_at pool [] max_capacity wf = IsWellFormed-grow _ max_capacity refl wf
  IsWellFormed-acquire_at pool (idx ∷ rest) max_capacity wf =
      IsWellFormed-acquire_free (record { pool = pool; free_list = idx ∷ rest }) idx rest refl wf

  -- What a call of `acquire` did: no node and no change, with none free; or a node that was not in use
  -- and is now, and no other node has changed.
  abbrev pub IsFresh : NodePool A → Option ℕ × NodePool A → Type 0
  IsFresh p (none, p') = (p.free_list ≡ []) × (p' ≡ p)
  IsFresh p (some n, p') =
      ((deref blank p n).in_use ≡ false)
      × ((deref blank p' n).in_use ≡ true)
      × ((j : ℕ) → j ≢ n → deref blank p' j ≡ deref blank p j)

  get_or_past : (xs : List (Node A)) (d : Node A) → get_or xs (length xs) d ≡ d
  get_or_past [] d = refl
  get_or_past (y ∷ xs) d = get_or_past xs d

  get_or-append_ne :
      (xs : List (Node A)) (x d : Node A) (j : ℕ)
      → j ≢ length xs
      → get_or (xs ++ x ∷ []) j d ≡ get_or xs j d
  get_or-append_ne [] x d zero h = absurd (h refl)
  get_or-append_ne [] x d (suc j) h = refl
  get_or-append_ne (y ∷ xs) x d zero h = refl
  get_or-append_ne (y ∷ xs) x d (suc j) h = get_or-append_ne xs x d j (λ e. h (ap suc e))

  grow-IsFresh :
      (p : NodePool A) (max_capacity : ℕ) → p.free_list ≡ [] → IsFresh p (grow blank max_capacity p)
  grow-IsFresh p max_capacity e =
      let new = record (blank_node blank) { pool_index = size p; in_use = true } in
      if_both (IsFresh p) (leb max_capacity (size p)) _ _ (e, refl)
        (
          ap (λ (x : Node A). x.in_use) (get_or_past p.pool (blank_node blank)),
          ap (λ (x : Node A). x.in_use) (get_or-append_new p.pool new (blank_node blank)),
          λ j ne. get_or-append_ne p.pool new (blank_node blank) j ne,
        )

  acquire_at-IsFresh :
      (pool : List (Node A)) (free : List ℕ) (max_capacity : ℕ)
      → IsWellFormed (record { pool = pool; free_list = free })
      → IsFresh
          (record { pool = pool; free_list = free })
          (acquire blank max_capacity (record { pool = pool; free_list = free }))
  unfolding acquire
  acquire_at-IsFresh pool [] max_capacity wf = grow-IsFresh _ max_capacity refl
  acquire_at-IsFresh pool (idx ∷ rest) max_capacity wf =
      let d = blank_node blank in
      let here : idx < length pool = wf.in_range idx (ground (arith, ==ℕ_iff idx idx)) in
      let x = record (get_or pool idx d) { in_use = true } in
      (
        ground (arith, wf.in_use_iff idx here, ==ℕ_iff idx idx),
        ground (arith, get_or-set pool x d idx idx here, ==ℕ_iff idx idx),
        λ j ne. get_or-set_ne pool idx j x d (λ e. ne (sym e)),
      )

  pub is_free-iota : (n i : ℕ) → is_free i (iota n) ≡ ltb i n
  unfolding iota
  is_free-iota zero i = ground arith
  is_free-iota (suc n) i = ground (arith, is_free-iota n i, ==ℕ_iff n i)

  pub iota-NoRepeat : (n : ℕ) → NoRepeat (iota n)
  unfolding iota
  iota-NoRepeat zero = tt
  iota-NoRepeat (suc n) = (ground (arith, is_free-iota n n), iota-NoRepeat n)

  IsWellFormed-reset : (p : NodePool A) → IsWellFormed p → IsWellFormed (reset p)
  unfolding reset
  IsWellFormed-reset p wf = record {
    indexed = λ i h.
        ground (arith, h, length-clear_nodes p.pool, clear_nodes-get_or p.pool i, wf.indexed i);
    in_use_iff = λ i h.
        ground (
          arith,
          h,
          length-clear_nodes p.pool,
          clear_nodes-get_or p.pool i,
          is_free-iota (size p) i,
        );
    in_range = λ i h. ground (arith, h, length-clear_nodes p.pool, is_free-iota (size p) i);
    no_repeat = iota-NoRepeat (size p);
  }

  -- A sequence of calls of the pool: a node that is released is one that `acquire` has handed out.
  pub data Calls (max_capacity : ℕ) : NodePool A → Type 0 where
    no_calls : Calls max_capacity empty_pool
    acquired :
        (p : NodePool A)
        → Calls max_capacity p
        → Calls max_capacity (acquire blank max_capacity p).1
    released :
        (p : NodePool A) (i : ℕ)
        → i < size p
        → Calls max_capacity p
        → Calls max_capacity (release blank (some i) p)
    reset_all : (p : NodePool A) → Calls max_capacity p → Calls max_capacity (reset p)

  Calls-IsWellFormed : (max_capacity : ℕ) (p : NodePool A) → Calls max_capacity p → IsWellFormed p
  unfolding release
  Calls-IsWellFormed c _ no_calls = empty_pool-IsWellFormed
  Calls-IsWellFormed c _ (acquired p k) =
      IsWellFormed-acquire_at p.pool p.free_list c (Calls-IsWellFormed c p k)
  Calls-IsWellFormed c _ (released p i h k) =
      IsWellFormed-release_node p i h (Calls-IsWellFormed c p k)
  Calls-IsWellFormed c _ (reset_all p k) = IsWellFormed-reset p (Calls-IsWellFormed c p k)

  -- After any sequence of calls of `acquire`, `release` and `reset`, `acquire` hands out a node that is
  -- not in use, marks it as used and changes no other node; or it hands out none, which it does only
  -- with no node free, and changes nothing.
  pub acquire-IsFresh :
      (max_capacity : ℕ) (p : NodePool A)
      → Calls max_capacity p
      → IsFresh p (acquire blank max_capacity p)
  acquire-IsFresh c p k = acquire_at-IsFresh p.pool p.free_list c (Calls-IsWellFormed c p k)
