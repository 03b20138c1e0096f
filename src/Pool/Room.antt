-- ===== src/Pool/Room.antt =====
-- The room of a pool: how many nodes it can still hand out, and what handing one out leaves.
use lobsim.Pool.{Node, NodePool, size, deref, blank_node, acquire, iota, reset}
use lobsim.Pool.WellFormed.{
  is_free, NoRepeat, get_or-set, get_or-append_old, is_free-iota, iota-NoRepeat, length-clear_nodes,
}
use lobsim.Base.{
  ℕ, zero, suc, ◌+◌, ◌-◌, ◌<◌, ◌≤◌, ◌==ℕ◌, ==ℕ_iff, true, false, Option, some, List, [], ◌∷◌,
  length, length-append, length-set, get_or, ◌≡◌, refl, ap, arith, leb, if_cases,
}

module _ {A : Type 0} (blank : A) where
  abbrev pub IsOpen : NodePool A → Type 0
  IsOpen p = ((i : ℕ) → is_free i p.free_list ≡ true → i < size p) × NoRepeat p.free_list

  abbrev pub room : ℕ → NodePool A → ℕ
  room max_capacity p = length p.free_list + (max_capacity - size p)

  -- The node has been handed out.
  abbrev pub Held : NodePool A → ℕ → Type 0
  Held p n = (n < size p) × (is_free n p.free_list ≡ false)

  -- `q` is `p` after the node `n` was handed out.
  pub record Gained (max_capacity : ℕ) (p q : NodePool A) (n : ℕ) : Type 0 where
    pub still_open : IsOpen q
    pub held : Held q n
    pub keeps :
        (j : ℕ)
        → Held p j
        → Held q j × ((n ==ℕ j) ≡ false) × ((deref blank q j).content ≡ (deref blank p j).content)
    pub less : room max_capacity p ≡ suc (room max_capacity q)

  abbrev Gains : ℕ → NodePool A → Option ℕ × NodePool A → Type 0
  Gains max_capacity p r = (n : ℕ) × (r.0 ≡ some n) × Gained max_capacity p r.1 n

  Gains-at :
      (pool : List (Node A)) (free : List ℕ) (max_capacity : ℕ)
      → let p : NodePool A = record { pool = pool; free_list = free } in
        IsOpen p → 0 < room max_capacity p → Gains max_capacity p (acquire blank max_capacity p)
  unfolding acquire
  Gains-at pool [] max_capacity o h =
      let p : NodePool A = record { pool = pool; free_list = [] } in
      let new = record (blank_node blank) { pool_index = size p; in_use = true } in
      if_cases (Gains max_capacity p) (leb max_capacity (size p)) _ _
        (λ full. absurd (ground (arith, h, full)))
        (λ below. (
          size p,
          refl,
          record {
            still_open = (λ i k. ground (arith, k), tt);
            held = (ground (arith, length-append pool (new ∷ [])), refl);
            keeps = λ j k. (
              (ground (arith, k, length-append pool (new ∷ [])), refl),
              ground (arith, k, ==ℕ_iff (size p) j),
              ap (λ (x : Node A). x.content)
                  (get_or-append_old blank pool new (blank_node blank) j k.0),
            );
            less = ground (arith, h, below, length-append pool (new ∷ []));
          },
        ))
  Gains-at pool (idx ∷ rest) max_capacity o h =
      let d = blank_node blank in
      let x = record (get_or pool idx d) { in_use = true } in
      let here : idx < length pool = o.0 idx (ground (arith, ==ℕ_iff idx idx)) in
      (
        idx,
        refl,
        record {
          still_open = (λ i k. ground (arith, k, length-set pool idx x, o.0 i), o.1.1);
          held = (ground (arith, here, length-set pool idx x), o.1.0);
          keeps = λ j k. (
            ground (arith, k, length-set pool idx x),
            ground (arith, k),
            ground (arith, k, get_or-set blank pool x d idx j here),
          );
          less = ground (arith, length-set pool idx x);
        },
      )

  pub acquire-Gains :
      (max_capacity : ℕ) (p : NodePool A)
      → IsOpen p
      → 0 < room max_capacity p
      → Gains max_capacity p (acquire blank max_capacity p)
  acquire-Gains max_capacity p o h = Gains-at p.pool p.free_list max_capacity o h

  length-iota : (n : ℕ) → length (iota n) ≡ n
  unfolding iota
  length-iota zero = refl
  length-iota (suc n) = ap suc (length-iota n)

  pub reset-IsOpen :
      (max_capacity : ℕ) (p : NodePool A)
      → IsOpen (reset p) × (max_capacity ≤ room max_capacity (reset p))
  unfolding reset
  reset-IsOpen max_capacity p = (
    (
      λ i k. ground (arith, k, length-clear_nodes blank p.pool, is_free-iota blank (size p) i),
      iota-NoRepeat blank (size p),
    ),
    ground (arith, length-clear_nodes blank p.pool, length-iota (size p)),
  )
