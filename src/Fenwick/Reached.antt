-- ===== src/Fenwick/Reached.antt =====
-- The entries that the loop of `add` visits, and what that does to the prefix sums.
use lobsim.Fenwick.{low_bit, at, add_loop}
use lobsim.Fenwick.LowBit.{low_bit-bounds, low_bit-between, low_bit-next}
use lobsim.Fenwick.Prefix.{at-set}
use lobsim.Base.{
  ℕ, zero, suc, ◌+◌, ◌-◌, ◌^◌, ◌<◌, ◌≤◌, ℤ, ◌+ℤ◌, Bool, true, false, ◌&&◌, List, length, set,
  length-set, leb, ltb, ◌==ℕ◌, ==ℕ_iff, ◌≡◌, refl, ap, sym, subst, ◌∙◌, arith, if◌then◌else◌,
  Bool-cases, inl, inr, +ℤ_assoc, +ℤ_swap,
}

-- What the loop of `add` does to each entry.
abbrev is_reached : ℕ → ℕ → ℕ → Bool
is_reached from i j = leb i j && ltb (j - low_bit j) from

is_reached_self : (from i j : ℕ) → i ≡ j → i - low_bit i < from → is_reached from i j ≡ true
is_reached_self from i j e back = subst (λ x. is_reached from i x ≡ true) e (ground (arith, back))

reached_step :
    (from i j : ℕ) (delta : ℤ) (t : List ℤ)
    → i < length t
    → i - low_bit i < from
    → from ≤ i
    → 0 < low_bit i
    → (i < j → j < i + low_bit i → i + low_bit j ≤ j)
    → let u = set t i (at t i +ℤ delta) in
      (if is_reached from (i + low_bit i) j then at u j +ℤ delta else at u j)
      ≡ (if is_reached from i j then at t j +ℤ delta else at t j)
reached_step from i j delta t here back lo step between =
    let v = at t i +ℤ delta in
    elim (Bool-cases (i ==ℕ j)) [
      | inl same ↦
          let e : i ≡ j = (==ℕ_iff i j).0 same in
          let after : is_reached from (i + low_bit i) j ≡ false = ground (arith, e, step) in
          let here_now : is_reached from i j ≡ true = is_reached_self from i j e back in
          let entry : at (set t i v) j ≡ v = rw (at-set t i j v here, same) refl in
          rw (after, here_now) (entry ∙ ap (λ x. at t x +ℤ delta) e)
      | inr other ↦
          let alike : is_reached from (i + low_bit i) j ≡ is_reached from i j =
            ground (arith, other, ==ℕ_iff i j, between, lo) in
          let entry : at (set t i v) j ≡ at t j = rw (at-set t i j v here, other) refl in
          rw (alike, entry) refl
    ]

pub add_loop-at :
    (from n i : ℕ) (delta : ℤ) (t : List ℤ)
    → length t < 2 ^ 63
    → 0 < from
    → from ≤ i
    → (i < length t → i - low_bit i < from)
    → length t ≤ n + i
    → (length (add_loop n i delta t) ≡ length t)
      × ((j : ℕ)
          → j < length t
          → at (add_loop n i delta t) j ≡ (if is_reached from i j then at t j +ℤ delta else at t j))
unfolding add_loop
add_loop-at from zero i delta t small h lo back enough = (refl, λ j k. ground (arith, k, enough))
add_loop-at from (suc n) i delta t small h lo back enough = elim (Bool-cases (ltb i (length t))) [
  | inr outside ↦ rw (outside, add_loop) (refl, λ j k. ground (arith, k, outside))
  | inl inside ↦
      let here : i < length t = ground (arith, inside) in
      let v = at t i +ℤ delta in
      let step = low_bit-bounds i (omega (arith, h, lo)) (omega (arith, small, here)) in
      let same = length-set t i v in
      let rest =
        add_loop-at from n (i + low_bit i) delta (set t i v) (omega (arith, small, same)) h
          (omega (arith, lo))
          (λ k.
            let next = low_bit-next i (omega (arith, h, lo)) (omega (arith, small, same, k)) in
            omega (arith, next, back here, step))
          (omega (arith, enough, same, step.0)) in
      rw (inside, add_loop)
        (
          rest.0 ∙ same,
          λ j k.
              rest.1 j (omega (arith, k, same))
              ∙ reached_step from i j delta t here (back here) lo step.0 (λ lt next.
                low_bit-between i j (omega (arith, h, lo)) lt next (omega (arith, small, k))),
        )
]

-- One entry after `add`: what was reached, and what the sums of the step back gained.
pub put_entry :
    (a b : ℕ → ℤ) (x y delta : ℤ) (index j low : ℕ)
    → low ≤ j
    → x +ℤ a (j - low) ≡ a j
    → y ≡ (if leb (index + 1) j && ltb (j - low) (index + 1) then x +ℤ delta else x)
    → ((k : ℕ) → k ≤ j → b k ≡ (if ltb index k then a k +ℤ delta else a k))
    → y +ℤ b (j - low) ≡ b j
put_entry a b x y delta index j low back e entry gained =
    let far = gained (j - low) (omega arith) in
    let near = gained j (omega arith) in
    elim (Bool-cases (ltb index j)) [
      | inr before ↦
          let y_is : y ≡ x = ground (arith, entry, before) in
          let far_is : b (j - low) ≡ a (j - low) = ground (arith, far, before, back) in
          let near_is : b j ≡ a j = ground (arith, near, before) in rw (y_is, far_is, near_is) e
      | inl behind ↦
          let near_is : b j ≡ a j +ℤ delta = ground (arith, near, behind) in
          elim (Bool-cases (ltb index (j - low))) [
            | inl both ↦
                let y_is : y ≡ x = ground (arith, entry, both) in
                let far_is : b (j - low) ≡ a (j - low) +ℤ delta = ground (arith, far, both) in
                rw (y_is, far_is, near_is)
                  (sym (+ℤ_assoc x (a (j - low)) delta) ∙ ap (λ v. v +ℤ delta) e)
            | inr own ↦
                let y_is : y ≡ x +ℤ delta = ground (arith, entry, own, behind) in
                let far_is : b (j - low) ≡ a (j - low) = ground (arith, far, own) in
                rw (y_is, far_is, near_is) (+ℤ_swap x delta (a (j - low)) ∙ ap (λ v. v +ℤ delta) e)
          ]
    ]
