-- ===== src/Fenwick/LowBit.antt =====
-- The lowest digit 1 of an index, which `i & -i` computes, and the steps of the tree's loops.
use Prim.Native.Nat.{bit_and-bitwise, digits, min}
use Prim.Native.Nat.pow
use lobsim.Fenwick.{low_bit}
use lobsim.Base.{
  ℕ, zero, suc, ◌+◌, ◌-◌, ◌*◌, ◌/◌, ◌%◌, ◌^◌, ◌<◌, ◌≤◌, ◌==ℕ◌, ◌≡◌, refl, ap, ◌∙◌, sym, arith,
  if◌then◌else◌, if_cases, Bool-cases, inl, inr, ◌⊎◌, ==ℕ_iff,
}

abbrev and_digits : ℕ → ℕ → ℕ → ℕ
and_digits n a b = digits (λ b. zero) min n a b

-- The least power of 2 in an index up to the fuel.
low_of : ℕ → ℕ → ℕ
low_of zero i = 0
low_of (suc n) i = if i % 2 ==ℕ 1 then 1 else 2 * low_of n (i / 2)

-- A number and its complement have no digit in common.
and_digits-complement : (n w a c : ℕ) → a + c + 1 ≡ 2 ^ w → and_digits n a c ≡ 0
and_digits-complement zero w a c e = refl
and_digits-complement (suc n) w zero c e = refl
and_digits-complement (suc n) zero (suc a) c e = absurd (omega (arith, e))
and_digits-complement (suc n) (suc w) (suc a) c e =
    let half = and_digits-complement n w (suc a / 2) (c / 2) (omega (arith, e, pow.suc 2 w)) in
    omega (arith, half, e, pow.suc 2 w)

and_digits-negated :
    (n k w i b : ℕ) → 0 < i → 0 < b → i ≤ n → i ≤ k → b + i ≡ 2 ^ w → and_digits n i b ≡ low_of k i
unfolding low_of
and_digits-negated n k w zero b h pos_b n_enough k_enough e = absurd (omega (arith, h))
and_digits-negated zero k w (suc i) b h pos_b n_enough k_enough e = absurd (omega (arith, n_enough))
and_digits-negated n zero w (suc i) b h pos_b n_enough k_enough e = absurd (omega (arith, k_enough))
and_digits-negated (suc n) (suc k) zero (suc i) b h pos_b n_enough k_enough e =
    absurd (omega (arith, e, pos_b))
and_digits-negated (suc n) (suc k) (suc w) (suc i) b h pos_b n_enough k_enough e =
    if_cases (λ v. and_digits (suc n) (suc i) b ≡ v) (suc i % 2 ==ℕ 1) 1 (2 * low_of k (suc i / 2))
      (λ odd.
        let half =
          and_digits-complement n w (suc i / 2) (b / 2)
            (omega (arith, e, (==ℕ_iff (suc i % 2) 1).0 odd, pow.suc 2 w)) in
        omega (arith, half, e, (==ℕ_iff (suc i % 2) 1).0 odd, pow.suc 2 w))
      (λ even.
        let rem : suc i % 2 ≡ 0 = ground (arith, even, ==ℕ_iff (suc i % 2) 1) in
        let half =
          and_digits-negated n k w (suc i / 2) (b / 2) (omega (arith, rem))
            (omega (arith, rem, e, pos_b, pow.suc 2 w)) (omega (arith, n_enough))
            (omega (arith, k_enough)) (omega (arith, rem, e, pow.suc 2 w)) in
        omega (arith, half, rem))

-- `i & -i` on 64 digits.
low_bit-low_of : (k i : ℕ) → 0 < i → i ≤ k → i < 2 ^ 64 → low_bit i ≡ low_of k i
unfolding low_bit
low_bit-low_of k i h enough below =
    let b = (2 ^ 64 - i) % 2 ^ 64 in
    bit_and-bitwise i b
    ∙ and_digits-negated i k 64 i b h (omega (arith, h, below)) (omega arith) enough
        (omega (arith, h, below))

parity : (i : ℕ) → (i % 2 ≡ 1) ⊎ (i % 2 ≡ 0)
parity i = elim (Bool-cases (i % 2 ==ℕ 1)) [
  | inl odd ↦ inl ((==ℕ_iff (i % 2) 1).0 odd)
  | inr even ↦ inr (ground (arith, even, ==ℕ_iff (i % 2) 1))
]

low_of-odd : (k i : ℕ) → i % 2 ≡ 1 → low_of (suc k) i ≡ 1
unfolding low_of
low_of-odd k i odd = rw ((==ℕ_iff (i % 2) 1).1 odd) refl

low_of-even : (k i : ℕ) → i % 2 ≡ 0 → low_of (suc k) i ≡ 2 * low_of k (i / 2)
unfolding low_of
low_of-even k i even = rw even refl

low_of-bounds : (k i : ℕ) → 0 < i → i ≤ k → (0 < low_of k i) × (low_of k i ≤ i)
low_of-bounds zero i h enough = absurd (omega (arith, h, enough))
low_of-bounds (suc k) i h enough = elim (parity i) [
  | inl odd ↦ let e = low_of-odd k i odd in (omega (arith, e), omega (arith, e, h))
  | inr even ↦
      let e = low_of-even k i even in
      let half = low_of-bounds k (i / 2) (omega (arith, even, h)) (omega (arith, enough)) in
      (omega (arith, e, half.0), omega (arith, e, half.1))
]

-- The numbers between an index and the next one that the loop of `add` visits lead back no further than
-- to the index.
low_of-between : (k i j : ℕ) → 0 < i → i < j → j < i + low_of k i → j ≤ k → i + low_of k j ≤ j
low_of-between zero i j h lo hi enough = absurd (omega (arith, lo, enough))
low_of-between (suc k) i j h lo hi enough = elim (parity i) [
  | inl odd ↦ absurd (omega (arith, low_of-odd k i odd, lo, hi))
  | inr even ↦ elim (parity j) [
    | inl odd ↦ omega (arith, low_of-odd k j odd, lo)
    | inr even_j ↦
        let e = low_of-even k i even in
        let half =
          low_of-between k (i / 2) (j / 2) (omega (arith, even, h))
            (omega (arith, even, even_j, lo)) (omega (arith, even, even_j, e, hi))
            (omega (arith, enough)) in
        omega (arith, low_of-even k j even_j, half, even, even_j)
  ]
]

-- The next index that the loop of `add` visits leads back at least as far.
low_of-next :
    (k i : ℕ) → 0 < i → i + low_of k i ≤ k → low_of k i + low_of k i ≤ low_of k (i + low_of k i)
low_of-next zero i h enough = absurd (omega (arith, h, enough))
low_of-next (suc k) i h enough = elim (parity i) [
  | inl odd ↦
      let e = low_of-odd k i odd in
      let next = low_of-bounds k ((i + 1) / 2) (omega (arith, h)) (omega (arith, h, e, enough)) in
      rw e (omega (arith, next.0, low_of-even k (i + 1) (omega (arith, odd))))
  | inr even ↦
      let e = low_of-even k i even in
      let m = i / 2 + low_of k (i / 2) in
      let same : i + 2 * low_of k (i / 2) ≡ m * 2 = omega (arith, even) in
      let half = low_of-next k (i / 2) (omega (arith, even, h)) (omega (arith, e, even, enough)) in
      let back : m * 2 / 2 ≡ m = omega arith in
      let next : low_of (suc k) (m * 2) ≡ 2 * low_of k m =
        low_of-even k (m * 2) (omega arith) ∙ ap (λ x. 2 * low_of k x) back in
      rw (e, same, next) (omega (arith, half))
]

pub low_bit-bounds : (i : ℕ) → 0 < i → i < 2 ^ 64 → (0 < low_bit i) × (low_bit i ≤ i)
low_bit-bounds i h below =
    rw (low_bit-low_of i i h (omega arith) below) (low_of-bounds i i h (omega arith))

pub low_bit-between : (i j : ℕ) → 0 < i → i < j → j < i + low_bit i → j < 2 ^ 64 → i + low_bit j ≤ j
low_bit-between i j h lo hi below =
    let e = low_bit-low_of j i h (omega (arith, lo)) (omega (arith, lo, below)) in
    rw (low_bit-low_of j j (omega (arith, lo)) (omega arith) below)
      (low_of-between j i j h lo (omega (arith, hi, e)) (omega arith))

pub low_bit-next :
    (i : ℕ) → 0 < i → i + low_bit i < 2 ^ 64 → low_bit i + low_bit i ≤ low_bit (i + low_bit i)
low_bit-next i h below =
    let k = i + low_bit i in
    let e = low_bit-low_of k i h (omega arith) (omega (arith, below)) in
    let next = low_bit-low_of k k (omega (arith, h)) (omega arith) below in
    let back = low_of-next k i h (omega (arith, e)) in
    let same : low_of k (i + low_of k i) ≡ low_of k k = ap (λ x. low_of k (i + x)) (sym e) in
    omega (arith, e, next, back, same)
