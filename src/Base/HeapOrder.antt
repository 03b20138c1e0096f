-- ===== src/Base/HeapOrder.antt =====
-- The order that `push` keeps, for a comparator that is a strict order.
use mathlib.Core.Path.{◌≡◌}
use mathlib.Core.Bool.{Bool, true, false}
use mathlib.Core.List.{List, [], ◌∷◌}
use native.Mathlib.Omega.{arith}
use lobsim.Base.Tests.{Bool-cases}
use mathlib.Core.Logic.{inl, inr}
use lobsim.Base.Heap.{push}

-- What holds of each element.
abbrev pub Every : {A : Type 0} → (A → Type 0) → List A → Type 0
Every P [] = Unit
Every P (x ∷ xs) = P x × Every P xs

pub Every-map :
    {A : Type 0} (P Q : A → Type 0)
    → ((a : A) → P a → Q a)
    → (xs : List A) → Every P xs
    → Every Q xs
Every-map P Q f [] h = tt
Every-map P Q f (x ∷ xs) h = (f x h.0, Every-map P Q f xs h.1)

module _ {A : Type 0} (less : A → A → Bool) where
  pub Every-push :
      (P : A → Type 0) (x : A) (xs : List A) → P x → Every P xs → Every P (push less x xs)
  Every-push P x [] p h = (p, tt)
  Every-push P x (y ∷ ys) p h = elim (Bool-cases (less y x)) [
    | inl first ↦ rw first (p, h)
    | inr later ↦ rw later (h.0, Every-push P x ys p h.1)
  ]

  -- No element comes after one that stands behind it.
  abbrev pub IsSorted : List A → Type 0
  IsSorted [] = Unit
  IsSorted (x ∷ xs) = Every (λ y. less x y ≡ false) xs × IsSorted xs

  module _ (irrefl : (a : A) → less a a ≡ false)
      (trans : (a b c : A) → less a b ≡ true → less b c ≡ true → less a c ≡ true) where
    not_before : (x y z : A) → less y x ≡ true → less y z ≡ false → less x z ≡ false
    not_before x y z p q = elim (Bool-cases (less x z)) [
      | inl r ↦ absurd (ground (arith, trans y x z p r, q))
      | inr r ↦ r
    ]

    pub push-IsSorted : (x : A) (xs : List A) → IsSorted xs → IsSorted (push less x xs)
    push-IsSorted x [] h = (tt, tt)
    push-IsSorted x (y ∷ ys) h = elim (Bool-cases (less y x)) [
      | inl first ↦ rw first (
        (
          not_before x y y first (irrefl y),
          Every-map (λ z. less y z ≡ false) (λ z. less x z ≡ false) (λ z. not_before x y z first) ys
              h.0,
        ),
        h,
      )
      | inr later ↦
          rw later (Every-push (λ z. less y z ≡ false) x ys later h.0, push-IsSorted x ys h.1)
    ]
