-- ===== src/Base/Heap.antt =====
-- `std::priority_queue` as the list of its elements, the top first. `less` is its comparator.
use mathlib.Core.Bool.{Bool}
use mathlib.Core.List.{List, [], ◌∷◌}
use mathlib.Core.Option.{Option, none, some}
use lobsim.Base.Tests.{if◌then◌else◌}

module _ {A : Type 0} (less : A → A → Bool) where
  abbrev pub push : A → List A → List A
  push x [] = x ∷ []
  push x (y ∷ ys) = if less y x then x ∷ y ∷ ys else y ∷ push x ys

module _ {A : Type 0} where
  abbrev pub top : List A → Option A
  top [] = none
  top (x ∷ xs) = some x

  abbrev pub pop : List A → List A
  pop [] = []
  pop (x ∷ xs) = xs
