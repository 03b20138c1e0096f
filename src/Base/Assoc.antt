-- ===== src/Base/Assoc.antt =====
-- A hash map as the list of its entries: an implementation of the interface of Base/Maps.antt, on
-- which the definitions of the library run.
use mathlib.Core.Path.{◌≡◌, refl}
use mathlib.Core.Option.{none, some}
use mathlib.Core.List.{List, [], ◌∷◌}
use native.Mathlib.Omega.{arith}
use lobsim.Base.Tests.{if◌then◌else◌}
use lobsim.Base.Maps.{Eq, ◌==◌, lookup, Distinct, HashMap}

abbrev pub Entries : Type 0 → Type 0 → Type 0
Entries K V = List (K × V)

module _ {K V : Type 0} ⦃e : Eq K⦄ where
  abbrev pub remove : K → Entries K V → Entries K V
  remove k [] = []
  remove k ((j, v) ∷ m) = if j == k then remove k m else (j, v) ∷ remove k m

  abbrev pub add : K → V → Entries K V → Entries K V
  add k v m = elim (lookup k m) [ none ↦ (k, v) ∷ m | some w ↦ m ]

  abbrev pub put : K → V → Entries K V → Entries K V
  put k v m = (k, v) ∷ remove k m

  -- The first entry of each key.
  abbrev pub listed : Entries K V → Entries K V
  listed [] = []
  listed ((k, v) ∷ m) = (k, v) ∷ remove k (listed m)

  pub lookup-remove :
      (j k : K) (m : Entries K V) → lookup j (remove k m) ≡ (if k == j then none else lookup j m)
  lookup-remove j k [] = ground arith
  lookup-remove j k ((i, v) ∷ m) =
      ground (arith, lookup-remove j k m, e.beq_iff i k, e.beq_iff k j, e.beq_iff i j)

  pub lookup-add :
      (j k : K) (v : V) (m : Entries K V)
      → lookup j (add k v m)
        ≡ (if k == j then elim (lookup k m) [ none ↦ some v | some w ↦ some w ] else lookup j m)
  lookup-add j k v m = ground (arith, e.beq_iff k j)

  pub lookup-put :
      (j k : K) (v : V) (m : Entries K V)
      → lookup j (put k v m) ≡ (if k == j then some v else lookup j m)
  lookup-put j k v m = ground (arith, lookup-remove j k m)

  pub lookup-listed : (k : K) (m : Entries K V) → lookup k (listed m) ≡ lookup k m
  lookup-listed k [] = refl
  lookup-listed k ((i, v) ∷ m) = ground (arith, lookup-listed k m, lookup-remove k i (listed m))

  remove-Distinct : (k : K) (m : Entries K V) → Distinct m → Distinct (remove k m)
  remove-Distinct k [] h = tt
  remove-Distinct k ((i, v) ∷ m) h = ground (arith, remove-Distinct k m h.1, lookup-remove i k m)

  pub listed-Distinct : (m : Entries K V) → Distinct (listed m)
  listed-Distinct [] = tt
  listed-Distinct ((k, v) ∷ m) = ground (
    arith,
    lookup-remove k k (listed m),
    e.beq_iff k k,
    remove-Distinct k (listed m) (listed-Distinct m),
  )

instance abbrev pub assoc_map : HashMap
assoc_map = record {
  Map = Entries;
  empty = [];
  find = lookup;
  emplace = add;
  assign = put;
  erase = remove;
  entries = listed;
  find-empty = λ k. refl;
  find-emplace = lookup-add;
  find-assign = lookup-put;
  find-erase = lookup-remove;
  lookup-entries = lookup-listed;
  entries-Distinct = listed-Distinct;
}
