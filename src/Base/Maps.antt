-- ===== src/Base/Maps.antt =====
-- The hash maps that the simulator keeps its state in: `ska::flat_hash_map`, which the repository
-- vendors, behind the behaviour that the simulator relies on, and an implementation that has it.
use Prim.Native.Nat.{ℕ}
use mathlib.Core.Path.{◌≡◌}
use mathlib.Core.Logic.{◌↔◌}
use mathlib.Core.Bool.{Bool, true}
use mathlib.Core.Option.{Option, none, some}
use mathlib.Core.List.{List, [], ◌∷◌}
use lobsim.Base.Tests.{◌==ℕ◌, ==ℕ_iff, if◌then◌else◌}
use Prim.Native.String.{String}
use text.Mathlib.Text.{◌==◌ as str_eq}
use text.Mathlib.TextEquality.{eq_iff}
use lobsim.Base.Int.{ℤ, ◌==ℤ◌, ==ℤ_iff}

-- `operator==` of a key type.
pub record Eq (A : Type 0) : Type 0 where
  pub beq : A → A → Bool
  pub beq_iff : (a b : A) → (beq a b ≡ true) ↔ (a ≡ b)

infix 50 ◌==◌
abbrev pub ◌==◌ : {A : Type 0} ⦃e : Eq A⦄ → A → A → Bool
◌==◌ ⦃e⦄ = e.beq

instance abbrev pub nat_eq : Eq ℕ
nat_eq = record { beq = ◌==ℕ◌; beq_iff = ==ℕ_iff }

instance abbrev pub int_eq : Eq ℤ
int_eq = record { beq = ◌==ℤ◌; beq_iff = ==ℤ_iff }

-- Look a key up in the list of a map's entries.
abbrev pub lookup : {K V : Type 0} ⦃e : Eq K⦄ → K → List (K × V) → Option V
lookup k [] = none
lookup k ((j, v) ∷ m) = if j == k then some v else lookup k m

-- No key stands twice in a list of entries.
abbrev pub Distinct : {K V : Type 0} ⦃e : Eq K⦄ → List (K × V) → Type 0
Distinct [] = Unit
Distinct ((k, v) ∷ m) = (lookup k m ≡ none) × Distinct m

-- `find`, `emplace` (which keeps an entry that is there), a write through an iterator or by
-- `operator[]`, `erase`, and iteration, in an order that is not specified.
pub record HashMap : Type 1 where
  pub Map : Type 0 → Type 0 → Type 0
  pub empty : {K V : Type 0} → Map K V
  pub find : {K V : Type 0} ⦃e : Eq K⦄ → K → Map K V → Option V
  pub emplace : {K V : Type 0} ⦃e : Eq K⦄ → K → V → Map K V → Map K V
  pub assign : {K V : Type 0} ⦃e : Eq K⦄ → K → V → Map K V → Map K V
  pub erase : {K V : Type 0} ⦃e : Eq K⦄ → K → Map K V → Map K V
  pub entries : {K V : Type 0} ⦃e : Eq K⦄ → Map K V → List (K × V)
  pub find-empty : {K V : Type 0} ⦃e : Eq K⦄ (k : K) → find {V = V} k empty ≡ none
  pub find-emplace :
      {K V : Type 0} ⦃e : Eq K⦄ (j k : K) (v : V) (m : Map K V)
      → find j (emplace k v m)
        ≡ (if k == j then elim (find k m) [ none ↦ some v | some w ↦ some w ] else find j m)
  pub find-assign :
      {K V : Type 0} ⦃e : Eq K⦄ (j k : K) (v : V) (m : Map K V)
      → find j (assign k v m) ≡ (if k == j then some v else find j m)
  pub find-erase :
      {K V : Type 0} ⦃e : Eq K⦄ (j k : K) (m : Map K V)
      → find j (erase k m) ≡ (if k == j then none else find j m)
  pub lookup-entries :
      {K V : Type 0} ⦃e : Eq K⦄ (k : K) (m : Map K V) → lookup k (entries m) ≡ find k m
  pub entries-Distinct : {K V : Type 0} ⦃e : Eq K⦄ (m : Map K V) → Distinct (entries m)

instance abbrev pub string_eq : Eq String
string_eq = record { beq = str_eq; beq_iff = eq_iff }

-- `empty()` of a text.
abbrev pub is_blank : String → Bool
is_blank s = s == ""
