-- ===== src/Common/Count.antt =====
-- Majorities of a set of voters: two of them have a member in common.
use Prim.Native.Nat.{ℕ, ◌+◌, ◌/◌, ◌<◌, ◌≤◌}
use mathlib.Core.Path.{◌≡◌, refl}
use mathlib.Core.Logic.{inl, inr}
use mathlib.Core.Bool.{Bool, true, false}
use mathlib.Core.List.{List, [], ◌∷◌}
use native.Mathlib.Omega.{arith}
use shardlite.Common.Tests.{if◌then◌else◌, Bool-cases}
use shardlite.Common.Lists.{length}
use shardlite.Common.OrdSet.{contains, common, IsAbove, IsOrdered, contains_above}

abbrev bit : Bool → ℕ
bit b = if b then 1 else 0

common-cons :
    (v s : List ℕ) (k : ℕ)
    → contains s k ≡ false
    → common v s + bit (contains v k) ≤ common v (k ∷ s)
unfolding common contains
common-cons [] s k h = omega arith
common-cons (j ∷ v) s k h = ground (arith, common-cons v s k h)

common-nil : (v : List ℕ) → common v [] ≡ 0
unfolding common contains
common-nil [] = refl
common-nil (j ∷ v) = common-nil v

IsAbove-common : (s v : List ℕ) (b : ℕ) → IsAbove b s → common s v ≤ common v s
unfolding common
IsAbove-common [] v b h = omega arith
IsAbove-common (k ∷ s) v b h =
    ground
      (arith, common-cons v s k (contains_above s k k h.1 (omega arith)), IsAbove-common s v k h.1)

-- Counting the members of an ordered set among the voters is counting the voters in it.
common-le : (s v : List ℕ) → IsOrdered s → common s v ≤ common v s
unfolding common
common-le [] v h = omega arith
common-le (k ∷ s) v h =
    ground (arith, common-cons v s k (contains_above s k k h (omega arith)), IsAbove-common s v k h)

-- A voter that both sets hold.
abbrev pub Shared : List ℕ → List ℕ → List ℕ → Type 0
Shared v s t = (k : ℕ) × (contains v k ≡ true) × (contains s k ≡ true) × (contains t k ≡ true)

Shared-cons : (j : ℕ) (v s t : List ℕ) → Shared v s t → Shared (j ∷ v) s t
unfolding contains
Shared-cons j v s t (k, a, b, c) = (k, ground arith, b, c)

pigeonhole : (v s t : List ℕ) → length v < common v s + common v t → Shared v s t
unfolding common
pigeonhole [] s t h = absurd (omega arith)
pigeonhole (j ∷ v) s t h = elim (Bool-cases (contains s j)) [
  | inl a ↦ elim (Bool-cases (contains t j)) [
    | inl b ↦ (j, unfold contains in ground arith, a, b)
    | inr b ↦ Shared-cons j v s t (pigeonhole v s t (ground arith))
  ]
  | inr a ↦ Shared-cons j v s t (pigeonhole v s t (ground arith))
]

abbrev pub IsMajority : List ℕ → List ℕ → Type 0
IsMajority v s = length v / 2 + 1 ≤ common s v

pub majorities_meet :
    (v s t : List ℕ) → IsOrdered s → IsOrdered t → IsMajority v s → IsMajority v t → Shared v s t
majorities_meet v s t hs ht ms mt =
    pigeonhole v s t (omega (arith, common-le s v hs, common-le t v ht))
