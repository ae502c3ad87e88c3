-- ===== src/Common/OrdSet.antt =====
-- `BTreeSet` of numbers: the members in ascending order.
use Prim.Native.Nat.{ℕ, suc, ◌<◌, ◌≤◌}
use mathlib.Core.Path.{◌≡◌, refl}
use mathlib.Core.Bool.{Bool, true, false, ◌||◌}
use mathlib.Core.List.{List, [], ◌∷◌}
use native.Mathlib.Omega.{arith}
use shardlite.Common.Tests.{ltb, ◌==◌, if◌then◌else◌}
use shardlite.Common.Lists.{retain}

unfoldable pub contains : List ℕ → ℕ → Bool
contains [] k = false
contains (j ∷ s) k = if j == k then true else contains s k

unfoldable pub insert : List ℕ → ℕ → List ℕ
insert [] k = k ∷ []
insert (j ∷ s) k = if ltb k j then k ∷ j ∷ s else if k == j then j ∷ s else j ∷ insert s k

-- `iter().collect()`, and `extend`.
unfoldable pub extend : List ℕ → List ℕ → List ℕ
extend s [] = s
extend s (k ∷ ks) = extend (insert s k) ks

-- How many members of the first set are in the second: `intersection(..).count()`.
unfoldable pub common : List ℕ → List ℕ → ℕ
common [] t = 0
common (k ∷ s) t = if contains t k then suc (common s t) else common s t

abbrev pub IsAbove : ℕ → List ℕ → Type 0
IsAbove b [] = Unit
IsAbove b (j ∷ s) = (b < j) × IsAbove j s

abbrev pub IsOrdered : List ℕ → Type 0
IsOrdered [] = Unit
IsOrdered (j ∷ s) = IsAbove j s

pub contains-insert :
    (s : List ℕ) (k j : ℕ) → contains (insert s k) j ≡ (if k == j then true else contains s j)
unfolding contains insert
contains-insert [] k j = refl
contains-insert (i ∷ s) k j = ground (arith, contains-insert s k j)

pub contains-extend :
    (s ks : List ℕ) (j : ℕ) → contains (extend s ks) j ≡ contains s j || contains ks j
unfolding extend contains
contains-extend s [] j = ground arith
contains-extend s (k ∷ ks) j =
    ground (arith, contains-extend (insert s k) ks j, contains-insert s k j)

pub contains-retain :
    (keep : ℕ → Bool) (s : List ℕ) (j : ℕ)
    → contains (retain keep s) j ≡ (if keep j then contains s j else false)
unfolding contains
contains-retain keep [] j = ground arith
contains-retain keep (i ∷ s) j = ground (arith, contains-retain keep s j)

pub contains_above : (s : List ℕ) (b k : ℕ) → IsAbove b s → k ≤ b → contains s k ≡ false
unfolding contains
contains_above [] b k h le = refl
contains_above (i ∷ s) b k h le = ground (arith, contains_above s i k)

pub insert-IsAbove : (s : List ℕ) (b k : ℕ) → b < k → IsAbove b s → IsAbove b (insert s k)
unfolding insert
insert-IsAbove [] b k lt h = (lt, tt)
insert-IsAbove (i ∷ s) b k lt h = ground (arith, insert-IsAbove s i k)

pub insert-IsOrdered : (s : List ℕ) (k : ℕ) → IsOrdered s → IsOrdered (insert s k)
unfolding insert
insert-IsOrdered [] k h = tt
insert-IsOrdered (i ∷ s) k h = ground (arith, insert-IsAbove s i k)

IsAbove-mono : (s : List ℕ) (a b : ℕ) → a ≤ b → IsAbove b s → IsAbove a s
IsAbove-mono [] a b le h = tt
IsAbove-mono (i ∷ s) a b le h = (omega arith, h.1)

pub retain-IsAbove :
    (keep : ℕ → Bool) (s : List ℕ) (b : ℕ) → IsAbove b s → IsAbove b (retain keep s)
retain-IsAbove keep [] b h = tt
retain-IsAbove keep (i ∷ s) b h =
    ground (arith, retain-IsAbove keep s i, IsAbove-mono (retain keep s) b i)

IsAbove-IsOrdered : (s : List ℕ) (b : ℕ) → IsAbove b s → IsOrdered s
IsAbove-IsOrdered [] b h = tt
IsAbove-IsOrdered (i ∷ s) b h = h.1

pub retain-IsOrdered : (keep : ℕ → Bool) (s : List ℕ) → IsOrdered s → IsOrdered (retain keep s)
retain-IsOrdered keep [] h = tt
retain-IsOrdered keep (i ∷ s) h =
    ground (arith, retain-IsAbove keep s i, retain-IsOrdered keep s, IsAbove-IsOrdered s i h)

pub extend-IsOrdered : (s ks : List ℕ) → IsOrdered s → IsOrdered (extend s ks)
unfolding extend
extend-IsOrdered s [] h = h
extend-IsOrdered s (k ∷ ks) h = extend-IsOrdered (insert s k) ks (insert-IsOrdered s k h)

pub ruleset set_laws = (contains-insert, contains-extend, contains-retain)
