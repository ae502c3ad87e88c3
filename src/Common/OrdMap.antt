-- ===== src/Common/OrdMap.antt =====
-- `BTreeMap` with numbers for keys: the entries in ascending order of their keys.
use Prim.Native.Nat.{ℕ, ◌<◌}
use mathlib.Core.Path.{◌≡◌, refl}
use mathlib.Core.Bool.{Bool}
use mathlib.Core.List.{List, [], ◌∷◌, map}
use mathlib.Core.Option.{Option, none, some}
use native.Mathlib.Omega.{arith}
use shardlite.Common.Tests.{ltb, ◌==◌, if◌then◌else◌}
use shardlite.Common.Lists.{is_some, All, All-map}

abbrev pub OrdMap {ℓ} : Type ℓ → Type ℓ
OrdMap V = List (ℕ × V)

module _ {ℓ} {V : Type ℓ} where
  unfoldable pub get : OrdMap V → ℕ → Option V
  get [] k = none
  get ((j, w) ∷ m) k = if j == k then some w else get m k

  unfoldable pub insert : OrdMap V → ℕ → V → OrdMap V
  insert [] k v = (k, v) ∷ []
  insert ((j, w) ∷ m) k v =
      if ltb k j then (k, v) ∷ (j, w) ∷ m else if k == j then (k, v) ∷ m else (j, w) ∷ insert m k v

  unfoldable pub remove : OrdMap V → ℕ → OrdMap V
  remove [] k = []
  remove ((j, w) ∷ m) k = if j == k then remove m k else (j, w) ∷ remove m k

  abbrev pub contains_key : OrdMap V → ℕ → Bool
  contains_key m k = is_some (get m k)

  abbrev pub keys : OrdMap V → List ℕ
  keys m = map (λ e. e.0) m

  -- Every key of the map is above `b`, and the keys rise.
  abbrev pub IsAbove : ℕ → OrdMap V → Type 0
  IsAbove b [] = Unit
  IsAbove b ((j, w) ∷ m) = (b < j) × IsAbove j m

  abbrev pub IsOrdered : OrdMap V → Type 0
  IsOrdered [] = Unit
  IsOrdered ((j, w) ∷ m) = IsAbove j m

module _ {ℓ} {V : Type ℓ} where
  pub get-insert :
      (m : OrdMap V) (k j : ℕ) (v : V) → get (insert m k v) j ≡ (if k == j then some v else get m j)
  unfolding get insert
  get-insert [] k j v = refl
  get-insert ((i, w) ∷ m) k j v = ground (arith, get-insert m k j v)

  pub get-remove :
      (m : OrdMap V) (k j : ℕ) → get (remove m k) j ≡ (if k == j then none else get m j)
  unfolding get remove
  get-remove [] k j = ground arith
  get-remove ((i, w) ∷ m) k j = ground (arith, get-remove m k j)

  pub insert-insert : (m : OrdMap V) (k : ℕ) (v w : V) → insert (insert m k v) k w ≡ insert m k w
  unfolding insert
  insert-insert [] k v w = ground arith
  insert-insert ((i, u) ∷ m) k v w = ground (arith, insert-insert m k v w)

  pub get_above : (m : OrdMap V) (b k : ℕ) → IsAbove b m → k < b → get m k ≡ none
  unfolding get
  get_above [] b k h lt = refl
  get_above ((i, w) ∷ m) b k h lt = ground (arith, get_above m i k)

  pub insert-IsAbove :
      (m : OrdMap V) (b k : ℕ) (v : V) → b < k → IsAbove b m → IsAbove b (insert m k v)
  unfolding insert
  insert-IsAbove [] b k v lt h = (lt, tt)
  insert-IsAbove ((i, w) ∷ m) b k v lt h = ground (arith, insert-IsAbove m i k v)

  pub insert-IsOrdered : (m : OrdMap V) (k : ℕ) (v : V) → IsOrdered m → IsOrdered (insert m k v)
  unfolding insert
  insert-IsOrdered [] k v h = tt
  insert-IsOrdered ((i, w) ∷ m) k v h = ground (arith, insert-IsAbove m i k v)

  -- In a map with rising keys each entry is the one found at its key.
  entries_above :
      (m : OrdMap V) (b : ℕ) → IsAbove b m → All (λ e. (b < e.0) × (get m e.0 ≡ some e.1)) m
  unfolding get
  entries_above [] b h = tt
  entries_above ((i, w) ∷ m) b h = (
    (h.0, ground arith),
    All-map _ _ m (λ e p. (omega arith, ground (arith, p))) (entries_above m i h.1),
  )

  pub entries-get : (m : OrdMap V) → IsOrdered m → All (λ e. get m e.0 ≡ some e.1) m
  unfolding get
  entries-get [] h = tt
  entries-get ((i, w) ∷ m) h =
      (ground arith, All-map _ _ m (λ e p. ground (arith, p)) (entries_above m i h))

pub get-empty {ℓ} : {V : Type ℓ} (k : ℕ) → get {V = V} [] k ≡ none
unfolding get
get-empty k = refl

pub ruleset map_laws = (get-empty, get-insert, get-remove)
