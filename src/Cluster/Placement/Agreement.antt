-- ===== src/Cluster/Placement/Agreement.antt =====
-- Nodes that know the same members compute the same placement.
use shardlite.Common.{ℕ, ◌≡◌, refl, List, [], ◌∷◌, arith}
use shardlite.Common.OrdMap.{OrdMap}
use shardlite.Common.OrdSet.{
  contains, contains-extend, IsOrdered, IsAbove, contains_above, extend-IsOrdered,
}
use shardlite.Cluster.Placement.{sorted, balanced, with_preferences}

IsAbove-IsOrdered : (b : ℕ) (s : List ℕ) → IsAbove b s → IsOrdered s
IsAbove-IsOrdered b [] h = tt
IsAbove-IsOrdered b (j ∷ s) h = h.1

-- Ordered sets with the same members are the same list.
ordered_ext :
    (s t : List ℕ) → IsOrdered s → IsOrdered t → ((k : ℕ) → contains s k ≡ contains t k) → s ≡ t
unfolding contains
ordered_ext [] [] a b h = refl
ordered_ext [] (j ∷ t) a b h = absurd (ground (arith, h j))
ordered_ext (i ∷ s) [] a b h = absurd (ground (arith, h i))
ordered_ext (i ∷ s) (j ∷ t) a b h =
    let e : i ≡ j = ground (arith, h i, h j, contains_above t j i b, contains_above s i j a) in
    let rest =
      ordered_ext s t (IsAbove-IsOrdered i s a) (IsAbove-IsOrdered j t b)
        (λ k. ground (arith, h k, e, contains_above t j k b, contains_above s i k a)) in
    cc

sorted_ext : (m n : List ℕ) → ((k : ℕ) → contains m k ≡ contains n k) → sorted m ≡ sorted n
sorted_ext m n h =
    ordered_ext (sorted m) (sorted n) (extend-IsOrdered [] m tt) (extend-IsOrdered [] n tt) both
  where
    both : (k : ℕ) → contains (sorted m) k ≡ contains (sorted n) k
    both k = ground (arith, contains-extend [] m k, contains-extend [] n k, h k)

-- Two nodes that know the same set of members, in whatever order and with whatever repetitions, compute
-- the same placement, balanced or with preferences.
pub placements_agree :
    (count : ℕ) (m n : List ℕ) (preferences : OrdMap ℕ) (term : ℕ)
    → ((k : ℕ) → contains m k ≡ contains n k)
    → (balanced count m term ≡ balanced count n term)
      × (with_preferences count m preferences term ≡ with_preferences count n preferences term)
unfolding balanced with_preferences
placements_agree count m n preferences term h =
    let e = sorted_ext m n h in (rw (e, balanced) refl, rw (e, with_preferences) refl)
