-- ===== src/Shard/Lru/Slots.antt =====
-- The slots of the cache: distinct ids, distinct ticks, and the coldest of them.
use shardlite.Common.{
  ℕ, suc, ◌<◌, ◌≤◌, List, ◌∷◌, Option, ◌≡◌, length, All, ◌≢◌, none, arith, if◌then◌else◌, ◌==◌,
  some, [], ◌⊎◌, inl, Bool-cases, refl, inr, ltb,
}
use shardlite.Shard.Lru.{Slot, find, touch, drop_id, coldest_from, coldest}

module _ {ℓ} {V : Type ℓ} where
  abbrev pub DistinctIds : List (Slot V) → Type ℓ
  DistinctIds [] = Unit
  DistinctIds (s ∷ r) = (find s.id r ≡ none) × DistinctIds r

  -- When a slot was last used.
  unfoldable pub used_of : ℕ → List (Slot V) → Option ℕ
  used_of k [] = none
  used_of k (s ∷ r) = if s.id == k then some s.used else used_of k r

  -- No two slots were used at the same tick, and none after `now`.
  abbrev pub Ticks : ℕ → List (Slot V) → Type 0
  Ticks now [] = Unit
  Ticks now (s ∷ r) = (s.used ≤ now) × All (λ t. t.used ≢ s.used) r × Ticks now r

  pub find-drop_id :
      (k j : ℕ) (es : List (Slot V))
      → DistinctIds es
      → find j (drop_id k es) ≡ (if k == j then none else find j es)
  unfolding find drop_id
  find-drop_id k j [] d = ground arith
  find-drop_id k j (s ∷ r) d = ground (arith, find-drop_id k j r d.1)

  pub find-touch : (k now j : ℕ) (es : List (Slot V)) → find j (touch k now es) ≡ find j es
  unfolding find touch
  find-touch k now j [] = refl
  find-touch k now j (s ∷ r) = ground (arith, find-touch k now j r)

  pub length-touch : (k now : ℕ) (es : List (Slot V)) → length (touch k now es) ≡ length es
  unfolding touch
  length-touch k now [] = refl
  length-touch k now (s ∷ r) = ground (arith, length-touch k now r)

  pub drop_id-DistinctIds :
      (k : ℕ) (es : List (Slot V)) → DistinctIds es → DistinctIds (drop_id k es)
  unfolding drop_id
  drop_id-DistinctIds k [] d = tt
  drop_id-DistinctIds k (s ∷ r) d =
      ground (arith, drop_id-DistinctIds k r d.1, find-drop_id k s.id r d.1)

  pub touch-DistinctIds :
      (k now : ℕ) (es : List (Slot V)) → DistinctIds es → DistinctIds (touch k now es)
  unfolding touch
  touch-DistinctIds k now [] d = tt
  touch-DistinctIds k now (s ∷ r) d =
      ground (arith, touch-DistinctIds k now r d.1, find-touch k now s.id r)

  drop_id-All : (P : Slot V → Type 0) (k : ℕ) (es : List (Slot V)) → All P es → All P (drop_id k es)
  unfolding drop_id
  drop_id-All P k [] a = tt
  drop_id-All P k (s ∷ r) a = ground (arith, drop_id-All P k r a.1)

  pub drop_id-Ticks : (k now : ℕ) (es : List (Slot V)) → Ticks now es → Ticks now (drop_id k es)
  unfolding drop_id
  drop_id-Ticks k now [] t = tt
  drop_id-Ticks k now (s ∷ r) t =
      ground (arith, drop_id-Ticks k now r t.2, drop_id-All (λ x. x.used ≢ s.used) k r t.1)

  pub Ticks-later : (m n : ℕ) (es : List (Slot V)) → m ≤ n → Ticks m es → Ticks n es
  Ticks-later m n [] h t = tt
  Ticks-later m n (s ∷ r) h t = (omega arith, t.1, Ticks-later m n r h t.2)

  pub used_lt : (now n : ℕ) (es : List (Slot V)) → now < n → Ticks now es → All (λ t. t.used ≢ n) es
  used_lt now n [] h t = tt
  used_lt now n (s ∷ r) h t = (omega arith, used_lt now n r h t.2)

  touch-All :
      (k n u : ℕ) (es : List (Slot V))
      → n ≢ u
      → All (λ t. t.used ≢ u) es
      → All (λ t. t.used ≢ u) (touch k n es)
  unfolding touch
  touch-All k n u [] h a = tt
  touch-All k n u (s ∷ r) h a = ground (arith, touch-All k n u r h a.1)

  pub touch-Ticks :
      (k now n : ℕ) (es : List (Slot V)) → now < n → Ticks now es → Ticks n (touch k n es)
  unfolding touch
  touch-Ticks k now n [] h t = tt
  touch-Ticks k now n (s ∷ r) h t = ground (
    arith,
    touch-Ticks k now n r h t.2,
    Ticks-later now n r (omega arith) t.2,
    used_lt now n r h t.2,
    touch-All k n s.used r (omega arith) t.1,
  )

  abbrev pub In : Slot V → List (Slot V) → Type ℓ
  In c [] = c ≢ c
  In c (s ∷ r) = (c ≡ s) ⊎ In c r

  find-In : (c : Slot V) (es : List (Slot V)) → In c es → find c.id es ≢ none
  unfolding find
  find-In c [] i = absurd (i refl)
  find-In c (s ∷ r) (inl e) = ground arith
  find-In c (s ∷ r) (inr i) = ground (arith, find-In c r i)

  used_of-In :
      (c : Slot V) (es : List (Slot V)) → DistinctIds es → In c es → used_of c.id es ≡ some c.used
  unfolding used_of
  used_of-In c [] d i = absurd (i refl)
  used_of-In c (s ∷ r) d (inl e) = ground arith
  used_of-In c (s ∷ r) d (inr i) = ground (arith, used_of-In c r d.1 i, find-In c r i)

  pub length-drop_id :
      (k : ℕ) (es : List (Slot V)) → find k es ≢ none → suc (length (drop_id k es)) ≡ length es
  unfolding find drop_id
  length-drop_id k [] h = absurd (h refl)
  length-drop_id k (s ∷ r) h = ground (arith, length-drop_id k r)

  coldest_from-In : (b : Slot V) (r : List (Slot V)) → In (coldest_from b r) (b ∷ r)
  unfolding coldest_from
  coldest_from-In b [] = inl refl
  coldest_from-In b (s ∷ r) = ground (arith, coldest_from-In s r, coldest_from-In b r)

  coldest_from-le : (b : Slot V) (r : List (Slot V)) → (coldest_from b r).used ≤ b.used
  unfolding coldest_from
  coldest_from-le b [] = omega arith
  coldest_from-le b (s ∷ r) = ground (arith, coldest_from-le s r, coldest_from-le b r)

  -- What is found in the list was used no earlier than the coldest slot.
  coldest_from-min :
      (b : Slot V) (r : List (Slot V)) (j w : ℕ)
      → used_of j r ≡ some w
      → (coldest_from b r).used ≤ w
  unfolding coldest_from used_of
  coldest_from-min b [] j w h = cc
  coldest_from-min b (s ∷ r) j w h = elim (Bool-cases (ltb s.used b.used)) [
    | inl lt ↦ rw (lt, coldest_from) (ground (arith, coldest_from-min s r j w, coldest_from-le s r))
    | inr ge ↦ rw (ge, coldest_from) (ground (arith, coldest_from-min b r j w, coldest_from-le b r))
  ]

  All-used_of :
      (u j w : ℕ) (r : List (Slot V)) → All (λ t. t.used ≢ u) r → used_of j r ≡ some w → w ≢ u
  unfolding used_of
  All-used_of u j w [] a h = cc
  All-used_of u j w (s ∷ r) a h = ground (arith, All-used_of u j w r a.1)

  distinct_used :
      (now : ℕ) (es : List (Slot V)) (j k u : ℕ)
      → Ticks now es
      → used_of j es ≡ some u
      → used_of k es ≡ some u
      → j ≡ k
  unfolding used_of
  distinct_used now [] j k u t p q = cc
  distinct_used now (s ∷ r) j k u t p q = ground (
    arith,
    distinct_used now r j k u t.2,
    All-used_of s.used j u r t.1,
    All-used_of s.used k u r t.1,
  )

  pub find-coldest : (k : ℕ) (es : List (Slot V)) → coldest es ≡ some k → find k es ≢ none
  unfolding coldest
  find-coldest k [] e = cc
  find-coldest k (s ∷ r) e =
      ground (arith, find-In (coldest_from s r) (s ∷ r) (coldest_from-In s r))

  pub coldest-none : (es : List (Slot V)) → coldest es ≡ none → length es ≡ 0
  unfolding coldest
  coldest-none [] e = refl
  coldest-none (s ∷ r) e = cc

  coldest_from_least :
      (now : ℕ) (s : Slot V) (r : List (Slot V)) (j w : ℕ)
      → DistinctIds (s ∷ r)
      → Ticks now (s ∷ r)
      → j ≢ (coldest_from s r).id
      → used_of j (s ∷ r) ≡ some w
      → (coldest_from s r).used < w
  coldest_from_least now s r j w d t ne h =
      let found = used_of-In (coldest_from s r) (s ∷ r) d (coldest_from-In s r) in
      let le : (coldest_from s r).used ≤ w =
        unfold used_of in ground (arith, coldest_from-min s r j w, coldest_from-le s r) in
      ground (arith, distinct_used now (s ∷ r) j (coldest_from s r).id w t h)

  -- The coldest slot was used strictly before every other slot.
  pub coldest_lem :
      (now k : ℕ) (es : List (Slot V))
      → DistinctIds es
      → Ticks now es
      → coldest es ≡ some k
      → (u : ℕ) × (used_of k es ≡ some u) × ((j w : ℕ) → j ≢ k → used_of j es ≡ some w → u < w)
  unfolding coldest
  coldest_lem now k [] d t e = cc
  coldest_lem now k (s ∷ r) d t e =
      let same : (coldest_from s r).id ≡ k = ground arith in
      rw (← same) (
        (coldest_from s r).used,
        used_of-In (coldest_from s r) (s ∷ r) d (coldest_from-In s r),
        λ j w ne h. coldest_from_least now s r j w d t ne h,
      )
