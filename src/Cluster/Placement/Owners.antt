-- ===== src/Cluster/Placement/Owners.antt =====
-- Who owns which shard under a placement.
use native.Mathlib.Nat.{mod-lt}
use shardlite.Common.{
  ℕ, zero, suc, ◌+◌, ◌%◌, ◌<◌, ◌≤◌, ◌≡◌, ◌⊎◌, ◌&&◌, ◌||◌, ◌==◌, refl, sym, ap, ◌∙◌, inl, inr, true,
  Option, none, some, List, [], ◌∷◌, arith, ltb, leb, if◌then◌else◌, length, Bool-cases, ==→eq,
}
use shardlite.Common.OrdMap.{OrdMap, get, insert, get-insert, get-empty}
use shardlite.Common.OrdSet.{contains, contains-extend}
use shardlite.Cluster.Placement.{
  sorted, member_at, assign, balanced, choose, assign_preferred, with_preferences, owner,
}

-- Below the end of the loop the map has what the loop assigned, and elsewhere what it had.
get-assign :
    (n s : ℕ) (members : List ℕ) (m : OrdMap ℕ) (k : ℕ)
    → get (assign n s members m) k ≡ (
        if leb s k && ltb k (s + n) then some (member_at members (k % length members)) else get m k)
unfolding assign
get-assign zero s members m k = ground arith
get-assign (suc n) s members m k =
    let o = member_at members (s % length members) in
    ground (arith, get-assign n (s + 1) members (insert m s o) k, get-insert m s k o)

list-cases : (l : List ℕ) → (l ≡ []) ⊎ ((h : ℕ) × (r : List ℕ) × (l ≡ h ∷ r))
list-cases [] = inl refl
list-cases (h ∷ r) = inr (h, r, refl)

-- In a balanced placement the owner of a shard is its number's turn among the members in ascending
-- order, without duplicates; shards past the count have no owner, and without members none has.
pub owner-balanced :
    (count : ℕ) (members : List ℕ) (term shard : ℕ)
    → owner (balanced count members term) shard ≡ (
        if ltb 0 (length (sorted members)) && ltb shard count
        then some (member_at (sorted members) (shard % length (sorted members)))
        else none)
unfolding owner balanced
owner-balanced count members term shard = elim (list-cases (sorted members)) [
  | inl e ↦ rw (e, balanced) (get-empty {V = ℕ} shard)
  | inr (h, r, e) ↦
      rw (e, balanced)
        (ground (arith, get-assign count 0 (h ∷ r) [] shard, get-empty {V = ℕ} shard))
]

member_at-contains :
    (members : List ℕ) (i : ℕ) → i < length members → contains members (member_at members i) ≡ true
unfolding contains
member_at-contains [] i h = absurd (omega arith)
member_at-contains (j ∷ members) zero h = ground arith
member_at-contains (j ∷ members) (suc i) h = ground (arith, member_at-contains members i)

-- What a choice promises: a member, and the preferred one if it is a member.
abbrev pub IsChoice : List ℕ → Option ℕ → ℕ → Type 0
IsChoice members preferred o =
    (contains members o ≡ true)
    × ((pref : ℕ) → preferred ≡ some pref → contains members pref ≡ true → o ≡ pref)

choose-IsChoice :
    (members : List ℕ) (preferred : Option ℕ) (rr : ℕ)
    → 0 < length members
    → IsChoice members preferred (choose members preferred rr).0
unfolding choose
choose-IsChoice members none rr pos = (
  member_at-contains members (rr % length members) (mod-lt rr {m = length members} pos),
  λ pref e. cc,
)
choose-IsChoice members (some p) rr pos = (
  ground (arith, member_at-contains members (rr % length members), mod-lt rr {m = length members}),
  λ pref e c. ground arith,
)

get-assign_preferred :
    (n s rr : ℕ) (members : List ℕ) (preferences m : OrdMap ℕ) (k : ℕ)
    → 0 < length members
    → ((s ≤ k)
        × (k < s + n)
        × ((o : ℕ) × (get (assign_preferred n s rr members preferences m) k ≡ some o)
            × IsChoice members (get preferences k) o))
      ⊎ (((k < s) ⊎ (s + n ≤ k))
          × (get (assign_preferred n s rr members preferences m) k ≡ get m k))
unfolding assign_preferred
get-assign_preferred zero s rr members preferences m k pos = inr (ground arith, refl)
get-assign_preferred (suc n) s rr members preferences m k pos =
    let c = choose members (get preferences s) rr in
    let next = if c.1 then rr + 1 else rr in
    elim (get-assign_preferred n (s + 1) next members preferences (insert m s c.0) k pos) [
      | inl (lo, hi, found) ↦ inl (omega arith, omega arith, found)
      | inr (out, same) ↦ elim (Bool-cases (s == k)) [
        | inl here ↦
            let e : s ≡ k = ==→eq s k here in
            inl (
              omega arith,
              omega arith,
              (
                c.0,
                same ∙ get-insert m s k c.0 ∙ ground arith,
                rw (← e) (choose-IsChoice members (get preferences s) rr pos),
              ),
            )
        | inr there ↦ inr (ground arith, same ∙ get-insert m s k c.0 ∙ ground arith)
      ]
    ]

sorted-contains : (members : List ℕ) (k : ℕ) → contains (sorted members) k ≡ contains members k
sorted-contains members k = contains-extend [] members k ∙ empty
  where
    empty : contains [] k || contains members k ≡ contains members k
    empty = unfold contains in refl

-- With preferences and at least one member, every shard below the count has exactly one owner,
-- who is one of the members given, and who is the preferred host if that is one of the members;
-- shards past the count have none.
pub owner-with_preferences :
    (count : ℕ) (members : List ℕ) (preferences : OrdMap ℕ) (term shard : ℕ)
    → 0 < length (sorted members)
    → ((shard < count)
        × ((o : ℕ) × (owner (with_preferences count members preferences term) shard ≡ some o)
            × IsChoice members (get preferences shard) o))
      ⊎ ((count ≤ shard) × (owner (with_preferences count members preferences term) shard ≡ none))
unfolding owner with_preferences
owner-with_preferences count members preferences term shard pos =
    elim (list-cases (sorted members)) [
      | inl e ↦ absurd (omega (arith, ap length e))
      | inr (h, r, e) ↦
          let back : (o : ℕ)
              → IsChoice (h ∷ r) (get preferences shard) o
              → IsChoice members (get preferences shard) o =
            λ o i. (
              sym (sorted-contains members o) ∙ ap (λ l. contains l o) e ∙ i.0,
              λ pref p c.
                  i.1 pref p (sym (ap (λ l. contains l pref) e) ∙ sorted-contains members pref ∙ c),
            ) in
          rw (e, with_preferences)
            (elim (get-assign_preferred count 0 0 (h ∷ r) preferences [] shard (omega arith)) [
              | inl (lo, hi, (o, found, i)) ↦ inl (omega arith, (o, found, back o i))
              | inr (out, same) ↦ inr (omega arith, same ∙ get-empty {V = ℕ} shard)
            ])
    ]
