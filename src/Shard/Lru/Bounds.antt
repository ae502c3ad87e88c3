-- ===== src/Shard/Lru/Bounds.antt =====
-- The cache stays within its capacity, and evicts the entry that was used least recently.
use shardlite.Common.{
  ℕ, suc, ◌+◌, ◌%◌, ◌<◌, ◌≡◌, ◌≢◌, refl, ap, ◌∙◌, inl, inr, Option, none, some, arith, length,
  Option-cases, sym,
}
use shardlite.Shard.Lru.{
  Lru, Opened, ok, err, u64, find, touch, coldest, get_or_open, insert_opened,
}
use shardlite.Shard.Lru.Slots.{
  DistinctIds, Ticks, used_of, length-touch, drop_id-DistinctIds, touch-DistinctIds, drop_id-Ticks,
  used_lt, touch-Ticks, coldest_lem, Ticks-later,
}
use shardlite.Shard.Lru.Access.{
  entry_after, get_or_open_contents, IsValid, victim, kept, evict, room_of, bumped, bumped-IsValid,
  missed, hits, find-room_of, make_room-victim, make_room_enough,
}

module _ {ℓ} {V : Type ℓ} where
  room_of-capacity : (l : Lru V) (k : Option ℕ) → (room_of l k).0.capacity ≡ l.capacity
  room_of-capacity l none = refl
  room_of-capacity l (some k) = refl

  room_of-within :
      (l : Lru V) (id : ℕ)
      → IsValid l
      → find id l.entries ≡ none
      → length (room_of l (victim l id)).0.entries < l.capacity
  room_of-within l id v miss =
      let enough = make_room_enough (suc (length l.entries)) 0 l v.capacity_pos (omega arith) in
      let e = make_room-victim l id v miss in
      omega (
        arith,
        ap (λ p. length p.0.entries) e,
        ap (λ p. p.0.capacity) e,
        room_of-capacity l (victim l id),
      )

  kept-none : (k : Option ℕ) (j : ℕ) → kept {V = V} k j none ≡ none
  kept-none none j = refl
  kept-none (some k) j = ground arith

  insert-IsValid :
      {E : Type ℓ} (m : Lru V) (id old : ℕ) (o : Opened E V) (c : ℕ)
      → old < m.tick
      → DistinctIds m.entries
      → Ticks old m.entries
      → find id m.entries ≡ none
      → length m.entries < m.capacity
      → IsValid (insert_opened id m.tick o (m, c)).0
  insert-IsValid m id old (ok value) c h d t absent room = record {
    capacity_pos = omega arith;
    within = omega arith;
    ids = (absent, d);
    ticks = (
      omega arith,
      used_lt old m.tick m.entries h t,
      Ticks-later old m.tick m.entries (omega arith) t,
    );
  }
  insert-IsValid m id old (err e) c h d t absent room = record {
    capacity_pos = omega arith;
    within = omega arith;
    ids = d;
    ticks = Ticks-later old m.tick m.entries (omega arith) t;
  }

  insert_room-IsValid :
      {E : Type ℓ} (l : Lru V) (id old : ℕ) (o : Opened E V) (k : Option ℕ)
      → old < l.tick
      → DistinctIds l.entries
      → Ticks old l.entries
      → find id (room_of l k).0.entries ≡ none
      → length (room_of l k).0.entries < l.capacity
      → IsValid (insert_opened id l.tick o (room_of l k)).0
  insert_room-IsValid l id old o none h d t absent room =
      insert-IsValid l id old o 0 h d t absent room
  insert_room-IsValid l id old o (some k) h d t absent room =
      insert-IsValid (evict l k) id old o 1 h (drop_id-DistinctIds k l.entries d)
        (drop_id-Ticks k old l.entries t) absent room

  touch-IsValid :
      (l : Lru V) (id n : ℕ)
      → IsValid l
      → l.tick < n
      → IsValid (record l { tick = n; entries = touch id n l.entries })
  touch-IsValid l id n v h = record {
    capacity_pos = v.capacity_pos;
    within = omega (arith, v.within, length-touch id n l.entries);
    ids = touch-DistinctIds id n l.entries v.ids;
    ticks = touch-Ticks id l.tick n l.entries h v.ticks;
  }

  -- Every call keeps a valid cache valid, whether `open` succeeds or fails, as long as the tick
  -- is below the last u64: the ids and the ticks stay distinct, and the number of entries never
  -- exceeds the capacity.
  pub get_or_open-IsValid :
      {E : Type ℓ} (l : Lru V) (id : ℕ) (o : Opened E V)
      → IsValid l
      → l.tick + 1 < u64
      → IsValid (get_or_open l id o).0
  get_or_open-IsValid l id o v h = elim (Option-cases (find id l.entries)) [
    | inl miss ↦ rw (missed l id o v h miss) (
        insert_room-IsValid (bumped l) id l.tick o (victim l id) (omega arith) v.ids v.ticks
          (find-room_of (bumped l) (victim l id) id v.ids
            ∙ ap (kept (victim l id) id) miss
            ∙ kept-none (victim l id) id)
          (room_of-within (bumped l) id (bumped-IsValid l h v) miss))
    | inr (w, hit) ↦ rw (hits l id o hit) (touch-IsValid l id ((l.tick + 1) % u64) v (omega arith))
  ]

  victim_least :
      (l : Lru V) (id k : ℕ)
      → IsValid l
      → victim l id ≡ some k
      → (u : ℕ) × (used_of k l.entries ≡ some u)
        × ((j w : ℕ) → j ≢ k → used_of j l.entries ≡ some w → u < w)
        × (length l.entries ≡ l.capacity)
        × (find id l.entries ≡ none)
  victim_least l id k v e =
      let c : coldest l.entries ≡ some k = ground arith in
      let (u, at, least) = coldest_lem l.tick k l.entries v.ids v.ticks c in
      (u, at, least, ground (arith, v.within), ground arith)

  gone-victim :
      {E : Type ℓ} (id k : ℕ) (o : Opened E V) (before found : Option V) (w : V) (vic : Option ℕ)
      → found ≡ some w
      → entry_after id k o before (kept vic k found) ≡ none
      → vic ≡ some k
  gone-victim id k (ok value) none found w none e g = absurd (ground arith)
  gone-victim id k (ok value) none found w (some j) e g = ground arith
  gone-victim id k (err x) none found w none e g = absurd (ground arith)
  gone-victim id k (err x) none found w (some j) e g = ground arith
  gone-victim id k (ok value) (some b) found w none e g = absurd (ground arith)
  gone-victim id k (ok value) (some b) found w (some j) e g = ground arith
  gone-victim id k (err x) (some b) found w none e g = absurd (ground arith)
  gone-victim id k (err x) (some b) found w (some j) e g = ground arith

  -- An entry of a valid cache, its tick below the last u64, that is gone after a call was the one
  -- used least recently, strictly before every other one; the cache was full; and the call asked
  -- for an entry that was not there.
  pub get_or_open-evicts_coldest :
      {E : Type ℓ} (l : Lru V) (id k : ℕ) (w : V) (o : Opened E V)
      → IsValid l
      → l.tick + 1 < u64
      → find k l.entries ≡ some w
      → find k (get_or_open l id o).0.entries ≡ none
      → (u : ℕ) × (used_of k l.entries ≡ some u)
        × ((j t : ℕ) → j ≢ k → used_of j l.entries ≡ some t → u < t)
        × (length l.entries ≡ l.capacity)
        × (find id l.entries ≡ none)
  get_or_open-evicts_coldest l id k w o v h there gone = victim_least l id k v (
      gone-victim id k o (find id l.entries) (find k l.entries) w (victim l id) there
        (sym (get_or_open_contents l id k o v h) ∙ gone))
