-- ===== src/Shard/Lru/Access.antt =====
-- `get_or_open`: what it leaves in the cache, what it evicts, and the bound on the entries.
use shardlite.Common.{
  ℕ, zero, suc, ◌+◌, ◌%◌, ◌<◌, ◌≤◌, ◌≡◌, ◌==◌, refl, sym, ap, ◌∙◌, inl, inr, true, false, not,
  Option, none, some, List, ◌∷◌, arith, ltb, if◌then◌else◌, length, Bool-cases, Option-cases,
  is_some,
}
use shardlite.Common.{or_else}
use shardlite.Shard.Lru.{
  Slot, Lru, Opened, ok, err, u64, find, touch, drop_id, coldest, make_room, opening, insert_opened,
  get_or_open,
}
use shardlite.Shard.Lru.Slots.{
  DistinctIds, Ticks, find-drop_id, find-touch, Ticks-later, length-drop_id, find-coldest,
  coldest-none,
}

module _ {ℓ} {V : Type ℓ} where
  pub record IsValid (l : Lru V) : Type ℓ where
    pub capacity_pos : 0 < l.capacity
    pub within : length l.entries ≤ l.capacity
    pub ids : DistinctIds l.entries
    pub ticks : Ticks l.tick l.entries

  -- The slot that a call has to evict: none on a hit or while there is room.
  abbrev pub victim : Lru V → ℕ → Option ℕ
  victim l id = elim (find id l.entries) [
    | some v ↦ none
    | none ↦ if ltb (length l.entries) l.capacity then none else coldest l.entries
  ]

  abbrev pub kept : Option ℕ → ℕ → Option V → Option V
  kept none j o = o
  kept (some k) j o = if k == j then none else o

  abbrev pub evict : Lru V → ℕ → Lru V
  evict l k = record l { entries = drop_id k l.entries; evictions = (l.evictions + 1) % u64 }

  make_room-free :
      (f e : ℕ) (l : Lru V) → length l.entries < l.capacity → make_room (suc f) l e ≡ (l, e)
  unfolding make_room
  make_room-free f e l h = ground arith

  make_room-full :
      (f e k : ℕ) (l : Lru V)
      → l.capacity ≤ length l.entries
      → coldest l.entries ≡ some k
      → make_room (suc f) l e ≡ make_room f (evict l k) ((e + 1) % u64)
  unfolding make_room
  make_room-full f e k l h c = ground arith

  -- The eviction loop ends with room for one more entry, when its fuel is above the length.
  pub make_room_enough :
      (f e : ℕ) (l : Lru V)
      → 0 < l.capacity
      → length l.entries < f
      → length (make_room f l e).0.entries < (make_room f l e).0.capacity
  make_room_enough zero e l pos h = absurd (omega arith)
  make_room_enough (suc f) e l pos h = elim (Bool-cases (ltb (length l.entries) l.capacity)) [
    | inl lt ↦ rw (make_room-free f e l (ground arith)) (ground arith)
    | inr ge ↦ elim (Option-cases (coldest l.entries)) [
      | inl c ↦ absurd (ground (arith, coldest-none l.entries c))
      | inr (k, c) ↦ rw (make_room-full f e k l (ground arith) c) (
          make_room_enough f ((e + 1) % u64) (evict l k) pos
            (omega (arith, length-drop_id k l.entries (find-coldest k l.entries c))))
    ]
  ]

  -- One round is enough in a cache within its capacity.
  abbrev pub room_of : Lru V → Option ℕ → Lru V × ℕ
  room_of l none = (l, 0)
  room_of l (some k) = (evict l k, 1)

  one_round :
      (l : Lru V) (id k : ℕ)
      → IsValid l
      → find id l.entries ≡ none
      → ltb (length l.entries) l.capacity ≡ false
      → coldest l.entries ≡ some k
      → make_room (suc (length l.entries)) l 0 ≡ room_of l (victim l id)
  one_round l id k v miss full c =
      let shorter = length-drop_id k l.entries (find-coldest k l.entries c) in
      make_room-full (length l.entries) 0 k l (ground arith) c
      ∙ ap (λ n. make_room n (evict l k) 1) (sym shorter)
      ∙ make_room-free (length (drop_id k l.entries)) 1 (evict l k)
          (omega (arith, v.within, shorter))
      ∙ ground arith

  pub make_room-victim :
      (l : Lru V) (id : ℕ)
      → IsValid l
      → find id l.entries ≡ none
      → make_room (suc (length l.entries)) l 0 ≡ room_of l (victim l id)
  make_room-victim l id v miss = elim (Bool-cases (ltb (length l.entries) l.capacity)) [
    | inl lt ↦ rw (make_room-free (length l.entries) 0 l (ground arith)) (ground arith)
    | inr ge ↦ elim (Option-cases (coldest l.entries)) [
      | inl c ↦ absurd (ground (arith, v.capacity_pos, coldest-none l.entries c))
      | inr (k, c) ↦ one_round l id k v miss ge c
    ]
  ]

  pub find-room_of :
      (l : Lru V) (o : Option ℕ) (j : ℕ)
      → DistinctIds l.entries
      → find j (room_of l o).0.entries ≡ kept o j (find j l.entries)
  find-room_of l none j d = refl
  find-room_of l (some k) j d = find-drop_id k j l.entries d

  -- The entry of `j` after a call for `id`, given the entry of `id` before, and what stays of `j`'s.
  abbrev pub entry_after : {E : Type ℓ} → ℕ → ℕ → Opened E V → Option V → Option V → Option V
  entry_after id j (ok value) cached rest = if id == j then some (or_else value cached) else rest
  entry_after id j (err e) cached rest = rest

  abbrev pub bumped : Lru V → Lru V
  bumped l = record l { tick = (l.tick + 1) % u64 }

  pub bumped-IsValid : (l : Lru V) → l.tick + 1 < u64 → IsValid l → IsValid (bumped l)
  bumped-IsValid l h v = record {
    capacity_pos = v.capacity_pos;
    within = v.within;
    ids = v.ids;
    ticks = Ticks-later l.tick _ l.entries (omega arith) v.ticks;
  }

  pub missed :
      {E : Type ℓ} (l : Lru V) (id : ℕ) (o : Opened E V)
      → IsValid l
      → l.tick + 1 < u64
      → find id l.entries ≡ none
      → get_or_open l id o
        ≡ insert_opened id ((l.tick + 1) % u64) o (room_of (bumped l) (victim l id))
  unfolding get_or_open
  missed l id o v h miss =
      ap (opening id o (bumped l)) miss
      ∙ ap (insert_opened id ((l.tick + 1) % u64) o)
          (make_room-victim (bumped l) id (bumped-IsValid l h v) miss)

  pub hits :
      {E : Type ℓ} (l : Lru V) (id : ℕ) (o : Opened E V) {w : V}
      → find id l.entries ≡ some w
      → get_or_open l id o ≡ (
        record (bumped l) { entries = touch id ((l.tick + 1) % u64) l.entries },
        ok (w, record { opened = false; evicted = 0 }),
      )
  unfolding get_or_open
  hits l id o hit = ap (opening id o (bumped l)) hit

  victim-hit : (l : Lru V) (id : ℕ) {w : V} → find id l.entries ≡ some w → victim l id ≡ none
  victim-hit l id hit = ground arith

  event_miss :
      {E : Type ℓ} (id now : ℕ) (value : V) (l : Lru V) (k : Option ℕ)
      → (insert_opened {E = E} id now (ok value) (room_of l k)).1
        ≡ ok (value, record { opened = true; evicted = if is_some k then 1 else 0 })
  event_miss id now value l none = refl
  event_miss id now value l (some k) = refl

  find-cons :
      (s : Slot V) (r : List (Slot V)) (j : ℕ)
      → find j (s ∷ r) ≡ (if s.id == j then some s.value else find j r)
  unfolding find
  find-cons s r j = refl

  contents_miss :
      {E : Type ℓ} (id j now : ℕ) (o : Opened E V) (l : Lru V) (k : Option ℕ)
      → DistinctIds l.entries
      → find j (insert_opened id now o (room_of l k)).0.entries
        ≡ entry_after id j o none (kept k j (find j l.entries))
  contents_miss id j now (ok value) l k d =
      find-cons _ _ j ∙ ap (λ r. if id == j then some value else r) (find-room_of l k j d)
  contents_miss id j now (err e) l k d = find-room_of l k j d

  contents_hit :
      {E : Type ℓ} (id j : ℕ) (o : Opened E V) (es : List (Slot V)) (w : V)
      → find id es ≡ some w
      → find j es ≡ entry_after id j o (some w) (find j es)
  contents_hit id j (ok value) es w hit = ground arith
  contents_hit id j (err e) es w hit = refl

  -- What a valid cache whose tick is below the last u64 holds after a call: the entry asked for
  -- (opened, if it was not there), and all it held before but the victim; after a failed `open`,
  -- only the victim is gone.
  pub get_or_open_contents :
      {E : Type ℓ} (l : Lru V) (id j : ℕ) (o : Opened E V)
      → IsValid l
      → l.tick + 1 < u64
      → find j (get_or_open l id o).0.entries
        ≡ entry_after id j o (find id l.entries) (kept (victim l id) j (find j l.entries))
  get_or_open_contents l id j o v h = elim (Option-cases (find id l.entries)) [
    | inl miss ↦
        rw
          (
            missed l id o v h miss,
            contents_miss id j ((l.tick + 1) % u64) o (bumped l) (victim l id) v.ids,
            miss,
          )
          refl
    | inr (w, hit) ↦
        rw
          (
            hits l id o hit,
            find-touch id ((l.tick + 1) % u64) j l.entries,
            victim-hit l id hit,
            hit,
          )
          (contents_hit id j o l.entries w hit)
  ]

  -- From a valid cache whose tick is below the last u64, a call whose `open` succeeds opens
  -- exactly on a miss, and evicts at most one entry: exactly when there is a victim.
  pub get_or_open_event :
      {E : Type ℓ} (l : Lru V) (id : ℕ) (value : V) (o : Opened E V)
      → o ≡ ok value
      → IsValid l
      → l.tick + 1 < u64
      → (get_or_open l id o).1
        ≡ ok (
          or_else value (find id l.entries),
          record {
            opened = not (is_some (find id l.entries));
            evicted = if is_some (victim l id) then 1 else 0;
          },
        )
  get_or_open_event l id value o e v h = elim (Option-cases (find id l.entries)) [
    | inl miss ↦
        rw
          (
            missed l id o v h miss,
            e,
            event_miss id ((l.tick + 1) % u64) value (bumped l) (victim l id),
            miss,
          )
          refl
    | inr (w, hit) ↦ rw (hits l id o hit, victim-hit l id hit, hit) refl
  ]
