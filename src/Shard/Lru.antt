-- ===== src/Shard/Lru.antt =====
-- src/shard/lru.rs. The hash map is a list of slots with distinct ids, in no particular order; the
-- counters are u64.
pub mod Slots
pub mod Access
pub mod Bounds
use shardlite.Common.{
  ℕ, ◌+◌, ◌%◌, ◌^◌, ◌<◌, Bool, List, Option, suc, ◌∷◌, none, if◌then◌else◌, leb, true, some, ◌==◌,
  ltb, length, false, [], zero,
}

abbrev pub u64 : ℕ
u64 = 2 ^ 64

pub record Slot {ℓ} (V : Type ℓ) : Type ℓ where
  pub id : ℕ
  pub used : ℕ
  pub value : V

pub record Event : Type 0 where
  pub opened : Bool
  pub evicted : ℕ

pub record Lru {ℓ} (V : Type ℓ) : Type ℓ where
  pub capacity : ℕ
  pub tick : ℕ
  pub entries : List (Slot V)
  pub evictions : ℕ
  pub opens : ℕ

-- What `open` returns.
pub data Opened {ℓ} (E V : Type ℓ) : Type ℓ where
  ok : V → Opened E V
  err : E → Opened E V

module _ {ℓ} {V : Type ℓ} where
  unfoldable pub find : ℕ → List (Slot V) → Option V
  find k [] = none
  find k (s ∷ r) = if s.id == k then some s.value else find k r

  -- `slot.0 = now`
  unfoldable pub touch : ℕ → ℕ → List (Slot V) → List (Slot V)
  touch k now [] = []
  touch k now (s ∷ r) = if s.id == k then record s { used = now } ∷ r else s ∷ touch k now r

  unfoldable pub drop_id : ℕ → List (Slot V) → List (Slot V)
  drop_id k [] = []
  drop_id k (s ∷ r) = if s.id == k then r else s ∷ drop_id k r

  -- The slot with the least tick among `best` and the rest, the first of several.
  unfoldable pub coldest_from : Slot V → List (Slot V) → Slot V
  coldest_from best [] = best
  coldest_from best (s ∷ r) = coldest_from (if ltb s.used best.used then s else best) r

  unfoldable pub coldest : List (Slot V) → Option ℕ
  unfolding coldest_from
  coldest [] = none
  coldest (s ∷ r) = some (coldest_from s r).id

  -- `none` is the panic of the assertion.
  unfoldable pub new : ℕ → Option (Lru V)
  new capacity =
      if capacity == 0
      then none
      else some (record { capacity = capacity; tick = 0; entries = []; evictions = 0; opens = 0 })

  -- `while len >= capacity`: evict the coldest. A round removes an entry, so fuel above the length
  -- is enough. The second component counts the evictions of this call.
  unfoldable pub make_room : ℕ → Lru V → ℕ → Lru V × ℕ
  make_room zero l evicted = (l, evicted)
  make_room (suc fuel) l evicted = elim (leb l.capacity (length l.entries)) [
    | false ↦ (l, evicted)
    | true ↦ elim (coldest l.entries) [
      | none ↦ (l, evicted)
      | some victim ↦
          make_room fuel
            (record l { entries = drop_id victim l.entries; evictions = (l.evictions + 1) % u64 })
            ((evicted + 1) % u64)
    ]
  ]

  abbrev pub insert_opened :
      {E : Type ℓ} → ℕ → ℕ → Opened E V → Lru V × ℕ → Lru V × Opened E (V × Event)
  insert_opened id now (err e) (l, evicted) = (l, err e)
  insert_opened id now (ok v) (l, evicted) = (
    record l {
      entries = record { id = id; used = now; value = v } ∷ l.entries;
      opens = (l.opens + 1) % u64;
    },
    ok (v, record { opened = true; evicted = evicted }),
  )

  abbrev pub opening :
      {E : Type ℓ} → ℕ → Opened E V → Lru V → Option V → Lru V × Opened E (V × Event)
  opening id opener l (some v) = (
    record l { entries = touch id l.tick l.entries },
    ok (v, record { opened = false; evicted = 0 }),
  )
  opening id opener l none = insert_opened id l.tick opener (make_room (suc (length l.entries)) l 0)

  unfoldable pub get_or_open : {E : Type ℓ} → Lru V → ℕ → Opened E V → Lru V × Opened E (V × Event)
  get_or_open l id opener =
      let l' = record l { tick = (l.tick + 1) % u64 } in opening id opener l' (find id l.entries)

  unfoldable pub peek : Lru V → ℕ → Option V
  peek l id = find id l.entries

  unfoldable pub remove : Lru V → ℕ → Lru V × Option V
  remove l id = (record l { entries = drop_id id l.entries }, find id l.entries)
