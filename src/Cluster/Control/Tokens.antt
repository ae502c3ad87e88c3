-- ===== src/Cluster/Control/Tokens.antt =====
-- src/cluster/control.rs: the join tokens. The hash function, the random bytes and the time are
-- arguments. `written` says whether the write of the file succeeds: one that fails leaves the old file.
pub mod Once
use shardlite.Common.{
  ℕ, zero, suc, ◌+◌, ◌-◌, ◌*◌, ◌/◌, ◌%◌, ◌^◌, ◌<◌, ◌≤◌, ◌≡◌, ◌≢◌, ◌⊎◌, ◌&&◌, ◌||◌, ◌==◌, ◌++◌, refl,
  sym, ap, ◌∙◌, inl, inr, Bool, true, false, not, Option, none, some, List, [], ◌∷◌, map, arith,
  ltb, leb, if◌then◌else◌, length, All, Bool-cases, Option-cases, or_else, retain,
}
use shardlite.Common.Decimal.{u64}
use shardlite.Common.Text.{same_text}
use shardlite.Cluster.Catalog.{Result, ok, err, bad_token, panicked}

pub record JoinTokenRecord : Type 0 where
  pub hash : List ℕ
  pub expires_at : ℕ
  pub used : Bool

-- `durable` says that the store has a path, and `file` is what the file at that path holds.
pub record JoinTokenStore : Type 0 where
  pub state : List JoinTokenRecord
  pub durable : Bool
  pub file : Option (List JoinTokenRecord)

abbrev pub memory : JoinTokenStore
memory = record { state = []; durable = false; file = none }

-- `JoinTokenStore::open` after a restart; a store without a path starts anew.
unfoldable pub reopen : JoinTokenStore → JoinTokenStore
reopen s = if s.durable then record s { state = or_else [] s.file } else memory

abbrev pub persist : Bool → JoinTokenStore → JoinTokenStore × Bool
persist written s =
    if s.durable
    then (if written then (record s { file = some s.state }, true) else (s, false))
    else (s, true)

abbrev clamp : ℕ → ℕ
clamp ttl = if ltb ttl 60 then 60 else if ltb 86_400 ttl then 86_400 else ttl

-- `saturating_add` in u64.
abbrev saturating_add : ℕ → ℕ → ℕ
saturating_add n k = if leb u64 (n + k) then u64 - 1 else n + k

abbrev hex_digit : ℕ → ℕ
hex_digit d = if ltb d 10 then 48 + d else 87 + d

unfoldable pub hex : List ℕ → List ℕ
hex [] = []
hex (b ∷ bs) = hex_digit (b / 16) ∷ hex_digit (b % 16) ∷ hex bs

abbrev pub live : ℕ → JoinTokenRecord → Bool
live now t = not t.used && ltb now t.expires_at

abbrev outcome {ℓ} : {A : Type ℓ} → A → Bool → Result A
outcome a true = ok a
outcome a false = err panicked

abbrev pub issued : JoinTokenStore → ℕ → List ℕ → ℕ → JoinTokenStore
issued s now hash expires = record s {
  state =
      retain (live now) s.state ++ record { hash = hash; expires_at = expires; used = false } ∷ [];
}

abbrev pub issue_raw :
    (List ℕ → List ℕ)
    → ℕ
    → ℕ
    → Bool
    → List ℕ
    → JoinTokenStore
    → JoinTokenStore × Result (List ℕ × ℕ)
issue_raw hash now ttl written raw s =
    let token = hex raw in
    let expires = saturating_add now (clamp ttl) in
    let p = persist written (issued s now (hash token) expires) in
    (p.0, outcome (token, expires) p.1)

-- `nonce` is none where the random source fails.
unfoldable pub issue :
    (List ℕ → List ℕ)
    → Option (List ℕ)
    → ℕ
    → ℕ
    → Bool
    → JoinTokenStore
    → JoinTokenStore × Result (List ℕ × ℕ)
issue hash none now ttl written s = (s, err panicked)
issue hash (some raw) now ttl written s = issue_raw hash now ttl written raw s

unfoldable pub find_token : List ℕ → List JoinTokenRecord → Option JoinTokenRecord
find_token h [] = none
find_token h (t ∷ ts) = if same_text t.hash h then some t else find_token h ts

-- `rec.used = true` on the first record with the hash.
unfoldable pub mark_used : List ℕ → List JoinTokenRecord → List JoinTokenRecord
mark_used h [] = []
mark_used h (t ∷ ts) =
    if same_text t.hash h then record t { used = true } ∷ ts else t ∷ mark_used h ts

abbrev pub consume_found :
    List ℕ → ℕ → Bool → JoinTokenStore → Option JoinTokenRecord → JoinTokenStore × Result (Unit {0})
consume_found h now written s none = (s, err bad_token)
consume_found h now written s (some t) =
    if t.used || leb t.expires_at now
    then (s, err bad_token)
    else (let p = persist written (record s { state = mark_used h s.state }) in
        (p.0, outcome tt p.1))

unfoldable pub consume :
    (List ℕ → List ℕ) → ℕ → Bool → List ℕ → JoinTokenStore → JoinTokenStore × Result (Unit {0})
consume hash now written token s =
    consume_found (hash token) now written s (find_token (hash token) s.state)
