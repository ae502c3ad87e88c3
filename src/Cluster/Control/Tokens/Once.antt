-- ===== src/Cluster/Control/Tokens/Once.antt =====
-- src/cluster/control.rs: a join token is accepted once.
use shardlite.Common.{
  ℕ, ◌≡◌, ◌&&◌, ◌||◌, ◌++◌, refl, inl, inr, Bool, true, false, not, Option, none, some, List, [],
  ◌∷◌, arith, if◌then◌else◌, Option-cases,
}
use shardlite.Common.Text.{same_text}
use shardlite.Cluster.Catalog.{ok, err, bad_token}
use shardlite.Cluster.Control.Tokens.{
  JoinTokenRecord, JoinTokenStore, mark_used, find_token, retain, or_else, issue, hex, consume,
  reopen, live, saturating_add, clamp,
}

-- Every record with the hash is used.
unfoldable spent : List ℕ → List JoinTokenRecord → Bool
spent h [] = true
spent h (t ∷ ts) = (not (same_text t.hash h) || t.used) && spent h ts

-- No record has the hash.
unfoldable pub absent : List ℕ → List JoinTokenRecord → Bool
absent h [] = true
absent h (t ∷ ts) = not (same_text t.hash h) && absent h ts

-- At most one record has the hash.
unfoldable pub single : List ℕ → List JoinTokenRecord → Bool
unfolding absent
single h [] = true
single h (t ∷ ts) = if same_text t.hash h then absent h ts else single h ts

absent-spent : (h : List ℕ) (ts : List JoinTokenRecord) → absent h ts ≡ true → spent h ts ≡ true
unfolding absent spent
absent-spent h [] e = refl
absent-spent h (t ∷ ts) e = ground (arith, absent-spent h ts)

spent-mark_used :
    (h : List ℕ) (ts : List JoinTokenRecord) → single h ts ≡ true → spent h (mark_used h ts) ≡ true
unfolding single spent mark_used
spent-mark_used h [] e = refl
spent-mark_used h (t ∷ ts) e = ground (arith, spent-mark_used h ts, absent-spent h ts)

spent_marked :
    (h k : List ℕ) (ts : List JoinTokenRecord) → spent h ts ≡ true → spent h (mark_used k ts) ≡ true
unfolding spent mark_used
spent_marked h k [] e = refl
spent_marked h k (t ∷ ts) e = ground (arith, spent_marked h k ts)

spent-find_token :
    (h : List ℕ) (ts : List JoinTokenRecord) (t : JoinTokenRecord)
    → spent h ts ≡ true
    → find_token h ts ≡ some t
    → t.used ≡ true
unfolding spent find_token
spent-find_token h [] t e found = absurd (ground arith)
spent-find_token h (u ∷ ts) t e found = ground (arith, spent-find_token h ts t)

spent-issued :
    (h k : List ℕ) (expires now : ℕ) (ts : List JoinTokenRecord)
    → spent h ts ≡ true
    → same_text k h ≡ false
    → spent h (retain (live now) ts ++ record { hash = k; expires_at = expires; used = false } ∷ [])
      ≡ true
unfolding spent
spent-issued h k expires now [] e ne = ground arith
spent-issued h k expires now (t ∷ ts) e ne = ground (arith, spent-issued h k expires now ts)

-- The records in memory and those a restart would read have the token used.
abbrev Spent : List ℕ → JoinTokenStore → Type 0
Spent h s = (spent h s.state ≡ true) × (s.durable ≡ true → spent h (or_else [] s.file) ≡ true)

pub data TokenCall : Type 0 where
  issue_call : Option (List ℕ) → (now ttl : ℕ) → (written : Bool) → TokenCall
  consume_call : (now : ℕ) → (written : Bool) → (token : List ℕ) → TokenCall
  restart_tokens : TokenCall

abbrev pub call : (List ℕ → List ℕ) → TokenCall → JoinTokenStore → JoinTokenStore
call hash (issue_call nonce now ttl written) s = (issue hash nonce now ttl written s).0
call hash (consume_call now written token) s = (consume hash now written token s).0
call hash restart_tokens s = reopen s

-- No call issues a token of this hash.
abbrev pub Avoids : (List ℕ → List ℕ) → List ℕ → List TokenCall → Type 0
Avoids hash h [] = Unit
Avoids hash h (issue_call (some raw) now ttl written ∷ calls) =
    (same_text (hash (hex raw)) h ≡ false) × Avoids hash h calls
Avoids hash h (c ∷ calls) = Avoids hash h calls

unfoldable pub run_tokens : (List ℕ → List ℕ) → List TokenCall → JoinTokenStore → JoinTokenStore
run_tokens hash [] s = s
run_tokens hash (c ∷ calls) s = run_tokens hash calls (call hash c s)

consume-Spent :
    (hash : List ℕ → List ℕ) (h : List ℕ) (now : ℕ) (written : Bool) (token : List ℕ)
    (s : JoinTokenStore)
    → Spent h s
    → Spent h (consume hash now written token s).0
unfolding consume
consume-Spent hash h now written token s e = ground (arith, e, spent_marked h (hash token) s.state)

issue-Spent :
    (hash : List ℕ → List ℕ) (h : List ℕ) (raw : List ℕ) (now ttl : ℕ) (written : Bool)
    (s : JoinTokenStore)
    → same_text (hash (hex raw)) h ≡ false
    → Spent h s
    → Spent h (issue hash (some raw) now ttl written s).0
unfolding issue
issue-Spent hash h raw now ttl written s ne e =
    ground (arith, e, spent-issued h (hash (hex raw)) (saturating_add now (clamp ttl)) now s.state)

reopen-Spent : (h : List ℕ) (s : JoinTokenStore) → Spent h s → Spent h (reopen s)
unfolding reopen spent
reopen-Spent h s e = ground (arith, e)

run_tokens-Spent :
    (hash : List ℕ → List ℕ) (h : List ℕ) (calls : List TokenCall) (s : JoinTokenStore)
    → Avoids hash h calls
    → Spent h s
    → Spent h (run_tokens hash calls s)
unfolding run_tokens issue
run_tokens-Spent hash h [] s a e = e
run_tokens-Spent hash h (issue_call none now ttl written ∷ calls) s a e =
    run_tokens-Spent hash h calls s a e
run_tokens-Spent hash h (issue_call (some raw) now ttl written ∷ calls) s a e =
    run_tokens-Spent hash h calls (issue hash (some raw) now ttl written s).0 a.1
      (issue-Spent hash h raw now ttl written s a.0 e)
run_tokens-Spent hash h (consume_call now written token ∷ calls) s a e =
    run_tokens-Spent hash h calls (consume hash now written token s).0 a
      (consume-Spent hash h now written token s e)
run_tokens-Spent hash h (restart_tokens ∷ calls) s a e =
    run_tokens-Spent hash h calls (reopen s) a (reopen-Spent h s e)

consumed-Spent :
    (hash : List ℕ → List ℕ) (now : ℕ) (written : Bool) (token : List ℕ) (s : JoinTokenStore)
    → single (hash token) s.state ≡ true
    → (consume hash now written token s).1 ≡ ok tt
    → Spent (hash token) (consume hash now written token s).0
unfolding consume
consumed-Spent hash now written token s one e =
    ground (arith, spent-mark_used (hash token) s.state one)

spent-consume :
    (hash : List ℕ → List ℕ) (now : ℕ) (written : Bool) (token : List ℕ) (s : JoinTokenStore)
    → spent (hash token) s.state ≡ true
    → (consume hash now written token s).1 ≡ err bad_token
unfolding consume
spent-consume hash now written token s e = elim (Option-cases (find_token (hash token) s.state)) [
  | inl none_left ↦ rw none_left refl
  | inr (t, found) ↦ rw (found, spent-find_token (hash token) s.state t e found) refl
]

-- A token that was accepted is never accepted again, through any sequence of tokens issued,
-- tokens consumed and restarts, and whichever of the later writes fail. At its acceptance at most
-- one record has its hash, and no token issued later has it.
pub consume_once :
    (hash : List ℕ → List ℕ) (token : List ℕ) (now later : ℕ) (written then_written : Bool)
    (calls : List TokenCall) (s : JoinTokenStore)
    → single (hash token) s.state ≡ true
    → (consume hash now written token s).1 ≡ ok tt
    → Avoids hash (hash token) calls
    → (consume hash later then_written token
        (run_tokens hash calls (consume hash now written token s).0)).1
      ≡ err bad_token
consume_once hash token now later written then_written calls s one e a =
    let after = (consume hash now written token s).0 in
    spent-consume hash later then_written token (run_tokens hash calls after)
      (run_tokens-Spent hash (hash token) calls after a
        (consumed-Spent hash now written token s one e)).0
