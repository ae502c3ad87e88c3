-- ===== src/Cluster/Term/Votes.antt =====
-- One vote per term, across refused writes and restarts.
use shardlite.Common.{
  ℕ, ◌<◌, ◌≤◌, ◌≡◌, ◌⊎◌, refl, inl, inr, Bool, true, false, none, some, arith, leb, Bool-cases,
}
use shardlite.Common.Decimal.{u64}
use shardlite.Cluster.Term.{
  State, TermStore, ok, err, unvoted, body, advance_to, grant_vote, TermError,
}
use shardlite.Cluster.Term.Format.{InRange}

-- The state in memory is what the file says, and the file says nothing before the first write.
abbrev pub IsDurable : TermStore → Type 0
IsDurable s =
    ((s.file ≡ some (body s.state)) ⊎ ((s.file ≡ none) × (s.state ≡ unvoted))) × InRange s.state

-- The term never falls, and within a term a vote that is cast stays cast.
abbrev pub Extends : State → State → Type 0
Extends s t =
    (s.term ≤ t.term) × ((n : ℕ) → s.term ≡ t.term → s.voted_for ≡ some n → t.voted_for ≡ some n)

pub Extends-refl : (s : State) → Extends s s
Extends-refl s = (omega arith, λ n e v. v)

pub Extends-trans : (s t u : State) → Extends s t → Extends t u → Extends s u
Extends-trans s t u p q = (
  omega arith,
  λ n e v. let st : s.term ≡ t.term = omega arith in q.1 n (omega arith) (p.1 n st v),
)

pub advance_to-Extends :
    (disk : Bool) (s : TermStore) (term : ℕ) → Extends s.state (advance_to disk s term).0.state
unfolding advance_to
advance_to-Extends true s term = (ground arith, λ n e v. ground arith)
advance_to-Extends false s term = (ground arith, λ n e v. ground arith)

pub grant_vote-Extends :
    (disk : Bool) (s : TermStore) (term candidate : ℕ)
    → Extends s.state (grant_vote disk s term candidate).0.state
unfolding grant_vote
grant_vote-Extends true s term candidate = (ground arith, λ n e v. ground arith)
grant_vote-Extends false s term candidate = (ground arith, λ n e v. ground arith)

-- A granted vote is recorded: the state is in that term and holds that vote.
pub grant_vote-granted :
    (disk : Bool) (s : TermStore) (term candidate : ℕ)
    → (grant_vote disk s term candidate).1 ≡ ok true
    → ((grant_vote disk s term candidate).0.state.term ≡ term)
      × ((grant_vote disk s term candidate).0.state.voted_for ≡ some candidate)
unfolding grant_vote
grant_vote-granted true s term candidate h = (ground arith, ground arith)
grant_vote-granted false s term candidate h = (ground arith, ground arith)

pub advance_to-IsDurable :
    (disk : Bool) (s : TermStore) (term : ℕ)
    → term < u64
    → IsDurable s
    → IsDurable (advance_to disk s term).0
unfolding advance_to
advance_to-IsDurable true s term h d = elim (Bool-cases (leb term s.state.term)) [
  | inl le ↦ rw (le, advance_to) d
  | inr gt ↦ rw (gt, advance_to) (inl refl, (h, λ n e. cc))
]
advance_to-IsDurable false s term h d = ground (arith)

vote-InRange :
    (s : State) (t n : ℕ) → t < u64 → n < u64 → InRange (record s { term = t; voted_for = some n })
vote-InRange s t n a b = (a, λ m e. ground arith)

abbrev written : State → TermStore
written t = record { file = some (body t); state = t }

-- A call either changes nothing or writes the vote.
grant_vote-cases :
    (s : TermStore) (term candidate : ℕ)
    → ((grant_vote true s term candidate).0 ≡ s)
      ⊎ ((grant_vote true s term candidate).0
          ≡ written (record { term = term; voted_for = some candidate }))
unfolding grant_vote
grant_vote-cases s term candidate = ground arith

pub grant_vote-IsDurable :
    (disk : Bool) (s : TermStore) (term candidate : ℕ)
    → term < u64
    → candidate < u64
    → IsDurable s
    → IsDurable (grant_vote disk s term candidate).0
unfolding grant_vote
grant_vote-IsDurable false s term candidate h k d = ground arith
grant_vote-IsDurable true s term candidate h k d = elim (grant_vote-cases s term candidate) [
  | inl same ↦ rw same d
  | inr new ↦ rw new (inl refl, (h, λ n e. ground arith))
]

-- What an answer says of the state.
pub advance_to-err :
    (disk : Bool) (s : TermStore) (term : ℕ) {x : TermError}
    → (advance_to disk s term).1 ≡ err x
    → (advance_to disk s term).0 ≡ s
unfolding advance_to
advance_to-err true s term h = ground arith
advance_to-err false s term h = ground arith

pub advance_to-ok :
    (disk : Bool) (s : TermStore) (term : ℕ) {b : Bool}
    → s.state.term < term
    → (advance_to disk s term).1 ≡ ok b
    → (advance_to disk s term).0.state ≡ record { term = term; voted_for = none }
unfolding advance_to
advance_to-ok true s term lt h = ground arith
advance_to-ok false s term lt h = ground arith

pub grant_vote-err :
    (disk : Bool) (s : TermStore) (term candidate : ℕ) {x : TermError}
    → (grant_vote disk s term candidate).1 ≡ err x
    → (grant_vote disk s term candidate).0 ≡ s
unfolding grant_vote
grant_vote-err true s term candidate h = ground arith
grant_vote-err false s term candidate h = ground arith

pub grant_vote-refused :
    (disk : Bool) (s : TermStore) (term candidate : ℕ)
    → (grant_vote disk s term candidate).1 ≡ ok false
    → (grant_vote disk s term candidate).0 ≡ s
unfolding grant_vote
grant_vote-refused true s term candidate h = ground arith
grant_vote-refused false s term candidate h = ground arith

-- What every operation on a store keeps.
pub record Kept (s t : TermStore) : Type 0 where
  pub extends : Extends s.state t.state
  pub durable : IsDurable s → IsDurable t

pub Kept-refl : (s : TermStore) → Kept s s
Kept-refl s = record { extends = Extends-refl s.state; durable = λ d. d }

pub Kept-trans : (s t u : TermStore) → Kept s t → Kept t u → Kept s u
Kept-trans s t u p q = record {
  extends = Extends-trans s.state t.state u.state p.extends q.extends;
  durable = λ d. q.durable (p.durable d);
}

pub advance_to-Kept :
    (disk : Bool) (s : TermStore) (term : ℕ) → term < u64 → Kept s (advance_to disk s term).0
advance_to-Kept disk s term h = record {
  extends = advance_to-Extends disk s term;
  durable = advance_to-IsDurable disk s term h;
}

pub grant_vote-Kept :
    (disk : Bool) (s : TermStore) (term candidate : ℕ)
    → term < u64
    → candidate < u64
    → Kept s (grant_vote disk s term candidate).0
grant_vote-Kept disk s term candidate h k = record {
  extends = grant_vote-Extends disk s term candidate;
  durable = grant_vote-IsDurable disk s term candidate h k;
}

pub grant_vote-fresh :
    (disk : Bool) (s : TermStore) (term candidate : ℕ) {b : Bool}
    → s.state ≡ record { term = term; voted_for = none }
    → (grant_vote disk s term candidate).1 ≡ ok b
    → (grant_vote disk s term candidate).0.state
      ≡ record { term = term; voted_for = some candidate }
unfolding grant_vote
grant_vote-fresh true s term candidate e h = ground arith
grant_vote-fresh false s term candidate e h = ground arith
