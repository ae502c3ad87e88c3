-- ===== src/Cluster/Term.antt =====
-- src/cluster/term.rs: the durable term and vote of one node. The file is its bytes, or absent; a
-- write either replaces it whole (temporary file, fsync, rename) or fails and leaves it.
pub mod Format
pub mod Votes
pub mod History
use shardlite.Common.{
  ℕ, zero, suc, ◌+◌, ◌-◌, ◌*◌, ◌/◌, ◌%◌, ◌^◌, ◌<◌, ◌≤◌, ◌≡◌, ◌≢◌, ◌⊎◌, ◌&&◌, ◌||◌, ◌==◌, ◌++◌, refl,
  sym, ap, ◌∙◌, inl, inr, Bool, true, false, not, Option, none, some, List, [], ◌∷◌, map, arith,
  ltb, leb, if◌then◌else◌, length, All, Bool-cases, Option-cases,
}
use shardlite.Common.{or_else}
use shardlite.Common.Text.{lines, split_once, trim, same_text}
use shardlite.Common.Decimal.{print, parse}
use shardlite.Common.Bytes.{bytes}

pub record State : Type 0 where
  pub term : ℕ
  pub voted_for : Option ℕ

pub data TermError : Type 0 where
  write_failed bad_header bad_term bad_vote : TermError

pub data Result {ℓ} (A : Type ℓ) : Type ℓ where
  ok : A → Result A
  err : TermError → Result A

infixl 5 ◌>>=◌
abbrev pub ◌>>=◌ {ℓ κ} : {A : Type ℓ} {B : Type κ} → Result A → (A → Result B) → Result B
ok a >>= f = f a
err e >>= f = err e

abbrev pub unvoted : State
unvoted = record { term = 0; voted_for = none }

pub record TermStore : Type 0 where
  pub file : Option (List ℕ)
  pub state : State

abbrev pub header : List ℕ
header = bytes "shardlite-term-v1"

abbrev pub vote_text : Option ℕ → List ℕ
vote_text none = b'-' ∷ []
vote_text (some n) = print n

-- The text that `persist` writes.
unfoldable pub body : State → List ℕ
body s =
    header
    ++ (10
        ∷ (bytes "term="
            ++ (print s.term
                ++ (10 ∷ (bytes "voted_for=" ++ (vote_text s.voted_for ++ (10 ∷ [])))))))

abbrev some_or {ℓ} : {A : Type ℓ} → TermError → Option A → Result A
some_or e none = err e
some_or e (some a) = ok a

read_vote : List ℕ → Result (Option ℕ)
read_vote v =
    if same_text v (b'-' ∷ []) then ok none else (do n ← some_or bad_vote (parse v); ok (some n))

-- One `key=value` line; a line without `=` and an unknown key change nothing.
read_pair : State → List ℕ → List ℕ → Result State
unfolding read_vote
read_pair s k v =
    if same_text k (bytes "term")
    then (do t ← some_or bad_term (parse v); ok (record s { term = t }))
    else if same_text k (bytes "voted_for")
    then (do w ← read_vote v; ok (record s { voted_for = w }))
    else ok s

read_line : State → List ℕ → Result State
unfolding read_pair
read_line s l = elim (split_once b'=' l) [
  | none ↦ ok s
  | some p ↦ read_pair s (trim p.0) (trim p.1)
]

read_lines : State → List (List ℕ) → Result State
unfolding read_line
read_lines s [] = ok s
read_lines s (l ∷ ls) = do s' ← read_line s l; read_lines s' ls

-- The first line, empty if there is none, has to be the header.
read_all : List (List ℕ) → Result State
unfolding read_lines
read_all [] = err bad_header
read_all (h ∷ ls) = if same_text h header then read_lines unvoted ls else err bad_header

unfoldable pub read : List ℕ → Result State
unfolding read_all
read text = read_all (lines text)

-- `open` on a directory that holds `file`.
unfoldable pub open_store : Option (List ℕ) → Result TermStore
open_store none = ok (record { file = none; state = unvoted })
open_store (some text) = do s ← read text; ok (record { file = some text; state = s })

-- `persist(..)?; *g = next; Ok(answer)`: the flag says whether the write succeeds.
unfoldable pub persist : Bool → TermStore → State → Bool → TermStore × Result Bool
unfolding body
persist true s next answer = (record { file = some (body next); state = next }, ok answer)
persist false s next answer = (s, err write_failed)

unfoldable pub advance_to : Bool → TermStore → ℕ → TermStore × Result Bool
unfolding persist
advance_to disk s term =
    if leb term s.state.term
    then (s, ok false)
    else persist disk s (record { term = term; voted_for = none }) true

abbrev vote_in : Bool → TermStore → State → ℕ → Option ℕ → TermStore × Result Bool
vote_in disk s next candidate none =
    persist disk s (record next { voted_for = some candidate }) true
vote_in disk s next candidate (some already) =
    if already == candidate
    then (s, ok true)
    else if ltb s.state.term next.term
    then persist disk s next false
    else (s, ok false)

unfoldable pub grant_vote : Bool → TermStore → ℕ → ℕ → TermStore × Result Bool
unfolding persist
grant_vote disk s term candidate =
    if ltb term s.state.term
    then (s, ok false)
    else (let next =
          if ltb s.state.term term then record { term = term; voted_for = none } else s.state in
        vote_in disk s next candidate next.voted_for)
