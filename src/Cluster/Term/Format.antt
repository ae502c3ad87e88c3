-- ===== src/Cluster/Term/Format.antt =====
-- The text of the term file: what `persist` writes, `read` reads back.
use shardlite.Common.{
  ℕ, ◌<◌, ◌≤◌, ◌≡◌, ◌≢◌, ◌&&◌, ◌++◌, refl, ap, ◌∙◌, Bool, true, false, not, Option, none, some,
  List, [], ◌∷◌, arith, All,
}
use shardlite.Common.Text.{
  lines, same_text, IsPlain, lines-line, lines-empty, trim-plain, split_once-append, same_text_refl,
  is_space,
}
use shardlite.Common.Decimal.{print, u64, parse-print, print-IsPlain, print-digits}
use shardlite.Common.Bytes.{bytes}
use shardlite.Cluster.Term.{
  State, ok, header, vote_text, body, read, read_lines, read_line, read_pair, read_vote, unvoted,
}

abbrev pub InRange : State → Type 0
InRange s = (s.term < u64) × ((n : ℕ) → s.voted_for ≡ some n → n < u64)

abbrev all_plain : List ℕ → Bool
all_plain [] = true
all_plain (c ∷ l) = not (is_space c) && all_plain l

plain : (l : List ℕ) → all_plain l ≡ true → All IsPlain l
plain [] h = tt
plain (c ∷ l) h = (ground arith, plain l (ground arith))

vote_text-IsPlain : (v : Option ℕ) → All IsPlain (vote_text v)
vote_text-IsPlain none = (refl, tt)
vote_text-IsPlain (some n) = print-IsPlain n

append-IsPlain : (l r : List ℕ) → All IsPlain l → All IsPlain r → All IsPlain (l ++ r)
append-IsPlain [] r a b = b
append-IsPlain (c ∷ l) r a b = (a.0, append-IsPlain l r a.1 b)

not-dash : (l : List ℕ) → All (λ c. (48 ≤ c) × (c ≤ 57)) l → same_text l (b'-' ∷ []) ≡ false
unfolding same_text
not-dash [] h = refl
not-dash (c ∷ l) h = ground arith

read_vote-text : (v : Option ℕ) → ((n : ℕ) → v ≡ some n → n < u64) → read_vote (vote_text v) ≡ ok v
unfolding read_vote
read_vote-text none h = unfold same_text in refl
read_vote-text (some n) h = rw (not-dash (print n) (print-digits n), parse-print n (h n refl)) refl

read_line-pair :
    (s : State) (k v : List ℕ)
    → All IsPlain k
    → All (λ c. c ≢ b'=') k
    → All IsPlain v
    → read_line s (k ++ b'=' ∷ v) ≡ read_pair s k v
unfolding read_line
read_line-pair s k v p q r =
    rw (split_once-append b'=' k v q, read_line) (rw (trim-plain k p, trim-plain v r) refl)

read_pair-term :
    (s : State) (t : ℕ)
    → t < u64
    → read_pair s (bytes "term") (print t) ≡ ok (record s { term = t })
unfolding read_pair same_text
read_pair-term s t h = rw (parse-print t h) refl

read_pair-vote :
    (s : State) (v : Option ℕ)
    → ((n : ℕ) → v ≡ some n → n < u64)
    → read_pair s (bytes "voted_for") (vote_text v) ≡ ok (record s { voted_for = v })
unfolding read_pair same_text
read_pair-vote s v h = rw (read_vote-text v h) refl

term_line :
    (s : State) (t : ℕ)
    → t < u64
    → read_line s (bytes "term=" ++ print t) ≡ ok (record s { term = t })
term_line s t h =
    read_line-pair s (bytes "term") (print t) (plain (bytes "term") refl) (omega arith)
      (print-IsPlain t)
    ∙ read_pair-term s t h

vote_line :
    (s : State) (v : Option ℕ)
    → ((n : ℕ) → v ≡ some n → n < u64)
    → read_line s (bytes "voted_for=" ++ vote_text v) ≡ ok (record s { voted_for = v })
vote_line s v h =
    read_line-pair s (bytes "voted_for") (vote_text v) (plain (bytes "voted_for") refl)
      (omega arith) (vote_text-IsPlain v)
    ∙ read_pair-vote s v h

lines-body :
    (s : State)
    → lines (body s)
      ≡ header
        ∷ (bytes "term=" ++ print s.term)
        ∷ (bytes "voted_for=" ++ vote_text s.voted_for)
        ∷ []
unfolding body
lines-body s =
    lines-line header _ (plain header refl)
    ∙ ap (λ r. header ∷ r)
        (lines-line (bytes "term=" ++ print s.term) _
            (append-IsPlain (bytes "term=") _ (plain (bytes "term=") refl) (print-IsPlain s.term))
          ∙ ap (λ r. (bytes "term=" ++ print s.term) ∷ r)
              (lines-line (bytes "voted_for=" ++ vote_text s.voted_for) [] (
                  append-IsPlain (bytes "voted_for=") _ (plain (bytes "voted_for=") refl)
                    (vote_text-IsPlain s.voted_for))
                ∙ ap (λ r. (bytes "voted_for=" ++ vote_text s.voted_for) ∷ r) lines-empty))

-- Reading the file that `persist` wrote gives the state back, for any u64 term and vote.
pub read-body : (s : State) → InRange s → read (body s) ≡ ok s
unfolding read
read-body s h =
    rw (lines-body s, same_text_refl header, term_line unvoted s.term h.0, read_lines)
      (rw (vote_line (record { term = s.term; voted_for = none }) s.voted_for h.1) refl)
