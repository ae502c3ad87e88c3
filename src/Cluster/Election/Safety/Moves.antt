-- ===== src/Cluster/Election/Safety/Moves.antt =====
-- What one move adds to the history, and to the votes that its node counts.
use shardlite.Common.{
  ℕ, ◌<◌, ◌≤◌, ◌≡◌, ◌⊎◌, ◌==◌, ◌++◌, refl, sym, ap, ◌∙◌, inl, inr, true, some, List, [], ◌∷◌, arith,
  Bool-cases, subst, ==→eq,
}
use shardlite.Common.OrdSet.{contains, insert, contains-insert, insert-IsOrdered, IsOrdered}
use shardlite.Cluster.Election.{Election, candidate, term_of, is_leader, has_quorum}
use shardlite.Cluster.Election.Protocol.{
  Ballot, Win, vote_of, Move, settles, stays, tears, votes_for, campaigns, counts,
}
use shardlite.Cluster.Election.Safety.{In, ballot, win}
use shardlite.Cluster.Election.Safety.Invariant.{NodeIsValid, IsCounting}

pub In-append {ℓ} : {A : Type ℓ} (a : A) (xs ys : List A) → In a ys → In a (xs ++ ys)
In-append a [] ys h = h
In-append a (x ∷ xs) ys h = inr (In-append a xs ys h)

abbrev pub Heard : (ℕ → Type 0) → List Ballot → ℕ → Election → Type 0
Heard heard B i e = (k : ℕ) → heard k → In (ballot k i (term_of e)) B

abbrev pub Asked : (ℕ → ℕ → Type 0) → List Ballot → Type 0
Asked asked B = (c t : ℕ) → asked c t → In (ballot c c t) B

-- A ballot that is new is the node's vote, and is its own in a new term, or was asked for.
pub new_ballot :
    {heard : ℕ → Type 0} {asked : ℕ → ℕ → Type 0} (e e' : Election) (b B : List Ballot)
    (w : List Win)
    → Asked asked B
    → Move heard asked e e' b w
    → (b ≡ [])
      ⊎ ((c : ℕ) × (b ≡ ballot e.cfg.node c (term_of e') ∷ [])
          × (vote_of e' ≡ some c)
          × (((c ≡ e.cfg.node) × (term_of e < term_of e')) ⊎ In (ballot c c (term_of e')) B))
new_ballot e e' b B w h (settles p q r) = inl p
new_ballot e e' b B w h (stays p q t r v) = inl p
new_ballot e e' b B w h (tears p q t r l) = inl p
new_ballot e e' b B w h (votes_for c a p q v r) = inr (c, p, v, inr (h c (term_of e') a))
new_ballot e e' b B w h (campaigns p t v l c) = inr (e.cfg.node, p, v, inl (refl, omega (arith, t)))
new_ballot e e' b B w h (counts f a p r t v c) = inl p

-- Every vote that the node counts was cast.
abbrev pub AllCast : List Ballot → ℕ → Election → Type 0
AllCast B i e =
    IsOrdered e.votes × ((k : ℕ) → contains e.votes k ≡ true → In (ballot k i (term_of e)) B)

campaigns-AllCast :
    (i : ℕ) (e e' : Election) (B : List Ballot)
    → e.cfg.node ≡ i
    → e'.votes ≡ insert [] e.cfg.node
    → AllCast (ballot e.cfg.node e.cfg.node (term_of e') ∷ B) i e'
unfolding contains
campaigns-AllCast i e e' B n v = (
  rw v (insert-IsOrdered [] e.cfg.node tt),
  λ k h.
      let same : k ≡ e.cfg.node = ground (arith, v, contains-insert [] e.cfg.node k) in
      inl (
        ap (λ j. ballot j i (term_of e')) same
        ∙ ap (λ j. ballot e.cfg.node j (term_of e')) (sym n)),
)

counts-AllCast :
    (from i : ℕ) (e e' : Election) (B : List Ballot)
    → In (ballot from i (term_of e)) B
    → (e'.votes ≡ insert e.votes from) ⊎ (e'.votes ≡ e.votes)
    → term_of e' ≡ term_of e
    → IsCounting B i e
    → AllCast B i e'
counts-AllCast from i e e' B here which t (inr nowhere) = absurd (nowhere from here)
counts-AllCast from i e e' B here (inr same) t (inl (o, all)) =
    (rw same o, λ k h. rw t (all k (ap (λ s. contains s k) (sym same) ∙ h)))
counts-AllCast from i e e' B here (inl more) t (inl (o, all)) = (
  rw more (insert-IsOrdered e.votes from o),
  λ k h. rw t (elim (Bool-cases (from == k)) [
    | inl this ↦ subst (λ j. In (ballot j i (term_of e)) B) (==→eq from k this) here
    | inr other ↦
        all k (ground (arith, other, ap (λ s. contains s k) more, contains-insert e.votes from k))
  ]),
)

-- A win has counted votes that were all cast.
pub new_win :
    {V : List ℕ} {heard : ℕ → Type 0} {asked : ℕ → ℕ → Type 0} (i : ℕ) (e e' : Election)
    (b B : List Ballot) (w W : List Win)
    → NodeIsValid V B W i e
    → Heard heard B i e
    → Move heard asked e e' b w
    → (w ≡ [])
      ⊎ ((w ≡ win e'.cfg.node (term_of e') ∷ [])
          × (has_quorum e' e'.votes ≡ true)
          × AllCast (b ++ B) i e')
new_win i e e' b B w W n h (settles p q r) = inl q
new_win i e e' b B w W n h (stays p q t r v) = inl q
new_win i e e' b B w W n h (tears p q t r l) = inl q
new_win i e e' b B w W n h (votes_for c a p q v r) = inl q
new_win i e e' b B w W n h (campaigns p t v l (inl (r, q))) = inl q
new_win i e e' b B w W n h (campaigns p t v l (inr (q, x))) =
    inr (x, q, rw p (campaigns-AllCast i e e' B n.cfg l))
new_win i e e' b B w W n h (counts f a p r t v (inl (k, q))) = inl q
new_win i e e' b B w W n h (counts f a p r t v (inr (q, x))) =
    inr (x, q, rw p (counts-AllCast f i e e' B (h f a) v t (n.counting r)))

pub new_votes :
    {V : List ℕ} {heard : ℕ → Type 0} {asked : ℕ → ℕ → Type 0} (i : ℕ) (e e' : Election)
    (b B : List Ballot) (w W : List Win)
    → NodeIsValid V B W i e
    → Heard heard B i e
    → Asked asked B
    → ((k t : ℕ) → In (ballot k i t) B → t ≤ term_of e)
    → Move heard asked e e' b w
    → e'.role ≡ candidate
    → IsCounting (b ++ B) i e'
new_votes i e e' b B w W n h g past (settles p q r) c = absurd (cc)
new_votes i e e' b B w W n h g past (stays p q t r v) c =
    rw p (rw t (rw v (n.counting (sym r ∙ c))))
new_votes i e e' b B w W n h g past (tears p q t r l) c =
    rw p (inr (λ k x. omega (arith, t, past k (term_of e') x)))
new_votes i e e' b B w W n h g past (votes_for d a p q v (inl r)) c = absurd (cc)
new_votes i e e' b B w W n h g past (votes_for d a p q v (inr (r, k, t))) c =
    elim (n.counting (sym r ∙ c)) [
      | inl (o, all) ↦ inl (
        rw k o,
        λ j x.
            In-append (ballot j i (term_of e')) b B
              (rw t (all j (ap (λ s. contains s j) (sym k) ∙ x))),
      )
      | inr nowhere ↦
          let own : ¬ In (ballot i i (term_of e')) B = rw t (nowhere i) in
          rw p (
            inr (λ j. elim [
              | inl x ↦ own (
                  subst (λ m. In (ballot m m (term_of e')) B)
                    (sym (ap (λ (y : Ballot). y.candidate) x)) (g d (term_of e') a))
              | inr x ↦ nowhere j (subst (λ u. In (ballot j i u) B) t x)
            ]))
    ]
new_votes i e e' b B w W n h g past (campaigns p t v l x) c =
    rw p (inl (campaigns-AllCast i e e' B n.cfg l))
new_votes i e e' b B w W n h g past (counts f a p r t v x) c =
    rw p (inl (counts-AllCast f i e e' B (h f a) v t (n.counting r)))

abbrev Led : ℕ → Election → List Win → Type 0
Led i e W = is_leader e.role ≡ true → In (win i (term_of e)) W

-- A node that leads has won in its term.
pub new_leader :
    {V : List ℕ} {heard : ℕ → Type 0} {asked : ℕ → ℕ → Type 0} (i : ℕ) (e e' : Election)
    (b B : List Ballot) (w W : List Win)
    → NodeIsValid V B W i e
    → e'.cfg ≡ e.cfg
    → Move heard asked e e' b w
    → is_leader e'.role ≡ true
    → In (win i (term_of e')) (w ++ W)
new_leader i e e' b B w W n f (settles p q r) l = absurd (ground (arith, r))
new_leader i e e' b B w W n f (stays p q t r v) l =
    rw q (rw t (n.leading (ap is_leader (sym r) ∙ l)))
new_leader i e e' b B w W n f (tears p q t r k) l = absurd (ground (arith, r, k))
new_leader i e e' b B w W n f (votes_for c a p q v (inl r)) l = absurd (ground (arith, r))
new_leader i e e' b B w W n f (votes_for c a p q v (inr (r, k, t))) l =
    rw q (rw t (n.leading (ap is_leader (sym r) ∙ l)))
new_leader i e e' b B w W n f (campaigns p t v k (inl (r, q))) l = absurd (ground (arith, r))
new_leader i e e' b B w W n f (campaigns p t v k (inr (q, x))) l =
    rw x (inl (ap (λ j. win j (term_of e')) (sym (ap (λ g. g.node) f ∙ n.cfg))))
new_leader i e e' b B w W n f (counts g a p r t v (inl (k, q))) l = absurd (ground (arith, k))
new_leader i e e' b B w W n f (counts g a p r t v (inr (q, x))) l =
    rw x (inl (ap (λ j. win j (term_of e')) (sym (ap (λ g. g.node) f ∙ n.cfg))))
