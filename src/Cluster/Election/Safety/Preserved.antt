-- ===== src/Cluster/Election/Safety/Preserved.antt =====
-- A move of one node keeps the invariant of the cluster.
use shardlite.Common.{
  ℕ, ◌<◌, ◌≤◌, ◌≡◌, ◌⊎◌, ◌==◌, ◌++◌, refl, sym, ap, ◌∙◌, inl, inr, true, some, List, [], ◌∷◌, arith,
  ltb, Bool-cases, ==→eq, ==_refl, subst, ltb→lt, ltb→ge, ==→ne,
}
use shardlite.Cluster.Term.Votes.{Kept}
use shardlite.Cluster.Election.{Election, term_of, has_quorum}
use shardlite.Cluster.Election.Protocol.{Ballot, Win, vote_of, Frame, Move}
use shardlite.Cluster.Election.Quorums.{quorum-current}
use shardlite.Common.Count.{IsMajority}
use shardlite.Cluster.Election.Safety.{System, In, ballot, win, update, after}
use shardlite.Cluster.Election.Safety.Invariant.{NodeIsValid, IsCast, IsBacked, IsValid}
use shardlite.Cluster.Election.Safety.Moves.{
  In-append, Heard, Asked, AllCast, new_ballot, new_win, new_votes, new_leader,
}

-- What the history gains from a move of node `i` to `e'`.
abbrev NewBallots : System → ℕ → Election → List Ballot → Type 0
NewBallots s i e' b =
    (b ≡ [])
    ⊎ ((c : ℕ) × (b ≡ ballot i c (term_of e') ∷ [])
        × (vote_of e' ≡ some c)
        × (((c ≡ i) × (term_of (s.nodes i) < term_of e')) ⊎ In (ballot c c (term_of e')) s.ballots))

update-term_of :
    (s : System) (i j : ℕ) (e' : Election)
    → term_of (s.nodes i) ≤ term_of e'
    → term_of (s.nodes j) ≤ term_of (update s.nodes i e' j)
update-term_of s i j e' h = elim (Bool-cases (i == j)) [
  | inl same ↦ rw same (rw (← ==→eq i j same) h)
  | inr other ↦ rw other (omega arith)
]

update-this : (f : ℕ → Election) (i : ℕ) (e' : Election) → update f i e' i ≡ e'
update-this f i e' = rw (==_refl i) refl

-- A ballot after the move is an old one, or the new one.
In-new :
    (s : System) (i k c t : ℕ) (e' : Election) (b : List Ballot)
    → NewBallots s i e' b
    → In (ballot k c t) (b ++ s.ballots)
    → In (ballot k c t) s.ballots
      ⊎ ((k ≡ i)
          × (t ≡ term_of e')
          × (vote_of e' ≡ some c)
          × (((c ≡ i) × (term_of (s.nodes i) < term_of e')) ⊎ In (ballot c c t) s.ballots))
In-new s i k c t e' b (inl none_new) x =
    inl (subst (λ l. In (ballot k c t) (l ++ s.ballots)) none_new x)
In-new s i k c t e' b (inr (d, p, v, how)) x =
    let y : In (ballot k c t) (ballot i d (term_of e') ∷ s.ballots) =
      subst (λ l. In (ballot k c t) (l ++ s.ballots)) p x in
    elim y [
      | inr old ↦ inl old
      | inl e ↦
          let kk : k ≡ i = ap (λ (z : Ballot). z.voter) e in
          let cc' : c ≡ d = ap (λ (z : Ballot). z.candidate) e in
          let tt' : t ≡ term_of e' = ap (λ (z : Ballot). z.term) e in
          inr (kk, tt', rw cc' v, rw cc' (rw tt' how))
    ]

IsCast-old : (e e' : Election) (c t : ℕ) → Kept e.terms e'.terms → IsCast e c t → IsCast e' c t
IsCast-old e e' c t kept (inl past) = inl (omega (arith, kept.extends.0))
IsCast-old e e' c t kept (inr (now, v)) = elim (Bool-cases (ltb t (term_of e'))) [
  | inl past ↦ inl (ltb→lt t (term_of e') past)
  | inr ge ↦
      let same : term_of e ≡ term_of e' = omega (arith, kept.extends.0, ltb→ge t (term_of e') ge) in
      inr (now ∙ same, kept.extends.1 c same v)
]

not_both :
    (e' : Election) (c d t : ℕ) → IsCast e' c t → t ≡ term_of e' → vote_of e' ≡ some d → c ≡ d
not_both e' c d t (inl past) now v = absurd (omega arith)
not_both e' c d t (inr (_, w)) now v = cc

pub moves-IsValid :
    {V : List ℕ} {heard : ℕ → Type 0} {asked : ℕ → ℕ → Type 0} (s : System) (i : ℕ) (e' : Election)
    (b : List Ballot) (w : List Win)
    → IsValid V s
    → Frame (s.nodes i) e'
    → Heard heard s.ballots i (s.nodes i)
    → Asked asked s.ballots
    → Move heard asked (s.nodes i) e' b w
    → IsValid V (after s i e' b w)
moves-IsValid {V} s i e' b w valid f h g m = record {
  node = λ j. elim (Bool-cases (i == j)) [
    | inl same ↦
        rw same
          (subst (λ n. NodeIsValid V (b ++ s.ballots) (w ++ s.wins) n e') (==→eq i j same) this)
    | inr other ↦ rw other (record {
      cfg = (valid.node j).cfg;
      voters = (valid.node j).voters;
      durable = (valid.node j).durable;
      counting = λ c. elim ((valid.node j).counting c) [
        | inl (o, all) ↦ inl (o, λ k x. In-append _ b s.ballots (all k x))
        | inr nowhere ↦ inr (λ k x. elim (In-new s i k j (term_of (s.nodes j)) e' b new x) [
          | inl old ↦ nowhere k old
          | inr (_, _, _, inl (own, _)) ↦ ==→ne i j other (sym own)
          | inr (_, _, _, inr their) ↦ nowhere j their
        ])
      ];
      leading = λ l. In-append _ w s.wins ((valid.node j).leading l);
    })
  ];
  cast = λ k c t x. elim (In-new s i k c t e' b new x) [
    | inl old ↦ elim (Bool-cases (i == k)) [
      | inl same ↦ rw same (
          IsCast-old (s.nodes i) e' c t f.terms
            (subst (λ n. IsCast (s.nodes n) c t) (sym (==→eq i k same)) (valid.cast k c t old)))
      | inr other ↦ rw other (valid.cast k c t old)
    ]
    | inr (kk, now, v, _) ↦
        subst (λ n. IsCast (update s.nodes i e' n) c t) (sym kk) (rw (==_refl i) (inr (now, v)))
  ];
  asked = λ k c t x. elim (In-new s i k c t e' b new x) [
    | inl old ↦ omega (arith, valid.asked k c t old, update-term_of s i c e' grows)
    | inr (_, now, _, inl (own, _)) ↦
        subst (λ n. t ≤ term_of (update s.nodes i e' n)) (sym own) (rw (==_refl i) (omega arith))
    | inr (_, now, _, inr their) ↦
        omega (arith, valid.asked c c t their, update-term_of s i c e' grows)
  ];
  once = λ k c d t x y. elim (In-new s i k c t e' b new x) [
    | inl old ↦ elim (In-new s i k d t e' b new y) [
      | inl old' ↦ valid.once k c d t old old'
      | inr (kk, now, v, _) ↦
          not_both e' c d t (still c t (subst (λ n. In (ballot n c t) s.ballots) kk old)) now v
    ]
    | inr (kk, now, v, _) ↦ elim (In-new s i k d t e' b new y) [
      | inl old' ↦
          sym
            (not_both e' d c t (still d t (subst (λ n. In (ballot n d t) s.ballots) kk old')) now v)
      | inr (_, _, u, _) ↦ cc
    ]
  ];
  backed = λ n t x. won n t (new_win i (s.nodes i) e' b s.ballots w s.wins me h m) x;
}
  where
    me : NodeIsValid V s.ballots s.wins i (s.nodes i)
    me = valid.node i

    grows : term_of (s.nodes i) ≤ term_of e'
    grows = f.terms.extends.0

    new : NewBallots s i e' b
    new =
        subst
          (λ n.
            (b ≡ [])
            ⊎ ((c : ℕ) × (b ≡ ballot n c (term_of e') ∷ [])
                × (vote_of e' ≡ some c)
                × (((c ≡ n) × (term_of (s.nodes i) < term_of e'))
                    ⊎ In (ballot c c (term_of e')) s.ballots)))
          me.cfg (new_ballot (s.nodes i) e' b s.ballots w g m)

    still : (c t : ℕ) → In (ballot i c t) s.ballots → IsCast e' c t
    still c t x = IsCast-old (s.nodes i) e' c t f.terms (valid.cast i c t x)

    this : NodeIsValid V (b ++ s.ballots) (w ++ s.wins) i e'
    this = record {
      cfg = ap (λ c. c.node) f.cfg ∙ me.cfg;
      voters = f.current ∙ me.voters;
      durable = f.terms.durable me.durable;
      counting = λ c.
          new_votes i (s.nodes i) e' b s.ballots w s.wins me h g (λ k t x. valid.asked k i t x) m c;
      leading = λ l. new_leader i (s.nodes i) e' b s.ballots w s.wins me f.cfg m l;
    }

    won :
        (n t : ℕ)
        → ((w ≡ [])
            ⊎ ((w ≡ win e'.cfg.node (term_of e') ∷ [])
                × (has_quorum e' e'.votes ≡ true)
                × AllCast (b ++ s.ballots) i e'))
        → In (win n t) (w ++ s.wins)
        → IsBacked V (b ++ s.ballots) n t
    won n t (inl same) x =
        let (q, o, many, all) = valid.backed n t (subst (λ l. In (win n t) (l ++ s.wins)) same x) in
        (q, o, many, λ k y. In-append _ b s.ballots (all k y))
    won n t (inr (more, q, (o, all))) x =
        let y : In (win n t) (win e'.cfg.node (term_of e') ∷ s.wins) =
          subst (λ l. In (win n t) (l ++ s.wins)) more x in
        elim y [
          | inl eq ↦
              let nn : n ≡ i = ap (λ (z : Win). z.winner) eq ∙ this.cfg in
              let tt' : t ≡ term_of e' = ap (λ (z : Win). z.term) eq in
              rw nn (
                rw tt' (
                  e'.votes,
                  o,
                  subst (λ v. IsMajority v e'.votes) this.voters (quorum-current e' e'.votes q),
                  all,
                ))
          | inr old ↦
              let (u, o', many, all') = valid.backed n t old in
              (u, o', many, λ k z. In-append _ b s.ballots (all' k z))
        ]
