-- ===== src/Cluster/Store/Backed.antt =====
-- src/cluster/catalog.rs: the files of a catalog store do not fall behind its memory, and every change of
-- the store keeps what is prepared.
use shardlite.Cluster.Catalog.{Catalog, CatalogProposal}
use shardlite.Cluster.Catalog.Operations.{saturating_succ}
use shardlite.Common.{◌≤◌, ◌≡◌, refl, inl, inr, Option, some, arith, ◌∙◌}
use shardlite.Cluster.Store.{CatalogStore}
use shardlite.Cluster.Store.Votes.{
  Promised, passed, standing, Change, same, wrote, prepares, commits, drops, half_commits,
}

-- A prepared value is of the committed version or of the next one.
abbrev pub Fits : CatalogStore → Type 0
Fits s =
    (q : CatalogProposal)
    → s.prepared_proposal ≡ some q
    → (s.current.version ≤ q.catalog.version)
      × (q.catalog.version ≤ saturating_succ s.current.version)

-- The files do not fall behind the memory: they have its version, or one after it, and they hold to
-- what is prepared in memory.
pub record IsBacked (s : CatalogStore) : Type 0 where
  pub ahead : s.current.version ≤ s.file.version
  pub backed :
      (q : CatalogProposal) → s.prepared_proposal ≡ some q → Promised q s.file s.prepared_file

module _ (s s' : CatalogStore) (b : IsBacked s) (f : Fits s) where
  pub Change-IsBacked : Change s s' → IsBacked s'
  Change-IsBacked (same e) = rw e b
  Change-IsBacked (wrote d free free' le file current) = record {
    ahead = ground arith;
    backed = λ q h. absurd (ground arith);
  }
  Change-IsBacked (prepares r v above c g pf (inl now)) = record {
    ahead = ground (arith, b.ahead);
    backed = λ q h. standing r pf (ground arith) (ground arith) (λ _. ground arith);
  }
  Change-IsBacked (prepares r v above c g pf (inr still)) = record {
    ahead = ground (arith, b.ahead);
    backed = λ q h.
        let held : s.prepared_proposal ≡ some q = ground arith in
        standing r pf (ground (arith, f q held)) (omega (arith, above q held))
          (λ e. absurd (omega (arith, above q held, e)));
  }
  Change-IsBacked (commits r held file current left) = record {
    ahead = ground arith;
    backed = λ q h. passed (ground arith);
  }
  Change-IsBacked (drops r held le file current left) = record {
    ahead = ground (arith, b.ahead);
    backed = λ q h. passed (ground (arith, b.ahead));
  }
  Change-IsBacked (half_commits r held e) = record {
    ahead = ground (arith, f r held);
    backed = λ q h. passed (ground arith);
  }

  pub Change-Fits : Change s s' → Fits s'
  Change-Fits (same e) q h = ground (arith, f q)
  Change-Fits (wrote d free free' le file current) q h = absurd (ground arith)
  Change-Fits (prepares r v above c g pf (inl now)) q h = ground arith
  Change-Fits (prepares r v above c g pf (inr still)) q h = ground (arith, f q)
  Change-Fits (commits r held file current left) q h = ground (arith, f r held)
  Change-Fits (drops r held le file current left) q h = ground (arith, f r held)
  Change-Fits (half_commits r held e) q h = ground (arith, f q)

  pub Change-version : Change s s' → s.current.version ≤ s'.current.version
  Change-version (same e) = ground arith
  Change-version (wrote d free free' le file current) = ground arith
  Change-version (prepares r v above c g pf now) = ground arith
  Change-version (commits r held file current left) = ground (arith, f r held)
  Change-version (drops r held le file current left) = ground arith
  Change-version (half_commits r held e) = ground arith

  -- What is prepared is still promised after a change.
  pub Change-held :
      (q : CatalogProposal)
      → s.prepared_proposal ≡ some q
      → Change s s'
      → Promised q s'.current s'.prepared_proposal
  Change-held q h (same e) = standing q (ground arith) (omega arith) (omega arith) (λ _. refl)
  Change-held q h (wrote d free free' le file current) = absurd (ground arith)
  Change-held q h (prepares r v above c g pf (inl now)) =
      standing r now (ground (arith, f q h)) (omega (arith, above q h))
        (λ e. absurd (omega (arith, above q h, e)))
  Change-held q h (prepares r v above c g pf (inr still)) =
      standing q (ground arith) (omega arith) (omega arith) (λ _. refl)
  Change-held q h (commits r held file current left) = passed (ground arith)
  Change-held q h (drops r held le file current left) = passed (ground arith)
  Change-held q h (half_commits r held e) =
      standing q (ground arith) (omega arith) (omega arith) (λ _. refl)

-- A promise goes through a change of the values that keeps what is prepared promised.
pub Promised-through :
    (p : CatalogProposal) (c c' : Catalog) (r r' : Option CatalogProposal)
    → Promised p c r
    → c.version ≤ c'.version
    → ((q : CatalogProposal) → r ≡ some q → Promised q c' r')
    → Promised p c' r'
Promised-through p c c' r r' (passed v) le keep = passed (omega (arith, v, le))
Promised-through p c c' r r' (standing q h v t e) le keep = then_kept (keep q h)
  where
    then_kept : Promised q c' r' → Promised p c' r'
    then_kept (passed v') = passed (omega (arith, v, v'))
    then_kept (standing q' h' v' t' e') =
        standing q' h' (omega (arith, v, v')) (omega (arith, t, t'))
          (λ same_term. e (omega (arith, t, t', same_term)) ∙ e' (omega (arith, t, t', same_term)))
