-- ===== src/Tests/Stores.antt =====
-- One voter's catalog store, and a store of join tokens.
use shardlite.Cluster.Store.Starts.{IsKept, version_of, IsBackedNode}
use shardlite.Shard.Routing.{active_shards, shard_count, base}
use shardlite.Common.Text.{same_text}
use shardlite.Cluster.Catalog.{bad_token, ok, err, check, validate_policy, CatalogProposal}
use shardlite.Common.{ℕ, ◌≤◌, ◌≡◌, refl, true, false, none, some, List, [], ◌∷◌}
use shardlite.Common.OrdMap.{get}
use shardlite.Cluster.Catalog.Validation.{
  validate, check_members, any_voter, check_full, check_placements, check_placement, check_replicas,
  check_operations,
}
use native.Mathlib.Decide.{ℕ_discrete}
use shardlite.Cluster.Store.{
  open_catalog, same_proposal, same_catalog, commit_prepared, stored, unsynced, CatalogStore,
  create, prepare, validate_proposal, commit_prepared,
}
use shardlite.Cluster.Store.Votes.{
  prepare_call, commit_call, restart, run, call, StoreCall, running, stopped,
}
use shardlite.Cluster.Store.Promises.{prepared_value-IsKept, versions_rise}
use shardlite.Cluster.Control.Tokens.{JoinTokenStore, consume, find_token, hex}
use shardlite.Cluster.Control.Tokens.Once.{
  issue_call, restart_tokens, run_tokens, consume_once, single, absent,
}
use shardlite.Tests.Catalogs.{two_nodes}

abbrev second : CatalogProposal
second = record { term = 4; expected_version = 1; catalog = record two_nodes { version = 2 } }

abbrev fresh : CatalogStore
fresh = record {
  current = two_nodes;
  prepared_proposal = none;
  file = two_nodes;
  prepared_file = none;
}

creates : (create false stored two_nodes).1 ≡ ok fresh
unfolding create validate check_members any_voter check_full check_placements check_placement
    check_replicas check_operations validate_policy get active_shards shard_count base
creates = refl

prepares : (prepare stored second fresh).1 ≡ ok tt
unfolding prepare validate_proposal check validate check_members any_voter check_full
    check_placements check_placement check_replicas check_operations validate_policy get
    active_shards shard_count base same_text
prepares = refl

runs : run [] (running fresh) ≡ running fresh
unfolding run
runs = refl

-- The commit reaches the file alone, and two starts find its marker: one fails after removing it.
abbrev troubles : List StoreCall
troubles = restart stored ∷ commit_call unsynced stored 4 2 ∷ restart unsynced ∷ restart stored ∷ []

prepared_value-IsKept_example :
    IsKept second (run troubles (running (prepare stored second fresh).0))
prepared_value-IsKept_example =
    prepared_value-IsKept false stored stored two_nodes fresh fresh second [] troubles creates tt
      (tt, (tt, (tt, (tt, tt)))) runs prepares

versions_rise_example :
    (version_of (run (prepare_call unsynced second ∷ []) (running fresh))
      ≤ version_of (
          call
            (commit_call stored unsynced 4 2)
            (run (prepare_call unsynced second ∷ []) (running fresh))))
    × IsBackedNode (
        call
          (commit_call stored unsynced 4 2)
          (run (prepare_call unsynced second ∷ []) (running fresh)))
versions_rise_example =
    versions_rise false stored two_nodes fresh (prepare_call unsynced second ∷ [])
      (commit_call stored unsynced 4 2) creates (tt, tt) (tt, tt)

abbrev third : CatalogProposal
third = record {
  term = 5;
  expected_version = 1;
  catalog = record two_nodes { version = 2; next_operation_id = 9 };
}

-- The commit reaches the file alone, another value is prepared in a higher term, and the voter does
-- not start any more.
abbrev divergence : List StoreCall
divergence =
    prepare_call stored second
    ∷ commit_call unsynced stored 4 2
    ∷ prepare_call stored third
    ∷ restart stored
    ∷ []

start_refused : run divergence (running fresh) ≡ stopped second.catalog (some third)
unfolding run prepare commit_prepared open_catalog validate validate_proposal same_text check
    active_shards validate_policy check_placement get same_proposal ℕ_discrete same_catalog
start_refused = refl

-- The hash of a text is the text.
abbrev plain : List ℕ → List ℕ
plain text = text

abbrev token : List ℕ
token = 52 ∷ 49 ∷ []

abbrev one_token : JoinTokenStore
one_token = record {
  state = record { hash = token; expires_at = 100; used = false } ∷ [];
  durable = true;
  file = none;
}

held_once : single (plain token) one_token.state ≡ true
unfolding single absent same_text
held_once = refl

accepts : (consume plain 50 true token one_token).1 ≡ ok tt
unfolding consume find_token same_text
accepts = refl

other_hash : same_text (plain (hex (67 ∷ []))) token ≡ false
unfolding hex same_text
other_hash = refl

consume_once_example :
    (consume plain 60 true token (
      run_tokens plain
        (restart_tokens ∷ issue_call (some (67 ∷ [])) 55 60 true ∷ [])
        (consume plain 50 true token one_token).0)).1
    ≡ err bad_token
consume_once_example =
    consume_once plain token 50 60 true true
      (restart_tokens ∷ issue_call (some (67 ∷ [])) 55 60 true ∷ []) one_token held_once accepts
      (other_hash, tt)
