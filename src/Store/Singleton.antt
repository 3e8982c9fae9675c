-- ===== src/Store/Singleton.antt =====
-- The cluster configuration of internal/store/store.go: `PutCluster` against `GetCluster`.
use selfcloud.Base.{◌≡◌, ◌∙◌, ap, none, some, arith, Error, ok}
use selfcloud.Store.Types.{Time, ClusterConfig}
use selfcloud.Store.Deps.{Deps}
use selfcloud.Store.Core.{Store}
use selfcloud.Store.Typed.{get_cluster, put_cluster, stamp_cluster, or_default}
use selfcloud.Store.Writes.{get-put, get_of_same_db}
use selfcloud.Store.RoundTrip.{db-emit, written_ok}

module _ {d : Deps} (s s' : Store d) (now : Time) (c : ClusterConfig) where
  -- When `PutCluster` succeeds and the database can be read, `GetCluster` returns what was put,
  -- with its times.
  pub get_cluster-put_cluster :
      (put_cluster s now c).0 ≡ s'
      → (put_cluster s now c).2 ≡ none
      → d.bolt.begin_error s'.db ≡ none
      → get_cluster s' ≡ ok (stamp_cluster now c)
  unfolding put_cluster get_cluster
  get_cluster-put_cluster moved_to done opens =
      let w = put_cluster s now c in
      let (t, p, e, same) = written_ok s s' _ w.1 _ _ (λ i. (moved_to i, w.1, done i)) in
      let moved : s'.db ≡ t.db = db-emit s' t _ e in
      ap or_default (
        get_of_same_db s' t d.cluster_json _ _ moved
        ∙ get-put s t d.cluster_json "cluster" "config" _ p (rw (← moved) opens))

  pub put_cluster_error :
      (e : Error) → (put_cluster s now c).2 ≡ some e → (put_cluster s now c).0 ≡ s
  unfolding put_cluster
  put_cluster_error e h = ground arith
