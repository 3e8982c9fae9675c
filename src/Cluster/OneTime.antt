-- ===== src/Cluster/OneTime.antt =====
-- The join tokens of internal/cluster/cluster.go admit one node each.
use selfcloud.Base.{
  String, ◌≡◌, ◌≢◌, refl, none, some, List, [], ◌∷◌, arith, token_used, Result, ok, err, str_eq,
  str_eq_iff, Bool-cases, Result-cases, inl, inr,
}
use selfcloud.Store.Types.{Time, JoinToken, ClusterConfig}
use selfcloud.Store.Deps.{Deps}
use selfcloud.Store.Core.{Store}
use selfcloud.Store.Typed.{get_cluster, put_cluster, stamp_cluster}
use selfcloud.Store.Singleton.{get_cluster-put_cluster}
use selfcloud.Cluster.Tokens.{mark, consume_marked, consume_with, consume}

-- a list in which a token was marked refuses the token from then on
mark_again :
    (hash by by' : String) (now later : Time) (ts us : List JoinToken)
    → by ≢ ""
    → mark hash by now ts ≡ ok us
    → mark hash by' later us ≡ err token_used
unfolding mark
mark_again hash by by' now later [] us named h = cc
mark_again hash by by' now later (t ∷ ts) us named h = elim (Bool-cases (str_eq t.hash_hex hash)) [
  | inl hit ↦
      let marked : us ≡ record t { consumed_by = by } ∷ ts = ground arith in
      rw (marked, hit) (ground (arith, str_eq_iff by ""))
  | inr miss ↦ elim (Result-cases (mark hash by now ts)) [
    | inl (vs, e) ↦
        let moved : us ≡ t ∷ vs = ground arith in
        rw (moved, miss, mark_again hash by by' now later ts vs named e)
    | inr (x, e) ↦ absurd (ground arith)
  ]
]

module _ {d : Deps} (hash : String → String) (s s' : Store d) (now : Time) (plain by : String) where
  marked_ok :
      (cfg : ClusterConfig) (r : Result (List JoinToken))
      → consume_marked s now cfg r ≡ (s', none)
      → (ts : List JoinToken) × (r ≡ ok ts)
        × ((put_cluster s now (record cfg { join_tokens = ts })).0 ≡ s')
        × ((put_cluster s now (record cfg { join_tokens = ts })).2 ≡ none)
  unfolding consume_marked
  marked_ok cfg (err e) h = absurd (ground arith)
  marked_ok cfg (ok ts) h = (ts, refl, ground arith, ground arith)

  consumed_tokens :
      (r : Result ClusterConfig)
      → consume_with hash s now plain by r ≡ (s', none)
      → d.bolt.begin_error s'.db ≡ none
      → (cfg : ClusterConfig) × (ts : List JoinToken) × (r ≡ ok cfg)
        × (mark (hash plain) by now cfg.join_tokens ≡ ok ts)
        × (get_cluster s' ≡ ok (stamp_cluster now (record cfg { join_tokens = ts })))
  unfolding consume_with
  consumed_tokens (err e) h opens = absurd (ground arith)
  consumed_tokens (ok cfg) h opens =
      let (ts, m, p, q) = marked_ok cfg (mark (hash plain) by now cfg.join_tokens) h in
      (cfg, ts, refl, m, get_cluster-put_cluster s s' now _ p q opens)

  -- A join token that was consumed for a node with a name is refused as used from then on, as long
  -- as the database can be read, whoever presents it and whenever, and the refusal leaves the
  -- store as it is.
  pub join_once :
      consume hash s now plain by ≡ (s', none)
      → d.bolt.begin_error s'.db ≡ none
      → by ≢ ""
      → (later : Time) (other : String) → consume hash s' later plain other ≡ (s', some token_used)
  unfolding consume stamp_cluster
  join_once h opens named later other =
      let (cfg, ts, g, m, g') = consumed_tokens (get_cluster s) h opens in
      rw g' (
        unfold consume_with in
        rw (mark_again (hash plain) by other now later cfg.join_tokens ts named m) refl)
