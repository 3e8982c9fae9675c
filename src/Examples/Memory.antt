-- ===== src/Examples/Memory.antt =====
-- A database in memory that meets the laws of Store/Bolt.antt, and codecs that meet those of
-- encoding/json: the concrete parameters of the examples.
use selfcloud.Base.{
  String, ◌≡◌, refl, sym, ap, ◌∙◌, ◌&&◌, ◌||◌, Option, none, some, List, [], ◌∷◌, any_of, lookup,
  remove, lookup-remove, arith, Result, ok, str_eq, str_eq_iff, Bool-cases, inl, inr, if◌then◌else◌,
}
use selfcloud.Base.Text.{key_ltb}
use selfcloud.Store.Ordered.{insert_sorted, lookup-insert_sorted, insert_sorted-Ascending}
use selfcloud.Store.Bolt.{Bolt, Ascending, skip_below}
use selfcloud.Store.Deps.{Deps}
use selfcloud.Examples.Documents.{
  Document, project_document, node_document, cluster_document, container_document,
  function_document, build_document, secret_document, bucket_document, access_key_document,
  user_document, token_document, event_rule_document, event_record_document, delivery_document,
  log_document, null_document, plain_codec, read_project, read_node, read_cluster, read_container,
  read_function, read_build, read_secret, read_bucket, read_access_key, read_user, read_token,
  read_event_rule, read_event_record, read_delivery, read_log,
}

module _ {V : Type 0} where
  unfoldable pub sort_entries : List (String × V) → List (String × V)
  unfolding insert_sorted
  sort_entries [] = []
  sort_entries ((k, v) ∷ m) = insert_sorted k v (sort_entries m)

  pub lookup-sort_entries :
      (j : String) (m : List (String × V)) → lookup j (sort_entries m) ≡ lookup j m
  unfolding sort_entries
  lookup-sort_entries j [] = refl
  lookup-sort_entries j ((k, v) ∷ m) =
      lookup-insert_sorted k j v (sort_entries m)
      ∙ ap (λ r. if str_eq k j then some v else r) (lookup-sort_entries j m)

  pub sort_entries-Ascending : (m : List (String × V)) → Ascending (sort_entries m)
  unfolding sort_entries
  sort_entries-Ascending [] = tt
  sort_entries-Ascending ((k, v) ∷ m) =
      insert_sorted-Ascending k v (sort_entries m) (sort_entries-Ascending m)

pub record MemoryDb (V : Type 0) : Type 0 where
  pub names : List String
  pub rows : String → List (String × V)

module _ {V : Type 0} where
  abbrev pub set_rows : MemoryDb V → String → List (String × V) → MemoryDb V
  set_rows db b m = record db { rows = λ c. if str_eq b c then m else db.rows c }

  abbrev pub memory_put : MemoryDb V → String → String → V → Result (MemoryDb V)
  memory_put db b k v = ok (set_rows db b ((k, v) ∷ db.rows b))

  abbrev pub memory_delete : MemoryDb V → String → String → Result (MemoryDb V)
  memory_delete db b k = ok (set_rows db b (remove k (db.rows b)))

  pub memory_get-put :
      (db db' : MemoryDb V) (b k : String) (v : V)
      → memory_put db b k v ≡ ok db'
      → (c j : String)
      → lookup j (db'.rows c) ≡ (if str_eq b c && str_eq k j then some v else lookup j (db.rows c))
  memory_get-put db db' b k v h c j =
      let e : db'.rows c ≡ (if str_eq b c then (k, v) ∷ db.rows b else db.rows c) = ground arith in
      rw e (elim (Bool-cases (str_eq b c)) [
        | inl x ↦ rw (x, (str_eq_iff b c).0 x) refl
        | inr x ↦ rw x refl
      ])

  pub memory_get-delete :
      (db db' : MemoryDb V) (b k : String)
      → memory_delete db b k ≡ ok db'
      → (c j : String)
      → lookup j (db'.rows c) ≡ (if str_eq b c && str_eq k j then none else lookup j (db.rows c))
  memory_get-delete db db' b k h c j =
      let e : db'.rows c ≡ (if str_eq b c then remove k (db.rows b) else db.rows c) =
        ground arith in
      rw e (elim (Bool-cases (str_eq b c)) [
        | inl x ↦ rw (x, (str_eq_iff b c).0 x) (lookup-remove k j (db.rows c))
        | inr x ↦ rw x refl
      ])

  -- the names of the buckets after a write
  pub has-set_rows :
      (db db' : MemoryDb V) (b : String) (m : List (String × V))
      → ok (set_rows db b m) ≡ ok db'
      → (c : String) → any_of (λ x. str_eq x c) db'.names ≡ any_of (λ x. str_eq x c) db.names
  has-set_rows db db' b m h c = let e : db'.names ≡ db.names = ground arith in rw e

  abbrev pub memory_create : MemoryDb V → String → Result (MemoryDb V)
  memory_create db b = ok (record db { names = b ∷ db.names })

  pub rows-create :
      (db db' : MemoryDb V) (b : String)
      → memory_create db b ≡ ok db'
      → (c j : String) → lookup j (db'.rows c) ≡ lookup j (db.rows c)
  rows-create db db' b h c j = let e : db'.rows c ≡ db.rows c = ground arith in rw e

  pub has-create :
      (db db' : MemoryDb V) (b : String)
      → memory_create db b ≡ ok db'
      → (c : String)
      → any_of (λ x. str_eq x c) db'.names ≡ (str_eq b c || any_of (λ x. str_eq x c) db.names)
  has-create db db' b h c = let e : db'.names ≡ b ∷ db.names = ground arith in rw e (ground arith)

-- the first key after another
abbrev pub key_after : {V : Type 0} → String → List (String × V) → Option String
key_after k [] = none
key_after k ((j, v) ∷ m) = let rest = key_after k m in if key_ltb k j then some j else rest

abbrev pub memory_bolt : (V : Type 0) → Bolt V
memory_bolt V = record {
  Db = MemoryDb V;
  begin_error = λ db. none;
  commit_error = λ db. none;
  has_bucket = λ db b. any_of (λ x. str_eq x b) db.names;
  get = λ db b k. lookup k (db.rows b);
  entries = λ db b. sort_entries (db.rows b);
  seek = λ db b p. skip_below p (sort_entries (db.rows b));
  next_after_delete = λ start db b k. key_after k (sort_entries (db.rows b));
  put = memory_put;
  delete = memory_delete;
  create_bucket_if_not_exists = memory_create;
  get-put = memory_get-put;
  has_bucket-put = λ db db' b k v. has-set_rows db db' b ((k, v) ∷ db.rows b);
  get-delete = memory_get-delete;
  has_bucket-delete = λ db db' b k. has-set_rows db db' b (remove k (db.rows b));
  get-create = rows-create;
  has_bucket-create = has-create;
  entries-Ascending = λ db b. sort_entries-Ascending (db.rows b);
  get-entries = λ db b k. sym (lookup-sort_entries k (db.rows b));
  seek-entries = λ db b p. refl;
}

-- The concrete parameters.
abbrev pub memory : Deps
memory = record {
  Raw = Document;
  bolt = memory_bolt Document;
  compact = ok;
  project_json = plain_codec project_document read_project (λ a. refl);
  node_json = plain_codec node_document read_node (λ a. refl);
  cluster_json = plain_codec cluster_document read_cluster (λ a. refl);
  container_json = plain_codec container_document read_container (λ a. refl);
  function_json = plain_codec function_document read_function (λ a. refl);
  build_json = plain_codec build_document read_build (λ a. refl);
  secret_json = plain_codec secret_document read_secret (λ a. refl);
  bucket_json = plain_codec bucket_document read_bucket (λ a. refl);
  access_key_json = plain_codec access_key_document read_access_key (λ a. refl);
  user_json = plain_codec user_document read_user (λ a. refl);
  token_json = plain_codec token_document read_token (λ a. refl);
  event_rule_json = plain_codec event_rule_document read_event_rule (λ a. refl);
  event_record_json = plain_codec event_record_document read_event_record (λ a. refl);
  delivery_json = plain_codec delivery_document read_delivery (λ a. refl);
  log_json =
      plain_codec (λ l. log_document l.op l.bucket l.kind l.project l.name l.key l.value) read_log
        (λ a. refl);
  no_value = null_document;
}
