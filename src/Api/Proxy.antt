-- ===== src/Api/Proxy.antt =====
-- internal/api/cluster.go: the events of the S3 proxy. The proxy itself is net/http/httputil.
use selfcloud.Base.{
  ℕ, String, ◌<>◌, Bool, ◌&&◌, Option, none, some, List, [], ◌∷◌, str_eq, ltb, leb, ◌||◌,
  if◌then◌else◌,
}
use selfcloud.Store.Types.{EventRecord}
use selfcloud.Store.Deps.{Deps}
use selfcloud.Store.Core.{Store}
use selfcloud.Secrets.Manager.{strip_prefix, split_at_slash}
use selfcloud.Api.Triggers.{trim_prefix}
use selfcloud.Api.Cluster.{bucket_project}

unfoldable pub bucket_and_key : String → Option (String × String) → String × String
bucket_and_key whole none = (whole, "")
bucket_and_key whole (some parts) = parts

-- `splitS3Path`
unfoldable pub split_s3_path : String → String × String
unfolding trim_prefix bucket_and_key
split_s3_path p =
    let rest = trim_prefix p (strip_prefix p "/") in bucket_and_key rest (split_at_slash rest)

-- `strings.TrimPrefix(path, "/s3")`, and "/" for nothing
unfoldable pub proxied_path : String → String
unfolding trim_prefix
proxied_path path =
    let rest = trim_prefix path (strip_prefix path "/s3") in if str_eq rest "" then "/" else rest

unfoldable pub s3_event_type : String → String
s3_event_type verb =
    if str_eq verb "PUT" || str_eq verb "POST"
    then "s3.put"
    else if str_eq verb "DELETE"
    then "s3.delete"
    else ""

module _ {d : Deps} where
  unfoldable pub s3_event : Store d → String → String → String → String → EventRecord
  s3_event s event_type verb bucket key = record {
    uid = "";
    event_type = event_type;
    project = bucket_project s bucket;
    subject = (bucket <> "/") <> key;
    at = 0;
    fields = ("bucket", bucket) ∷ ("key", key) ∷ ("method", verb) ∷ [];
    body = [];
  }

  unfoldable pub s3_object_events : Store d → String → String × String → List EventRecord
  unfolding s3_event s3_event_type
  s3_object_events s verb (bucket, key) =
      if str_eq bucket "" || str_eq key "" || str_eq (s3_event_type verb) ""
      then []
      else s3_event s (s3_event_type verb) verb bucket key ∷ []

  -- what `handleS3Proxy` emits after the proxy has replied with a status
  unfoldable pub s3_events : Store d → Bool → String → String → ℕ → List EventRecord
  unfolding s3_object_events split_s3_path proxied_path
  s3_events s has_bus verb path status =
      if has_bus && leb 200 status && ltb status 300
      then s3_object_events s verb (split_s3_path (proxied_path path))
      else []
