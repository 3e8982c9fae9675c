-- ===== src/Examples/Values.antt =====
-- One value of each type that internal/store/replicated_store.go writes.
use selfcloud.Base.{true, false, none, some, [], ◌∷◌}
use selfcloud.Store.Types.{
  new_meta, no_status, Function, wasm, Bucket, AccessKey, Secret, EventRule, WebhookAction,
}

abbrev pub hello : Function
hello = record {
  meta = new_meta "" "hello";
  runtime = wasm;
  handler = "handle";
  source_ref = "";
  source = record { source_type = "upload"; git = none };
  triggers = [];
  env = [];
  secret_mounts = [];
  memory_mb = 64;
  timeout_ms = 1_000;
  latest_build = "";
  status = no_status;
}

abbrev pub photos : Bucket
photos = record {
  meta = new_meta "" "photos";
  region = "local";
  versioning = false;
  website_access = false;
  garage_id = "";
  size_bytes = 0;
  status = no_status;
}

abbrev pub reader : AccessKey
reader = record {
  meta = new_meta "" "reader";
  bucket_name = "photos";
  access_key_id = "GK1";
  secret_access_key = "s1";
  permissions = "read";
}

abbrev pub password : Secret
password = record {
  meta = new_meta "" "password";
  description = "";
  key_id = "v1";
  nonce = 1 ∷ [];
  ciphertext = 2 ∷ [];
  version = 1;
}

abbrev pub hook : WebhookAction
hook = record { url = "http://hook"; method = ""; headers = []; secret = "k" }

abbrev pub on_crash : EventRule
on_crash = record {
  meta = new_meta "" "on-crash";
  description = "";
  matching = record { types = "container.crash" ∷ []; subject = ""; filter = [] };
  action = record { webhook = some hook; invoke = none; container = none };
  enabled = true;
  last_fired_at = 0;
  fire_count = 0;
}
