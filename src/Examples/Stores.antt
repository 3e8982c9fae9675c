-- ===== src/Examples/Stores.antt =====
-- A store with one subscriber and a container, and the theorems about internal/store there.
use selfcloud.Base.{◌≡◌, refl, Option, none, [], ◌∷◌, Error, ok}
use selfcloud.Store.Types.{
  new_meta, no_status, Container, ContainerStatus, restart_always, kind_container,
}
use selfcloud.Store.Deps.{container_scoped}
use selfcloud.Store.Core.{Store, root_buckets, key_for, get, list, put_raw, del}
use selfcloud.Store.Scoped.{Mint, put_scoped}
use selfcloud.Store.RoundTrip.{minted, get-put_scoped}
use selfcloud.Examples.Memory.{memory}

abbrev pub no_container_status : ContainerStatus
no_container_status = record {
  status = no_status;
  containerd_id = "";
  started_at = 0;
  exit_code = 0;
  ip_address = "";
  image = "";
}

abbrev pub web : Container
web = record {
  meta = new_meta "" "web";
  image = "nginx:alpine";
  command = [];
  args = [];
  env = [];
  ports = [];
  volumes = [];
  secret_mounts = [];
  restart_policy = restart_always;
  resources = record { cpu_millicores = 0; memory_mb = 0 };
  node_id = "";
  status = no_container_status;
}

abbrev pub opened : Store memory
opened = record { db = record { names = root_buckets; rows = λ b. [] }; subs = [] ∷ [] }

abbrev pub first_mint : Mint
first_mint = record { uid = "u1"; created = 100; updated = 101 }

-- the store after `PutContainer(web)`, and the value that the caller then holds
abbrev pub put_web : Store memory × Container × Option Error
put_web =
    put_scoped opened container_scoped (memory.container_json) "containers" kind_container
      first_mint web

pub put_web_ok : put_web ≡ (put_web.0, put_web.1, none)
unfolding put_scoped selfcloud.Store.Core.put
put_web_ok = refl

get-put_scoped_example :
    (put_web.1 ≡ minted container_scoped first_mint web)
    × (get put_web.0 memory.container_json "containers"
          (key_for put_web.1.meta.project put_web.1.meta.name)
        ≡ ok put_web.1)
get-put_scoped_example =
    get-put_scoped container_scoped memory.container_json opened put_web.0 "containers"
      kind_container first_mint web put_web.1 put_web_ok refl
