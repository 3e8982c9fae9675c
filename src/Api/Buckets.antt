-- ===== src/Api/Buckets.antt =====
-- internal/api/handlers.go: buckets and access keys. The admin client of the object store answers
-- what it is called with; its calls are recorded in their order.
use selfcloud.Base.{
  String, ◌<>◌, Bool, not, ◌||◌, Option, none, some, List, [], ◌∷◌, str_eq, Error, Result, ok, err,
  if◌then◌else◌,
}
use selfcloud.Store.Types.{Time, phase_running, no_status, new_meta, Bucket, AccessKey}
use selfcloud.Store.Deps.{Deps}
use selfcloud.Store.Core.{Store}
use selfcloud.Store.Scoped.{Mint}
use selfcloud.Store.Typed.{
  put_bucket, get_bucket, delete_bucket, put_access_key, get_access_key, delete_access_key,
}
use selfcloud.Api.Reply.{failed, store_error, write_reply, delete_reply, Calling}

-- `garage.AdminClient`, as the handlers use it: what creates a bucket, and a key with its secret
pub record GarageAdmin : Type 0 where
  pub create_bucket : String → Result String
  pub create_key : String → Result (String × String)

pub data GarageCall : Type 0 where
  creating_bucket deleting_bucket creating_key deleting_key : String → GarageCall
  -- the key, the bucket, and the permissions to read, to write and to own
  allowing : String → String → Bool → Bool → Bool → GarageCall

-- what a handler has; `last_twelve` is `raw[len(raw)-12:]` of the token that is generated
pub record BucketCall : Type 0 where
  pub texts : Error → String
  pub garage : Option GarageAdmin
  pub generated : String
  pub last_twelve : String
  pub mint : Mint
  pub now : Time

pub record CreateAccessKeyReq : Type 0 where
  pub name : String
  pub bucket : String
  pub permissions : String

unfoldable pub id_or : String → Result String → String
id_or id (ok new) = new
id_or id (err e) = id

-- the id that the object store gives a bucket, and its call
unfoldable pub garage_bucket : Option GarageAdmin → String → String → String × List GarageCall
unfolding id_or
garage_bucket none name id = (id, [])
garage_bucket (some g) name id = (id_or id (g.create_bucket name), creating_bucket name ∷ [])

-- the calls of a delete, where the object store is wired and the resource has an id
unfoldable pub garage_delete : Option GarageAdmin → String → GarageCall → List GarageCall
garage_delete none id call = []
garage_delete (some g) id call = if str_eq id "" then [] else call ∷ []

unfoldable pub ready_bucket : Time → String → String → Bucket → Bucket
ready_bucket now project id b = record b {
  meta = record (b.meta) { project = project };
  garage_id = id;
  status = record no_status { phase = phase_running; updated_at = now };
}

unfoldable pub permissions_or_read : String → String
permissions_or_read permissions = if str_eq permissions "" then "read" else permissions

-- the grant on the named bucket, where that has an id
unfoldable pub grant : String → String → Result Bucket → List GarageCall
grant key permissions (err e) = []
grant key permissions (ok b) =
    if str_eq b.garage_id ""
    then []
    else allowing key b.garage_id (not (str_eq permissions ""))
        (str_eq permissions "write" || str_eq permissions "owner") (str_eq permissions "owner")
      ∷ []

unfoldable pub new_key : String → CreateAccessKeyReq → String × String → AccessKey
unfolding permissions_or_read
new_key project body (id, secret) = record {
  meta = new_meta project body.name;
  bucket_name = body.bucket;
  access_key_id = id;
  secret_access_key = secret;
  permissions = permissions_or_read body.permissions;
}

module _ {d : Deps} where
  -- `handlePutBucket`
  unfoldable pub handle_put_bucket :
      Store d → BucketCall → String → Result Bucket → Calling d GarageCall Bucket
  unfolding garage_bucket ready_bucket write_reply
  handle_put_bucket s call project (err e) = (s, [], failed 400 (call.texts e))
  handle_put_bucket s call project (ok b) =
      let made = garage_bucket call.garage b.meta.name b.garage_id in
      let w = put_bucket s call.mint (ready_bucket call.now project made.0 b) in
      (w.0, made.1, write_reply call.texts 201 w.1 w.2)

  unfoldable pub delete_bucket_read :
      Store d → BucketCall → Result Bucket → Calling d GarageCall Bucket
  unfolding garage_delete store_error delete_reply
  delete_bucket_read s call (err e) = (s, [], store_error call.texts e)
  delete_bucket_read s call (ok b) =
      let w = delete_bucket s b.meta.project b.meta.name in
      (
        w.0,
        garage_delete call.garage b.garage_id (deleting_bucket b.garage_id),
        delete_reply call.texts w.1,
      )

  -- `handleDeleteBucket`
  unfoldable pub handle_delete_bucket :
      Store d → BucketCall → String → String → Calling d GarageCall Bucket
  unfolding delete_bucket_read
  handle_delete_bucket s call project name = delete_bucket_read s call (get_bucket s project name)

  -- the id and the secret, and the calls; without the object store the key is made up locally
  unfoldable pub key_created :
      Store d
      → String
      → CreateAccessKeyReq
      → Result (String × String)
      → (String × String) × List GarageCall
  unfolding grant permissions_or_read
  key_created s project body (err e) = (("", ""), creating_key body.name ∷ [])
  key_created s project body (ok made) = (
    made,
    creating_key body.name
        ∷ (if str_eq body.bucket ""
            then []
            else grant made.0 (permissions_or_read body.permissions)
                (get_bucket s project body.bucket)),
  )

  unfoldable pub make_key :
      Store d
      → BucketCall
      → String
      → CreateAccessKeyReq
      → Option GarageAdmin
      → (String × String) × List GarageCall
  unfolding key_created
  make_key s call project body none = (("GK" <> call.last_twelve, call.generated), [])
  make_key s call project body (some g) = key_created s project body (g.create_key body.name)

  -- `handleCreateAccessKey`
  unfoldable pub handle_create_access_key :
      Store d → BucketCall → String → Result CreateAccessKeyReq → Calling d GarageCall AccessKey
  unfolding make_key new_key write_reply
  handle_create_access_key s call project (err e) = (s, [], failed 400 (call.texts e))
  handle_create_access_key s call project (ok body) =
      let made = make_key s call project body call.garage in
      let w = put_access_key s call.mint (new_key project body made.0) in
      (w.0, made.1, write_reply call.texts 201 w.1 w.2)

  unfoldable pub delete_key_read :
      Store d → BucketCall → Result AccessKey → Calling d GarageCall AccessKey
  unfolding garage_delete store_error delete_reply
  delete_key_read s call (err e) = (s, [], store_error call.texts e)
  delete_key_read s call (ok a) =
      let w = delete_access_key s a.meta.project a.meta.name in
      (
        w.0,
        garage_delete call.garage a.access_key_id (deleting_key a.access_key_id),
        delete_reply call.texts w.1,
      )

  -- `handleDeleteAccessKey`
  unfoldable pub handle_delete_access_key :
      Store d → BucketCall → String → String → Calling d GarageCall AccessKey
  unfolding delete_key_read
  handle_delete_access_key s call project name =
      delete_key_read s call (get_access_key s project name)
