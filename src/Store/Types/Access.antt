-- ===== src/Store/Types/Access.antt =====
-- internal/store/types.go: secrets, buckets, access keys, users and tokens.
use selfcloud.Base.{ℕ, String, Bool, List}
use selfcloud.Store.Types.Core.{Time, Meta, Status}

abbrev pub Bytes : Type 0
Bytes = List ℕ

pub record Secret : Type 0 where
  pub meta : Meta
  pub description : String
  pub key_id : String
  pub nonce : Bytes
  pub ciphertext : Bytes
  pub version : ℕ  -- int, as its 64-bit pattern

pub record Bucket : Type 0 where
  pub meta : Meta
  pub region : String
  pub versioning : Bool
  pub website_access : Bool
  pub garage_id : String
  pub size_bytes : ℕ
  pub status : Status

pub record AccessKey : Type 0 where
  pub meta : Meta
  pub bucket_name : String
  pub access_key_id : String
  pub secret_access_key : String
  pub permissions : String

pub record User : Type 0 where
  pub meta : Meta
  pub email : String
  pub password_hash : String
  pub is_admin : Bool
  pub last_login_at : Time

pub record Token : Type 0 where
  pub meta : Meta
  pub user_id : String
  pub hash_hex : String
  pub plaintext : String
  pub expires_at : Time
  pub is_admin : Bool
