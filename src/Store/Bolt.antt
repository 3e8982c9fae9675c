-- ===== src/Store/Bolt.antt =====
-- go.etcd.io/bbolt and encoding/json as the code of internal/store relies on them. Neither is part
-- of the repository: they are parameters of the model, with their documented behaviour as laws.
use selfcloud.Base.{
  String, ◌≡◌, Bool, true, ◌&&◌, ◌||◌, Option, none, some, List, [], ◌∷◌, Error, Result, ok, All,
  lookup, str_eq, if◌then◌else◌,
}
use selfcloud.Base.Text.{key_ltb}

module _ {ℓ} {V : Type ℓ} where
  -- every key is below every later key
  abbrev pub Ascending : List (String × V) → Type 0
  Ascending [] = Unit
  Ascending (x ∷ m) = All (λ e. key_ltb x.0 e.0 ≡ true) m × Ascending m

  -- from the first key that is not below `p`
  abbrev pub skip_below : String → List (String × V) → List (String × V)
  skip_below p [] = []
  skip_below p (x ∷ m) = let rest = skip_below p m in if key_ltb x.0 p then rest else x ∷ m

-- A database of buckets, each an ordered map from keys to values.
pub record Bolt (Raw : Type 0) : Type 1 where
  pub Db : Type 0
  -- the error of `db.View` or `db.Update` before its function runs, and of the commit
  pub begin_error : Db → Option Error
  pub commit_error : Db → Option Error
  -- `tx.Bucket(name) != nil`
  pub has_bucket : Db → String → Bool
  pub get : Db → String → String → Option Raw
  -- what a cursor yields by First and Next, and by Seek and Next
  pub entries : Db → String → List (String × Raw)
  pub seek : Db → String → String → List (String × Raw)
  -- The key that Next yields on a cursor that was placed in the first database and stands at a key
  -- that has been deleted since, with the database as it is now. bbolt leaves open which that is.
  pub next_after_delete : Db → Db → String → String → Option String
  pub put : Db → String → String → Raw → Result Db
  pub delete : Db → String → String → Result Db
  pub create_bucket_if_not_exists : Db → String → Result Db
  pub get-put :
      (db db' : Db) (b k : String) (v : Raw)
      → put db b k v ≡ ok db'
      → (c j : String) → get db' c j ≡ (if str_eq b c && str_eq k j then some v else get db c j)
  pub has_bucket-put :
      (db db' : Db) (b k : String) (v : Raw)
      → put db b k v ≡ ok db'
      → (c : String) → has_bucket db' c ≡ has_bucket db c
  pub get-delete :
      (db db' : Db) (b k : String)
      → delete db b k ≡ ok db'
      → (c j : String) → get db' c j ≡ (if str_eq b c && str_eq k j then none else get db c j)
  pub has_bucket-delete :
      (db db' : Db) (b k : String)
      → delete db b k ≡ ok db'
      → (c : String) → has_bucket db' c ≡ has_bucket db c
  pub get-create :
      (db db' : Db) (b : String)
      → create_bucket_if_not_exists db b ≡ ok db'
      → (c j : String) → get db' c j ≡ get db c j
  pub has_bucket-create :
      (db db' : Db) (b : String)
      → create_bucket_if_not_exists db b ≡ ok db'
      → (c : String) → has_bucket db' c ≡ (str_eq b c || has_bucket db c)
  pub entries-Ascending : (db : Db) (b : String) → Ascending (entries db b)
  pub get-entries : (db : Db) (b k : String) → get db b k ≡ lookup k (entries db b)
  pub seek-entries : (db : Db) (b p : String) → seek db b p ≡ skip_below p (entries db b)

-- `json.Marshal` and `json.Unmarshal` at one type. `compact` is `json.Marshal` of a
-- `json.RawMessage`, which copies what `json.Marshal` wrote.
pub record Codec (Raw : Type 0) (compact : Raw → Result Raw) (A : Type 0) : Type 0 where
  pub marshal : A → Result Raw
  pub unmarshal : Raw → Result A
  pub unmarshal-marshal : (a : A) (r : Raw) → marshal a ≡ ok r → unmarshal r ≡ ok a
  pub compact-marshal : (a : A) (r : Raw) → marshal a ≡ ok r → compact r ≡ ok r
