-- ===== src/Api/Reply.antt =====
-- internal/api/handlers.go: the replies, and the status that an error of the store becomes. A body
-- that is decoded is the result of `decodeJSON`, and `texts` is `err.Error()`.
use selfcloud.Base.{
  ℕ, String, Option, none, some, List, Error, not_found, already_exists, conflict, not_leader,
  Result, ok, err,
}
use selfcloud.Store.Deps.{Deps}
use selfcloud.Store.Core.{Store}
use selfcloud.Store.Scoped.{Written}

-- `writeJSON` of a value, `httpError`, `WriteHeader(204)`
pub data Reply (A : Type 0) : Type 0 where
  json : ℕ → A → Reply A
  failed : ℕ → String → Reply A
  no_content : Reply A
  -- `http.Redirect` with status 307, and `http.NotFound`
  redirected : String → Reply A
  absent : Reply A

unfoldable pub status_of : {A : Type 0} → Reply A → ℕ
status_of (json code a) = code
status_of (failed code text) = code
status_of no_content = 204
status_of (redirected target) = 307
status_of absent = 404

-- the switch of `mapStoreErr`
unfoldable pub store_status : Error → ℕ
store_status not_found = 404
store_status already_exists = 409
store_status conflict = 409
store_status not_leader = 503
store_status _ = 500

-- the store, the calls of other components in their order, and the reply
abbrev pub Calling : Deps → Type 0 → Type 0 → Type 0
Calling d C A = Store d × List C × Reply A

abbrev pub Handled : Deps → Type 0 → Type 0
Handled d A = Store d × Reply A

module _ {A : Type 0} where
  unfoldable pub store_error : (Error → String) → Error → Reply A
  unfolding store_status
  store_error texts e = failed (store_status e) (texts e)

  -- `httpError(w, 500, err.Error())`
  unfoldable pub server_error : (Error → String) → Error → Reply A
  server_error texts e = failed 500 (texts e)

  -- a read: `mapStoreErr`, or the value
  unfoldable pub read_reply : {B : Type 0} → (Error → String) → (B → A) → Result B → Reply A
  unfolding store_error
  read_reply texts f (ok b) = json 200 (f b)
  read_reply texts f (err e) = store_error texts e

  unfoldable pub delete_reply : (Error → String) → Option Error → Reply A
  unfolding store_error
  delete_reply texts none = no_content
  delete_reply texts (some e) = store_error texts e

  -- a write: `mapStoreErr`, or what the caller's pointer holds
  unfoldable pub write_reply : (Error → String) → ℕ → A → Option Error → Reply A
  unfolding store_error
  write_reply texts code a none = json code a
  write_reply texts code a (some e) = store_error texts e

module _ {d : Deps} {A : Type 0} where
  unfoldable pub reply_written : (Error → String) → ℕ → Written d A → Handled d A
  unfolding write_reply
  reply_written texts code w = (w.0, write_reply texts code w.1 w.2)

  unfoldable pub reply_deleted : (Error → String) → Store d × Option Error → Handled d A
  unfolding delete_reply
  reply_deleted texts w = (w.0, delete_reply texts w.1)

  -- a write whose value is a result
  unfoldable pub reply_result : (Error → String) → ℕ → Store d × Result A → Handled d A
  unfolding store_error
  reply_result texts code (s, ok a) = (s, json code a)
  reply_result texts code (s, err e) = (s, store_error texts e)
