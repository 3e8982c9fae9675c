-- ===== src/Examples/Watching.antt =====
-- The theorems about frames, the log scanner, the cron entries and the rings at small inputs.
use selfcloud.Base.{
  ◌+◌, ℕ, String, ◌≡◌, ◌≤◌, refl, true, some, none, List, [], ◌∷◌, ◌++◌, arith, length, reverse,
  message, Result, ok, err,
}
use selfcloud.Base.Recent.{last_of}
use selfcloud.Store.Types.{Bytes, Container, Function, FunctionTrigger, phase_running}
use selfcloud.Store.Core.{Store}
use selfcloud.Store.Typed.{put_container, list_containers}
use selfcloud.Firecracker.Protocol.{Wire, write_frame, read_frame}
use selfcloud.Firecracker.RoundTrip.{read_frame-write_frame}
use selfcloud.Logscan.Scanner.{Scanner, new_scanner, knows, wants, reconcile}
use selfcloud.Logscan.Followers.{started_for, due, reconcile-knows}
use selfcloud.Builder.Stream.{
  LogStream, new_log_stream, log_buffer_lines, line_channel, subscribe_lines,
}
use selfcloud.Builder.Subscribed.{append_all, subscribe_lines-append_all}
use selfcloud.Wasm.Cron.{new_cron, function_key, sync, remove_key}
use selfcloud.Wasm.Entries.{but_last, new_entries}
use selfcloud.Wasm.Leftover.{remove_key-sync}
use selfcloud.Api.Invocations.{
  InvocationRecord, new_invocation_ring, record_each, records_of, list_invocations,
  list-record_each,
}
use selfcloud.Examples.Memory.{memory}
use selfcloud.Examples.Stores.{opened, first_mint, web}
use selfcloud.Examples.Values.{hello}

not_empty : (v : ℕ) → ok (v ∷ []) ≡ ok [] → ⊥
not_empty v h = ground arith

-- a message is a number, its text one byte
abbrev decode_number : Bytes → Result ℕ
decode_number (b ∷ []) = ok b
decode_number other = err (message "bad text")

decode_encoded : (v : ℕ) (bytes : Bytes) → ok (v ∷ []) ≡ ok bytes → decode_number bytes ≡ ok v
decode_encoded v bytes h = let e : bytes ≡ v ∷ [] = ground arith in rw e refl

abbrev numbers : Wire ℕ
numbers = record {
  marshal = λ v. ok (v ∷ []);
  unmarshal = decode_number;
  marshal_nonempty = not_empty;
  unmarshal-marshal = decode_encoded;
  eof = message "EOF";
}

seven_written : write_frame numbers 7 ≡ ok (0 ∷ 0 ∷ 0 ∷ 1 ∷ 7 ∷ [])
unfolding write_frame
seven_written = refl

read_frame-write_frame_example : read_frame numbers (0 ∷ 0 ∷ 0 ∷ 1 ∷ 7 ∷ 9 ∷ []) ≡ ok (7, 9 ∷ [])
read_frame-write_frame_example =
    read_frame-write_frame numbers 7 (0 ∷ 0 ∷ 0 ∷ 1 ∷ 7 ∷ []) (9 ∷ []) seven_written

abbrev running : Container
running = record web {
  status = record (web.status) { status = record (web.status.status) { phase = phase_running } };
}

abbrev watched : Store memory
watched = (put_container opened first_mint running).0

abbrev listed_or_web : Result (List Container) → List Container
listed_or_web (ok cs) = cs
listed_or_web (err e) = web ∷ []

watched_ok : list_containers watched "" ≡ ok (listed_or_web (list_containers watched ""))
unfolding list_containers selfcloud.Store.Core.list put_container selfcloud.Store.Scoped.put_scoped
    selfcloud.Store.Core.put selfcloud.Store.Core.emit
watched_ok = refl

abbrev before : Scanner
before = record new_scanner { known = "default/gone" ∷ [] }

reconcile-knows_example :
    (knows (reconcile watched before).known "default/web"
      ≡ wants (listed_or_web (list_containers watched "")) "default/web")
    × (started_for "default/web" (reconcile watched before).followed
        ≡ started_for "default/web" before.followed
          + due (listed_or_web (list_containers watched "")) before "default/web")
reconcile-knows_example =
    reconcile-knows watched before (listed_or_web (list_containers watched "")) watched_ok
      "default/web"

subscribe_lines-append_all_example :
    (s : LogStream) × (subscribe_lines (append_all ("a" ∷ "b" ∷ []) new_log_stream) ≡ ok (s, 0))
    × (s.subs ≡ some ((0, last_of log_buffer_lines ("a" ∷ "b" ∷ [])) ∷ []))
    × (length {A = String} (last_of log_buffer_lines ("a" ∷ "b" ∷ [])) ≤ line_channel)
subscribe_lines-append_all_example = subscribe_lines-append_all ("a" ∷ "b" ∷ [])

abbrev hourly : FunctionTrigger
hourly = record { http = none; cron = some (record { schedule = "@hourly" }) }

abbrev twice : Function
twice = record hello { triggers = hourly ∷ hourly ∷ [] }

remove_key-sync_example :
    (remove_key (sync (λ schedule. true) twice new_cron) (function_key twice)).jobs
    ≡ (remove_key new_cron (function_key twice)).jobs
      ++ but_last (new_entries (λ schedule. true) twice (hourly ∷ hourly ∷ []) 1)
remove_key-sync_example = remove_key-sync (λ schedule. true) twice new_cron tt

abbrev called : ℕ → InvocationRecord
called n = record {
  at = n;
  verb = "GET";
  path = "/";
  status = 200;
  dur_ms = 1;
  body_kb = 0;
  error = "";
  logs_tail = [];
}

list-record_each_example :
    list_invocations
      (record_each (new_invocation_ring 1) (("a", called 1) ∷ ("a", called 2) ∷ []))
      "a"
    ≡ reverse (
        last_of
          (new_invocation_ring 1).size
          (records_of "a" (("a", called 1) ∷ ("a", called 2) ∷ [])))
list-record_each_example = list-record_each 1 "a" (("a", called 1) ∷ ("a", called 2) ∷ [])
