-- ===== src/Builder/Stream.antt =====
-- internal/runtime/functions/builder/queue.go: the log of a build that is running. A subscriber is
-- its channel: the lines that are buffered and not yet received. The file is the text that was
-- written to it.
use selfcloud.Base.{
  ℕ, ◌+◌, String, Bool, true, false, Option, none, some, List, [], ◌∷◌, ◌++◌, map, length, ltb,
  ◌==◌, panicked, Result, ok, err, if◌then◌else◌,
}
use selfcloud.Base.Recent.{push}

abbrev pub log_buffer_lines : ℕ
log_buffer_lines = 256

-- `make(chan string, 256)`
abbrev pub line_channel : ℕ
line_channel = 256

-- `logStream`. The map of the subscribers is by their numbers; `none` is the nil map.
pub record LogStream : Type 0 where
  pub file : List String
  pub subs : Option (List (ℕ × List String))
  pub next_id : ℕ
  pub closed : Bool
  pub buffer : List String

-- `newLogStream`
abbrev pub new_log_stream : LogStream
new_log_stream = record { file = []; subs = some []; next_id = 0; closed = false; buffer = [] }

-- the select with a default
unfoldable pub send_line : String → List String → List String
send_line text queue = if ltb (length queue) line_channel then queue ++ text ∷ [] else queue

unfoldable pub send_to : String → ℕ × List String → ℕ × List String
unfolding send_line
send_to text (id, queue) = (id, send_line text queue)

unfoldable pub send_all : String → Option (List (ℕ × List String)) → Option (List (ℕ × List String))
unfolding send_to
send_all text none = none
send_all text (some subs) = some (map (send_to text) subs)

-- `appendLines`
unfoldable pub append_lines : String → LogStream → LogStream
unfolding push send_all
append_lines text s = if s.closed then s else record s {
  file = s.file ++ text ∷ [];
  buffer = push log_buffer_lines s.buffer text;
  subs = send_all text s.subs;
}

-- a write to the nil map panics
unfoldable pub subscribed : LogStream → Option (List (ℕ × List String)) → Result (LogStream × ℕ)
subscribed s none = err panicked
subscribed s (some subs) = ok (
  record s { subs = some (subs ++ (s.next_id, s.buffer) ∷ []); next_id = s.next_id + 1 },
  s.next_id,
)

-- `subscribe`: the number of the subscriber, whose channel holds the buffer
unfoldable pub subscribe_lines : LogStream → Result (LogStream × ℕ)
unfolding subscribed
subscribe_lines s = subscribed s s.subs

unfoldable pub without : ℕ → List (ℕ × List String) → List (ℕ × List String)
without id [] = []
without id ((j, queue) ∷ more) =
    let rest = without id more in if j == id then rest else (j, queue) ∷ rest

unfoldable pub without_sub : ℕ → Option (List (ℕ × List String)) → Option (List (ℕ × List String))
unfolding without
without_sub id none = none
without_sub id (some subs) = some (without id subs)

-- the function that `subscribe` returns
unfoldable pub unsubscribe : ℕ → LogStream → LogStream
unfolding without_sub
unsubscribe id s = record s { subs = without_sub id s.subs }

-- `close`
unfoldable pub close_stream : LogStream → LogStream
close_stream s = record s { closed = true; subs = none }
