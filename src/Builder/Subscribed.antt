-- ===== src/Builder/Subscribed.antt =====
-- A late subscriber of the log in internal/runtime/functions/builder/queue.go.
use selfcloud.Base.{
  ◌+◌, String, ◌≡◌, ◌≤◌, refl, ap, ◌∙◌, false, some, List, [], ◌∷◌, length, arith, ok,
}
use selfcloud.Base.Recent.{last_of, push, push_all, push_all-last_of, length-last_of}
use selfcloud.Builder.Stream.{
  LogStream, new_log_stream, log_buffer_lines, line_channel, send_all, append_lines, subscribed,
  subscribe_lines,
}

-- lines one after the other
unfoldable pub append_all : List String → LogStream → LogStream
append_all [] s = s
append_all (line ∷ lines) s = append_all lines (append_lines line s)

-- an open stream without a subscriber, by its buffer
abbrev IsFresh : LogStream → List String → Type 0
IsFresh s buffer = (s.closed ≡ false) × (s.subs ≡ some []) × (s.next_id ≡ 0) × (s.buffer ≡ buffer)

append_lines-IsFresh :
    (line : String) (s : LogStream) (buffer : List String)
    → IsFresh s buffer
    → IsFresh (append_lines line s) (push log_buffer_lines buffer line)
unfolding append_lines send_all
append_lines-IsFresh line s buffer (o, n, i, b) = ground arith

append_all-IsFresh :
    (lines : List String) (s : LogStream) (buffer : List String)
    → IsFresh s buffer
    → IsFresh (append_all lines s) (push_all log_buffer_lines buffer lines)
unfolding append_all push_all
append_all-IsFresh [] s buffer v = v
append_all-IsFresh (line ∷ lines) s buffer v =
    append_all-IsFresh lines (append_lines line s) (push log_buffer_lines buffer line)
      (append_lines-IsFresh line s buffer v)

subscribe_lines-IsFresh :
    (s : LogStream) (buffer : List String)
    → IsFresh s buffer
    → (s' : LogStream) × (subscribe_lines s ≡ ok (s', 0)) × (s'.subs ≡ some ((0, buffer) ∷ []))
unfolding subscribe_lines subscribed
subscribe_lines-IsFresh s buffer (o, n, i, b) = (
  record s { subs = some ((0, s.buffer) ∷ []); next_id = s.next_id + 1 },
  ground arith,
  ground arith,
)

-- The first subscriber of a running build, however many lines were logged, finds the last lines in
-- its channel, and they fit into it, so that the send of the buffer does not block.
pub subscribe_lines-append_all :
    (lines : List String)
    → (s' : LogStream) × (subscribe_lines (append_all lines new_log_stream) ≡ ok (s', 0))
      × (s'.subs ≡ some ((0, last_of log_buffer_lines lines) ∷ []))
      × (length (last_of log_buffer_lines lines) ≤ line_channel)
unfolding last_of
subscribe_lines-append_all lines =
    let fresh = append_all-IsFresh lines new_log_stream [] (refl, refl, refl, refl) in
    let (s', done, subs) =
      subscribe_lines-IsFresh (append_all lines new_log_stream) (push_all log_buffer_lines [] lines)
        fresh in
    (
      s',
      done,
      subs ∙ ap (λ b. some ((0, b) ∷ [])) (push_all-last_of log_buffer_lines [] lines),
      length-last_of log_buffer_lines lines,
    )
