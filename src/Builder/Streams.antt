-- ===== src/Builder/Streams.antt =====
-- internal/runtime/functions/builder/runner.go: the table of the streams of the running builds, and
-- the order in which runs and readers use it. A stream is a number, since the run and the table
-- share it, and each step holds the lock that the code takes.
use selfcloud.Base.{
  ℕ, ◌+◌, String, ◌≡◌, Option, none, some, List, [], lookup, insert, remove, Result, ok, map_ok,
  set_at,
}
use selfcloud.Builder.Stream.{
  LogStream, new_log_stream, append_lines, subscribe_lines, unsubscribe, close_stream,
}

-- A run logs to its stream, takes it from the table, and closes it.
pub data Stage : Type 0 where
  logging withdrawn ended : Stage

pub record RunStream : Type 0 where
  pub uid : String
  pub stage : Stage
  pub log : LogStream

pub record BuildStreams : Type 0 where
  pub runs : ℕ → RunStream
  pub next : ℕ
  pub table : List (String × ℕ)

-- a builder without runs
abbrev pub new_builder : BuildStreams
new_builder = record {
  runs = λ p. record { uid = ""; stage = ended; log = new_log_stream };
  next = 0;
  table = [];
}

-- `openStream`
unfoldable pub open_stream : String → BuildStreams → BuildStreams
open_stream uid s = record {
  runs = set_at s.next (record { uid = uid; stage = logging; log = new_log_stream }) s.runs;
  next = s.next + 1;
  table = insert uid s.next s.table;
}

unfoldable pub log_line : ℕ → String → BuildStreams → BuildStreams
unfolding append_lines
log_line p text s = record s {
  runs = set_at p (record (s.runs p) { log = append_lines text (s.runs p).log }) s.runs;
}

-- `closeStream`, up to the close
unfoldable pub withdraw_stream : ℕ → BuildStreams → BuildStreams
withdraw_stream p s = record s {
  runs = set_at p (record (s.runs p) { stage = withdrawn }) s.runs;
  table = remove (s.runs p).uid s.table;
}

-- the close
unfoldable pub end_stream : ℕ → BuildStreams → BuildStreams
unfolding close_stream
end_stream p s = record s {
  runs = set_at p (record (s.runs p) { stage = ended; log = close_stream (s.runs p).log }) s.runs;
}

-- the new subscriber of a stream, by the numbers of both
unfoldable pub joined_stream : BuildStreams → ℕ → LogStream × ℕ → BuildStreams × Option (ℕ × ℕ)
joined_stream s p (log, id) =
    (record s { runs = set_at p (record (s.runs p) { log = log }) s.runs }, some (p, id))

unfoldable pub stream_found : BuildStreams → Option ℕ → Result (BuildStreams × Option (ℕ × ℕ))
unfolding joined_stream subscribe_lines
stream_found s none = ok (s, none)
stream_found s (some p) = map_ok (joined_stream s p) (subscribe_lines (s.runs p).log)

-- `StreamLogs`: `none` is the replay of the file of a build that has ended
unfoldable pub stream_logs : String → BuildStreams → Result (BuildStreams × Option (ℕ × ℕ))
unfolding stream_found
stream_logs uid s = stream_found s (lookup uid s.table)

unfoldable pub leave_stream : ℕ → ℕ → BuildStreams → BuildStreams
unfolding unsubscribe
leave_stream p id s = record s {
  runs = set_at p (record (s.runs p) { log = unsubscribe id (s.runs p).log }) s.runs;
}

-- One step of a run or of a reader.
pub data StreamStep (s : BuildStreams) : BuildStreams → Type 0 where
  opening : (uid : String) → StreamStep s (open_stream uid s)
  writing : (p : ℕ) (text : String) → StreamStep s (log_line p text s)
  withdrawing : (p : ℕ) → (s.runs p).stage ≡ logging → StreamStep s (withdraw_stream p s)
  ending : (p : ℕ) → (s.runs p).stage ≡ withdrawn → StreamStep s (end_stream p s)
  reading :
      (uid : String) (t : BuildStreams) (o : Option (ℕ × ℕ))
      → stream_logs uid s ≡ ok (t, o)
      → StreamStep s t
  leaving : (p id : ℕ) → StreamStep s (leave_stream p id s)

pub data Reached : BuildStreams → Type 0 where
  start : Reached new_builder
  later : {s t : BuildStreams} → Reached s → StreamStep s t → Reached t
