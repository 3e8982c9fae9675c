-- ===== src/Builder/Reading.antt =====
-- `StreamLogs` of internal/runtime/functions/builder/runner.go, in whatever order runs and readers
-- take their steps.
use selfcloud.Base.{
  set_at, ℕ, ◌+◌, ◌<◌, ◌≤◌, String, ◌≡◌, refl, ap, sym, ◌∙◌, ◌⊎◌, inl, inr, Option, none, some,
  Option-cases, List, [], ◌∷◌, ◌++◌, length, lookup, lookup-insert, lookup-remove, str_eq,
  str_eq_iff, ◌==◌, ==_iff, arith, ok, Bool-cases,
}
use selfcloud.Base.Recent.{push, length-last_of}
use selfcloud.Builder.Stream.{
  LogStream, log_buffer_lines, line_channel, append_lines, send_all, subscribe_lines, subscribed,
  unsubscribe, without_sub,
}
use selfcloud.Builder.Streams.{
  Stage, logging, withdrawn, ended, BuildStreams, open_stream, log_line, withdraw_stream,
  end_stream, joined_stream, stream_found, stream_logs, leave_stream, StreamStep, opening, writing,
  withdrawing, ending, reading, leaving, Reached, start, later,
}

-- a stream that takes subscribers
abbrev pub IsOpen : LogStream → Type 0
IsOpen l =
    ((subs : List (ℕ × List String)) × (l.subs ≡ some subs)) × (length l.buffer ≤ line_channel)

-- a run that has not ended has an open stream
abbrev StageSound : Stage → LogStream → Type 0
StageSound ended l = Unit
StageSound logging l = IsOpen l
StageSound withdrawn l = IsOpen l

-- where the table has a stream under a build, its run is that build's and logs to it
abbrev Listed : BuildStreams → Type 0
Listed s =
    (uid : String) (p : ℕ)
    → lookup uid s.table ≡ some p
    → (p < s.next) × ((s.runs p).uid ≡ uid) × ((s.runs p).stage ≡ logging)

record IsSound (s : BuildStreams) : Type 0 where
  sound : (p : ℕ) → StageSound (s.runs p).stage (s.runs p).log
  listed : Listed s

append_lines-IsOpen : (text : String) (l : LogStream) → IsOpen l → IsOpen (append_lines text l)
unfolding append_lines send_all push
append_lines-IsOpen text l ((subs, e), short) = elim (Bool-cases l.closed) [
  | inl c ↦ rw c ((subs, e), short)
  | inr c ↦ rw (c, e) ((_, refl), length-last_of log_buffer_lines (l.buffer ++ text ∷ []))
]

unsubscribe-IsOpen : (id : ℕ) (l : LogStream) → IsOpen l → IsOpen (unsubscribe id l)
unfolding unsubscribe without_sub
unsubscribe-IsOpen id l ((subs, e), short) = (rw e (_, refl), short)

-- a subscriber joins an open stream, and leaves it open
subscribe_lines-IsOpen :
    (l : LogStream)
    → IsOpen l
    → (l' : LogStream) × (id : ℕ) × (subscribe_lines l ≡ ok (l', id)) × IsOpen l'
unfolding subscribe_lines subscribed
subscribe_lines-IsOpen l ((subs, e), short) = (
  record l { subs = some (subs ++ (l.next_id, l.buffer) ∷ []); next_id = l.next_id + 1 },
  l.next_id,
  rw e refl,
  ((_, refl), short),
)

-- the stage of a run decides what a change of its log must keep
StageSound-map :
    (f : LogStream → LogStream)
    → ((l : LogStream) → IsOpen l → IsOpen (f l))
    → (stage : Stage) (l : LogStream) → StageSound stage l
    → StageSound stage (f l)
StageSound-map f keeps ended l v = tt
StageSound-map f keeps logging l v = keeps l v
StageSound-map f keeps withdrawn l v = keeps l v

module _ (s : BuildStreams) (p : ℕ) where
  set_log-IsSound :
      (l : LogStream)
      → StageSound (s.runs p).stage l
      → IsSound s
      → IsSound (record s { runs = set_at p (record (s.runs p) { log = l }) s.runs })
  set_log-IsSound l v i = record {
    sound = λ q. elim (Bool-cases (p == q)) [ inl e ↦ rw e v | inr e ↦ rw e (i.sound q) ];
    listed = λ uid q h. elim (Bool-cases (p == q)) [
      | inl e ↦ rw (e, (==_iff p q).0 e) (i.listed uid q h)
      | inr e ↦ rw e (i.listed uid q h)
    ];
  }

  withdraw_stream-IsSound : (s.runs p).stage ≡ logging → IsSound s → IsSound (withdraw_stream p s)
  unfolding withdraw_stream
  withdraw_stream-IsSound at i = record {
    sound = λ q. elim (Bool-cases (p == q)) [
      | inl e ↦ rw e (rw at at (i.sound p))
      | inr e ↦ rw e (i.sound q)
    ];
    listed = λ uid q h. elim (Bool-cases (str_eq (s.runs p).uid uid)) [
      | inl gone ↦ absurd (ground (arith, lookup-remove (s.runs p).uid uid s.table, gone, h))
      | inr other ↦
          let kept : lookup uid s.table ≡ some q =
            rw (lookup-remove (s.runs p).uid uid s.table, other) at h in
          let (low, mine, stage) = i.listed uid q kept in
          elim (Bool-cases (p == q)) [
            | inl e ↦
                absurd
                  (ground (arith, (==_iff p q).0 e, str_eq_iff (s.runs p).uid uid, mine, other))
            | inr e ↦ rw e (low, mine, stage)
          ]
    ];
  }

  end_stream-IsSound : (s.runs p).stage ≡ withdrawn → IsSound s → IsSound (end_stream p s)
  unfolding end_stream
  end_stream-IsSound at i = record {
    sound = λ q. elim (Bool-cases (p == q)) [ inl e ↦ rw e tt | inr e ↦ rw e (i.sound q) ];
    listed = λ uid q h.
        let (low, mine, stage) = i.listed uid q h in
        elim (Bool-cases (p == q)) [
          | inl e ↦
              let clash : withdrawn ≡ logging =
                sym at ∙ ap (λ k. (s.runs k).stage) ((==_iff p q).0 e) ∙ stage in
              absurd (ground arith)
          | inr e ↦ rw e (low, mine, stage)
        ];
  }

open_stream-IsSound : (uid : String) (s : BuildStreams) → IsSound s → IsSound (open_stream uid s)
unfolding open_stream
open_stream-IsSound uid s i = record {
  sound = λ q. elim (Bool-cases (s.next == q)) [
    | inl e ↦ rw e (([], refl), omega arith)
    | inr e ↦ rw e (i.sound q)
  ];
  listed = λ at q h. elim (Bool-cases (str_eq uid at)) [
    | inl same ↦
        let new : s.next ≡ q = ground (arith, lookup-insert uid at s.next s.table, same, h) in
        rw (← new)
          (rw ((==_iff s.next s.next).1 refl) (omega arith, (str_eq_iff uid at).0 same, refl))
    | inr other ↦
        let kept : lookup at s.table ≡ some q =
          rw (lookup-insert uid at s.next s.table, other) at h in
        let (low, mine, stage) = i.listed at q kept in
        elim (Bool-cases (s.next == q)) [
          | inl e ↦ absurd (omega (arith, low, (==_iff s.next q).0 e))
          | inr e ↦ rw e (omega (arith, low), mine, stage)
        ]
  ];
}

module _ (s : BuildStreams) (i : IsSound s) where
  listed-IsOpen : (uid : String) (p : ℕ) → lookup uid s.table ≡ some p → IsOpen (s.runs p).log
  listed-IsOpen uid p h = let (low, mine, stage) = i.listed uid p h in rw stage at (i.sound p)

  -- what `StreamLogs` returns, by what the table has
  stream_found_cases :
      (uid : String) (o : Option ℕ)
      → lookup uid s.table ≡ o
      → (t : BuildStreams) × (number : Option (ℕ × ℕ)) × (stream_found s o ≡ ok (t, number))
        × IsSound t
  unfolding stream_found joined_stream
  stream_found_cases uid none h = (s, none, refl, i)
  stream_found_cases uid (some p) h =
      let (l, id, joined, open') = subscribe_lines-IsOpen (s.runs p).log (listed-IsOpen uid p h) in
      let (low, mine, stage) = i.listed uid p h in
      (
        record s { runs = set_at p (record (s.runs p) { log = l }) s.runs },
        some (p, id),
        rw joined refl,
        set_log-IsSound s p l (rw stage open') i,
      )

  step-IsSound : (t : BuildStreams) → StreamStep s t → IsSound t
  unfolding log_line leave_stream stream_logs
  step-IsSound t (opening uid) = open_stream-IsSound uid s i
  step-IsSound t (writing p text) =
      set_log-IsSound s p (append_lines text (s.runs p).log)
        (StageSound-map (append_lines text) (append_lines-IsOpen text) (s.runs p).stage
          (s.runs p).log (i.sound p))
        i
  step-IsSound t (withdrawing p at) = withdraw_stream-IsSound s p at i
  step-IsSound t (ending p at) = end_stream-IsSound s p at i
  step-IsSound t (reading uid t' o read) =
      let (t'', o', found, v) = stream_found_cases uid (lookup uid s.table) refl in
      let same : t'' ≡ t = ground (arith, found, read) in rw (← same) v
  step-IsSound t (leaving p id) =
      set_log-IsSound s p (unsubscribe id (s.runs p).log)
        (StageSound-map (unsubscribe id) (unsubscribe-IsOpen id) (s.runs p).stage (s.runs p).log
          (i.sound p))
        i

Reached-IsSound : (s : BuildStreams) → Reached s → IsSound s
Reached-IsSound s start = record { sound = λ p. tt; listed = λ uid p h. absurd (ground arith) }
Reached-IsSound t (later {s} r step) = step-IsSound s (Reached-IsSound s r) t step

-- In every order of the steps of runs and readers, `StreamLogs` does not panic on a stream that is
-- closed, and where it finds a stream, the lines that it puts into the channel of the new
-- subscriber fit into it, so that it does not wait while it holds the locks.
pub stream_logs-Reached :
    (s : BuildStreams) (uid : String)
    → Reached s
    → ((t : BuildStreams) × (number : Option (ℕ × ℕ)) × (stream_logs uid s ≡ ok (t, number)))
      × ((lookup uid s.table ≡ none)
          ⊎ ((p : ℕ) × (lookup uid s.table ≡ some p)
              × (length (s.runs p).log.buffer ≤ line_channel)))
unfolding stream_logs
stream_logs-Reached s uid r =
    let i = Reached-IsSound s r in
    let (t, number, found, v) = stream_found_cases s i uid (lookup uid s.table) refl in
    (
      (t, number, found),
      elim (Option-cases (lookup uid s.table)) [
        | inl e ↦ inl e
        | inr (p, e) ↦ inr (p, e, (listed-IsOpen s i uid p e).1)
      ],
    )
