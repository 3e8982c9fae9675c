-- ===== src/Examples/Ordering.antt =====
-- The theorems about builds and invocations that run at the same time, after a few steps.
use selfcloud.Base.{
  err, ℕ, ◌≤◌, ◌≡◌, ◌⊎◌, refl, Option, none, some, [], ◌∷◌, length, lookup, ok, panicked,
}
use selfcloud.Wasm.Pool.{
  WarmPool, new_warm_pool, pool_replaced, pool_remove, pool_enter, deploying, PoolReached, made,
  stepped,
}
use selfcloud.Wasm.Permits.{pool_enter_late}
use selfcloud.Builder.Stream.{line_channel}
use selfcloud.Builder.Streams.{
  BuildStreams, new_builder, open_stream, log_line, withdraw_stream, stream_logs, opening, writing,
  withdrawing, Reached, start, later,
}
use selfcloud.Builder.Reading.{stream_logs-Reached}
use selfcloud.Builder.Slots.{Slots, new_slots, acquire, release, held_by, taking, at_start, after}
use selfcloud.Builder.OneRun.{acquire_one}

-- two builds, of which the first has left the table and has not closed its stream yet
abbrev two_builds : BuildStreams
two_builds =
    withdraw_stream 0 (log_line 1 "go build" (open_stream "b2" (open_stream "b1" new_builder)))

two_builds-Reached : Reached two_builds
unfolding open_stream log_line
two_builds-Reached =
    later (later (later (later start (opening "b1")) (opening "b2")) (writing 1 "go build"))
      (withdrawing 0 refl)

stream_logs-Reached_example :
    ((t : BuildStreams) × (number : Option (ℕ × ℕ)) × (stream_logs "b2" two_builds
        ≡ ok (t, number)))
    × ((lookup "b2" two_builds.table ≡ none)
        ⊎ ((p : ℕ) × (lookup "b2" two_builds.table ≡ some p)
            × (length (two_builds.runs p).log.buffer ≤ line_channel)))
stream_logs-Reached_example = stream_logs-Reached two_builds "b2" two_builds-Reached

abbrev taken : Slots
taken = record { queue = ("prod/hello", 1) ∷ []; holders = "prod/hello" ∷ [] }

taken_ok : acquire "prod/hello" new_slots ≡ some taken
unfolding acquire
taken_ok = refl

acquire_one_example :
    ((held_by "prod/hello" taken.holders ≡ 0)
      × ((t : Slots) × (acquire "prod/hello" taken ≡ some t)))
    ⊎ ((held_by "prod/hello" taken.holders ≡ 1)
        × (acquire "prod/hello" taken ≡ none)
        × ((t : Slots) × (u : Slots) × (release "prod/hello" taken ≡ some t)
            × (acquire "prod/hello" t ≡ some u)))
acquire_one_example =
    acquire_one taken "prod/hello" (after at_start (taking "prod/hello" taken taken_ok))

abbrev serving : WarmPool
serving = pool_replaced 10 "prod/hello" new_warm_pool

serving-PoolReached : PoolReached 2 32 serving
unfolding new_warm_pool
serving-PoolReached = stepped made (deploying 10 "prod/hello")

pool_enter_late_example :
    ((serving.pooled 0).permits ≤ serving.concurrency)
    × ((o : Option WarmPool) × (pool_enter none 20 0 serving ≡ ok o))
    × (pool_enter none 20 0 (pool_replaced 20 "prod/hello" serving) ≡ err panicked)
    × (pool_enter none 20 0 (pool_remove "prod/hello" serving) ≡ err panicked)
unfolding pool_replaced new_warm_pool
pool_enter_late_example = pool_enter_late 2 32 serving "prod/hello" 0 serving-PoolReached refl 20
