-- ===== src/Wasm/Pool.antt =====
-- internal/runtime/wasm/pool.go: the pool that bounds the invocations of each function. An entry is
-- a number, since an invocation keeps it while the table changes; a channel of permits is their
-- number and whether it is closed. What the inner runtime answers is an argument.
use selfcloud.Base.{
  ℕ, ◌+◌, ◌-◌, ◌%◌, ◌^◌, String, ◌≡◌, Bool, true, false, Option, none, some, List, [], map, lookup,
  insert, remove, set_at, ltb, ◌==◌, Error, panicked, Result, ok, err, if◌then◌else◌,
}
use selfcloud.Store.Types.{Time}

pub record Pooled : Type 0 where
  pub last : Time
  pub hits : ℕ
  pub warmed_at : Time
  pub permits : ℕ
  pub closed : Bool

pub record WarmPool : Type 0 where
  pub warm_count : ℕ
  pub concurrency : ℕ
  pub pooled : ℕ → Pooled
  pub next : ℕ
  pub hot : List (String × ℕ)

pub record PoolStats : Type 0 where
  pub function : String
  pub hits : ℕ
  pub last_hit : Time
  pub warmed_at : Time

abbrev pub default_warm_instances : ℕ
default_warm_instances = 2

unfoldable pub new_pooled : Time → Pooled
new_pooled now = record { last = now; hits = 0; warmed_at = 0; permits = 0; closed = false }

-- `NewWarmPoolWith`; 0 stands for every number that is not positive
unfoldable pub new_warm_pool_with : ℕ → ℕ → WarmPool
unfolding new_pooled
new_warm_pool_with warm_instances concurrency = record {
  warm_count = warm_instances;
  concurrency = if concurrency == 0 then 32 else concurrency;
  pooled = λ p. new_pooled 0;
  next = 0;
  hot = [];
}

-- `NewWarmPool`
unfoldable pub new_warm_pool : WarmPool
unfolding new_warm_pool_with
new_warm_pool = new_warm_pool_with default_warm_instances 32

-- `close(old.concurrency)`, where there is an old entry
unfoldable pub close_old : Option ℕ → (ℕ → Pooled) → ℕ → Pooled
close_old none pooled = pooled
close_old (some p) pooled = set_at p (record (pooled p) { closed = true }) pooled

unfoldable pub pool_replaced : Time → String → WarmPool → WarmPool
unfolding close_old new_pooled
pool_replaced now key s = record s {
  pooled = set_at s.next (new_pooled now) (close_old (lookup key s.hot) s.pooled);
  next = s.next + 1;
  hot = insert key s.next s.hot;
}

-- `Deploy`, but for the invocations that warm the runtime
unfoldable pub pool_deploy : Option Error → Time → String → WarmPool → WarmPool × Option Error
unfolding pool_replaced
pool_deploy (some e) now key s = (s, some e)
pool_deploy none now key s = (pool_replaced now key s, none)

unfoldable pub warmed_found : Time → Option ℕ → WarmPool → WarmPool
warmed_found now none s = s
warmed_found now (some p) s = record s {
  pooled = set_at p (record (s.pooled p) { warmed_at = now }) s.pooled;
}

-- the end of the goroutine of `Deploy`
unfoldable pub pool_warmed : Time → String → WarmPool → WarmPool
unfolding warmed_found
pool_warmed now key s = warmed_found now (lookup key s.hot) s

-- `Remove`, before the call of the inner runtime
unfoldable pub pool_remove : String → WarmPool → WarmPool
unfolding close_old
pool_remove key s = record s {
  pooled = close_old (lookup key s.hot) s.pooled;
  hot = remove key s.hot;
}

unfoldable pub permitted : Time → Pooled → Pooled
permitted now e = record e { last = now; hits = (e.hits + 1) % 2 ^ 64; permits = e.permits + 1 }

-- The select of `Invoke` on an entry: the context's error where that case is taken, `none` while
-- the channel is full. A send on a closed channel panics.
unfoldable pub pool_enter : Option Error → Time → ℕ → WarmPool → Result (Option WarmPool)
unfolding permitted
pool_enter (some e) now p s = err e
pool_enter none now p s =
    if (s.pooled p).closed
    then err panicked
    else if ltb (s.pooled p).permits s.concurrency
    then ok (some (record s { pooled = set_at p (permitted now (s.pooled p)) s.pooled }))
    else ok none

-- the deferred receive of `Invoke`
unfoldable pub pool_leave : ℕ → WarmPool → WarmPool
pool_leave p s = record s {
  pooled = set_at p (record (s.pooled p) { permits = (s.pooled p).permits - 1 }) s.pooled;
}

unfoldable pub stats_of : WarmPool → String × ℕ → PoolStats
stats_of s (key, p) = record {
  function = key;
  hits = (s.pooled p).hits;
  last_hit = (s.pooled p).last;
  warmed_at = (s.pooled p).warmed_at;
}

-- `Stats`
unfoldable pub pool_stats : WarmPool → List PoolStats
unfolding stats_of
pool_stats s = map (stats_of s) s.hot

-- One step of a deployment, a removal or an invocation.
pub data PoolStep (s : WarmPool) : WarmPool → Type 0 where
  deploying : (now : Time) (key : String) → PoolStep s (pool_replaced now key s)
  warming : (now : Time) (key : String) → PoolStep s (pool_warmed now key s)
  removing : (key : String) → PoolStep s (pool_remove key s)
  entering :
      (now : Time) (p : ℕ) (t : WarmPool) → pool_enter none now p s ≡ ok (some t) → PoolStep s t
  going : (p : ℕ) → PoolStep s (pool_leave p s)

pub data PoolReached (warm concurrency : ℕ) : WarmPool → Type 0 where
  made : PoolReached warm concurrency (new_warm_pool_with warm concurrency)
  stepped :
      {s t : WarmPool}
      → PoolReached warm concurrency s
      → PoolStep s t
      → PoolReached warm concurrency t
