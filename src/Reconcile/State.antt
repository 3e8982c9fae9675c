-- ===== src/Reconcile/State.antt =====
-- internal/runtime/container/reconcile.go: the state of the reconciler, and what it calls.
use selfcloud.Base.{
  ℕ, ◌*◌, ◌-◌, String, ◌<>◌, Bool, true, false, Option, none, some, List, lookup, insert, remove,
  ltb, Error, Result, if◌then◌else◌,
}
use selfcloud.Store.Types.{
  Time, StringMap, Container, ContainerStatus, RestartPolicy, restart_always, restart_on_failure,
  EventRecord,
}
use selfcloud.Store.Deps.{Deps}
use selfcloud.Store.Core.{Store}

-- durations, in nanoseconds
abbrev pub second : ℕ
second = 1_000_000_000

abbrev pub five_minutes : ℕ
five_minutes = 300 * second

-- `reconcileState`
pub record ReconcileState : Type 0 where
  pub last_attempt : Time
  pub next_attempt : Time
  pub last_alive_check : Time
  pub attempts : ℕ
  pub last_gen : ℕ
  pub started_ok : Bool

-- `&reconcileState{}`
abbrev pub fresh_state : ReconcileState
fresh_state = record {
  last_attempt = 0;
  next_attempt = 0;
  last_alive_check = 0;
  attempts = 0;
  last_gen = 0;
  started_ok = false;
}

pub record PortPublish : Type 0 where
  pub host : ℕ
  pub container : ℕ
  pub protocol : String
  pub ip_address : String

-- A secret file that is staged for a mount: the path in the container, and the plaintext.
pub record StagedFile : Type 0 where
  pub mount_path : String
  pub plaintext : String

-- What the reconciler has: the store, its in-memory states, and, in order, its calls of the
-- runtime's `Start`, of the event bus, of the network manager, and of the staging of files.
pub record World (d : Deps) : Type 0 where
  pub store : Store d
  pub states : List (String × ReconcileState)
  pub starts : List Container
  pub emitted : List EventRecord
  pub published : List PortPublish
  pub staged : List StagedFile

-- `SecretResolver`
pub record SecretResolver : Type 0 where
  pub resolve : String → StringMap → Result StringMap
  pub reveal : String → String → Result String

-- What a call of `reconcileOne` meets: the answers of the runtime (`is_running` is `none` without
-- the liveness hook), the texts of its errors, whether the optional parts are wired, and the clock.
pub record Surroundings : Type 0 where
  pub start : Container → Result ContainerStatus
  pub is_running : Option (Container → Result Bool)
  pub error_text : Error → String
  pub itoa : ℕ → String
  pub secrets : Option SecretResolver
  pub has_bus : Bool
  pub has_net : Bool
  pub now : Time

-- `get` and `forget`; `get` adds a fresh state where there is none
unfoldable pub state_or_fresh : Option ReconcileState → ReconcileState
state_or_fresh none = fresh_state
state_or_fresh (some st) = st

unfoldable pub container_key : Container → String
container_key c = (c.meta.project <> "/") <> c.meta.name

module _ {d : Deps} where
  unfoldable pub state_of : World d → String → ReconcileState
  unfolding state_or_fresh
  state_of w key = state_or_fresh (lookup key w.states)

  unfoldable pub set_state : World d → String → ReconcileState → World d
  set_state w key st = record w { states = insert key st w.states }

  unfoldable pub forget : World d → String → World d
  forget w key = record w { states = remove key w.states }

-- the loop of the exponential backoff, with the rounds that are left
unfoldable pub backoff_loop : ℕ → ℕ → ℕ
backoff_loop ℕ.zero backoff = backoff
backoff_loop (ℕ.suc rounds) backoff =
    let longer = backoff_loop rounds (backoff * 2) in
    if ltb backoff five_minutes then longer else backoff

-- 5s, 10s, 20s, 40s, ... capped at 5min
unfoldable pub backoff_after : ℕ → ℕ
unfolding backoff_loop
backoff_after attempts =
    let backoff = backoff_loop (attempts - 1) (5 * second) in
    if ltb five_minutes backoff then five_minutes else backoff

unfoldable pub should_restart : RestartPolicy → Bool
should_restart restart_always = true
should_restart restart_on_failure = true
should_restart _ = false

-- `now.Sub(st.lastAliveCheck) > 8*time.Second`
unfoldable pub should_verify_alive : ReconcileState → Time → Bool
should_verify_alive st now = ltb (8 * second) (now - st.last_alive_check)

unfoldable pub alive_answer : Result Bool → Bool
alive_answer (Result.ok alive) = alive
alive_answer (Result.err e) = true

unfoldable pub is_running : Surroundings → Container → Bool
unfolding alive_answer
is_running env c = elim env.is_running [ none ↦ true | some hook ↦ alive_answer (hook c) ]
