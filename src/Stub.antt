-- ===== src/Stub.antt =====
-- internal/runtime/container/stub.go: the runtime in memory. `itoa` prints a number.
use selfcloud.Base.{
  ℕ, ◌+◌, ◌%◌, String, ◌<>◌, Option, none, some, List, [], map, lookup, insert, remove,
}
use selfcloud.Store.Types.{Time, Container, ContainerStatus, phase_running, phase_stopped}
use selfcloud.Reconcile.State.{container_key}

pub record StubRuntime : Type 0 where
  pub state : List (String × ContainerStatus)
  pub logs : List (String × String)
  pub next_ip : ℕ  -- a byte

-- `NewStub`
abbrev pub new_stub : StubRuntime
new_stub = record { state = []; logs = []; next_ip = 2 }

unfoldable pub started_status : (ℕ → String) → Time → Container → ℕ → ContainerStatus
started_status itoa now c ip = record {
  status = record {
    phase = phase_running;
    note = "started by stub runtime";
    node_id = "";
    updated_at = now;
  };
  containerd_id = "stub-" <> c.meta.uid;
  started_at = now;
  exit_code = 0;
  ip_address = "10.42.0." <> itoa ip;
  image = c.image;
}

unfoldable pub started_line : Container → String
started_line c = "[stub] container " <> c.meta.name <> " started with image " <> c.image <> "\n"

-- `Start`
unfoldable pub stub_start :
    (ℕ → String) → Time → Container → StubRuntime → StubRuntime × ContainerStatus
unfolding started_status started_line container_key
stub_start itoa now c s =
    let st = started_status itoa now c s.next_ip in
    (
      record {
        state = insert (container_key c) st s.state;
        logs = insert (container_key c) (started_line c) s.logs;
        next_ip = (s.next_ip + 1) % 256;
      },
      st,
    )

unfoldable pub stopped_status : Time → ContainerStatus → ContainerStatus
stopped_status now st = record st {
  status = record (st.status) { phase = phase_stopped; updated_at = now };
}

unfoldable pub stub_stopped : Time → String → Option ContainerStatus → StubRuntime → StubRuntime
unfolding stopped_status
stub_stopped now key none s = s
stub_stopped now key (some st) s = record s { state = insert key (stopped_status now st) s.state }

-- `Stop`
unfoldable pub stub_stop : Time → Container → StubRuntime → StubRuntime
unfolding stub_stopped container_key
stub_stop now c s = stub_stopped now (container_key c) (lookup (container_key c) s.state) s

-- `Remove`
unfoldable pub stub_remove : Container → StubRuntime → StubRuntime
unfolding container_key
stub_remove c s = record s {
  state = remove (container_key c) s.state;
  logs = remove (container_key c) s.logs;
}

unfoldable pub log_or_empty : Option String → String
log_or_empty none = ""
log_or_empty (some text) = text

-- `Logs`
unfoldable pub stub_logs : Container → StubRuntime → String
unfolding log_or_empty container_key
stub_logs c s = log_or_empty (lookup (container_key c) s.logs)

-- `List`
unfoldable pub stub_list : StubRuntime → List String
stub_list s = map (λ e. e.0) s.state
