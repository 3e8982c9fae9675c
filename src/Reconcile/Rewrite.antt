-- ===== src/Reconcile/Rewrite.antt =====
-- What the reconciler of internal/runtime/container/reconcile.go does on the event of its own write.
use selfcloud.Base.{
  String, ◌≡◌, refl, sym, ap, ◌∙◌, true, false, ◌&&◌, Option, none, [], ◌∷◌, ◌++◌, arith, str_eq,
  str_eq_refl, ltb, Error, ok,
}
use selfcloud.Store.Types.{
  Container, ContainerStatus, kind_container, phase_eq, phase_running, phase_failed, Event,
}
use selfcloud.Store.Deps.{Deps, container_scoped}
use selfcloud.Store.Core.{Store}
use selfcloud.Store.Scoped.{Mint, next_generation, default_project, mint_meta}
use selfcloud.Store.RoundTrip.{minted, put_event, get-put_scoped}
use selfcloud.Store.Typed.{put_container, get_container}
use selfcloud.Reconcile.State.{
  ReconcileState, World, Surroundings, container_key, state_of, set_state,
}
use selfcloud.Reconcile.Step.{prepare, persist}
use selfcloud.Reconcile.One.{
  is_skipped, is_settled, has_changed, start_succeeded, conclude, attempt, reconcile_one,
}
use selfcloud.Reconcile.Run.{Turn, on_event, is_container, on_op, on_put, handle}
use selfcloud.Reconcile.Quiet.{kept_parts, attempt_lem}
use selfcloud.Reconcile.Again.{attempt-starts, written_unsettled}

-- what a successful start writes
abbrev pub observed : Surroundings → String → Container → ContainerStatus → Container
observed env node c out = record (prepare env c).kept { status = out; node_id = node }

minted_parts :
    (mt : Mint) (c : Container)
    → str_eq c.meta.project "" ≡ false
    → (container_key (minted container_scoped mt c) ≡ container_key c)
      × ((minted container_scoped mt c).meta.generation ≡ next_generation c.meta.generation)
unfolding container_key default_project mint_meta
minted_parts mt c named = ground (arith, named)

observed_key :
    (env : Surroundings) (node : String) (c : Container) (out : ContainerStatus)
    → container_key (observed env node c out) ≡ container_key c
unfolding container_key
observed_key env node c out = rw (kept_parts env c).0 refl

module _ {d : Deps} where
  written_store :
      (env : Surroundings) (mt : Mint) (node : String) (c c' : Container) (key : String)
      (st : ReconcileState) (w : World d) (s' : Store d) (out : ContainerStatus)
      → env.start (prepare env c).work ≡ ok out
      → has_changed (prepare env c).kept out node ≡ true
      → put_container w.store mt (observed env node c out) ≡ (s', c', none)
      → (attempt env mt node c key st w).store ≡ s'
  unfolding attempt conclude start_succeeded persist set_state
  written_store env mt node c c' key st w s' out starts changed written =
      rw (starts, changed) (ap (λ (x : Store d × Container × Option Error). x.0) written)

  -- a container that runs on this node is started when its state is not that of its generation
  unsettled_starts :
      (env : Surroundings) (mt : Mint) (node : String) (c : Container) (w : World d)
      → c.node_id ≡ node
      → c.status.status.phase ≡ phase_running
      → is_settled c (state_of w (container_key c)) ≡ false
      → (reconcile_one env mt node c w).starts ≡ w.starts ++ (prepare env c).work ∷ []
  unfolding is_skipped phase_eq
  unsettled_starts env mt node c w here running unsettled =
      rw
        (attempt_lem env mt node c w (simp (here, running) (rw str_eq_refl (ground arith)))
          unsettled (simp running (ground arith)))
        (attempt-starts env mt node c (container_key c) (state_of w (container_key c)) w)

  on_put_lem :
      (turn : Turn) (node : String) (ev : Event) (c : Container) (w : World d)
      → get_container w.store ev.project ev.name ≡ ok c
      → on_put node turn ev w ≡ reconcile_one turn.env turn.mint node c w
  unfolding on_put
  on_put_lem turn node ev c w read = rw (read, on_put) refl

  -- the event of a write has the reconciler read the container and act on it
  handle_put :
      (turn : Turn) (mt : Mint) (node : String) (c c' : Container) (w : World d)
      → c' ≡ minted container_scoped mt c
      → get_container w.store c'.meta.project c'.meta.name ≡ ok c'
      → handle node w (on_event turn (put_event container_scoped kind_container mt c))
        ≡ reconcile_one turn.env turn.mint node c' w
  unfolding handle on_op is_container
  handle_put turn mt node c c' w same read =
      on_put_lem turn node (put_event container_scoped kind_container mt c) c' w
        (ap (λ (x : Container). get_container w.store x.meta.project x.meta.name) (sym same) ∙ read)

  -- after the start the state is that of the generation before the write
  attempt_unsettled :
      (env : Surroundings) (mt : Mint) (node : String) (c c' : Container) (key : String)
      (st : ReconcileState) (w : World d) (out : ContainerStatus)
      → env.start (prepare env c).work ≡ ok out
      → c'.meta.generation ≡ next_generation (prepare env c).kept.meta.generation
      → is_settled c' (state_of (attempt env mt node c key st w) key) ≡ false
  unfolding attempt conclude
  attempt_unsettled env mt node c c' key st w out starts next = rw starts (
      written_unsettled env mt node (prepare env c).kept key (record st { last_attempt = env.now })
        out _ c' next)

  -- Let a container of this node, in a project, be due and not settled, and its start succeed with
  -- an observation that it runs and that is worth a write. When that write succeeds and the
  -- database can be read, the reconciler starts the container a second time on the event of its
  -- own write, since the write has raised the generation.
  pub starts_again :
      (env : Surroundings) (turn : Turn) (mt : Mint) (node : String) (c c' : Container)
      (w : World d) (s' : Store d) (out : ContainerStatus)
      → is_skipped node c ≡ false
      → is_settled c (state_of w (container_key c)) ≡ false
      → phase_eq c.status.status.phase phase_failed
          && ltb env.now (state_of w (container_key c)).next_attempt
        ≡ false
      → str_eq c.meta.project "" ≡ false
      → env.start (prepare env c).work ≡ ok out
      → out.status.phase ≡ phase_running
      → has_changed (prepare env c).kept out node ≡ true
      → put_container w.store mt (observed env node c out) ≡ (s', c', none)
      → d.bolt.begin_error s'.db ≡ none
      → (handle node (reconcile_one env mt node c w) (
          on_event turn
            (put_event container_scoped kind_container mt (observed env node c out)))).starts
        ≡ (w.starts ++ (prepare env c).work ∷ []) ++ (prepare turn.env c').work ∷ []
  unfolding get_container put_container
  starts_again env turn mt node c c' w s' out mine unsettled due named starts running changed
        written opens =
      let (same, read) =
        get-put_scoped container_scoped d.container_json w.store s' "containers" kind_container mt
          (observed env node c out) c' written opens in
      let st : ReconcileState = record (state_of w (container_key c)) { last_attempt = env.now } in
      let (key, next) = minted_parts mt (observed env node c out) (rw (kept_parts env c).0 named) in
      let stored =
        written_store env mt node c c' (container_key c) (state_of w (container_key c)) w s' out
          starts changed written in
      let moved = attempt_lem env mt node c w mine unsettled due in
      let again : is_settled c' (state_of (reconcile_one env mt node c w) (container_key c'))
          ≡ false =
        rw (same, key, observed_key, moved)
          (attempt_unsettled env mt node c (minted container_scoped mt (observed env node c out))
            (container_key c) (state_of w (container_key c)) w out starts next) in
      rw
        (
          handle_put turn mt node (observed env node c out) c' (reconcile_one env mt node c w) same
              (rw (moved, stored) read),
          unsettled_starts turn.env turn.mint node c' (reconcile_one env mt node c w) (rw same refl)
              (rw (same, running) refl) again,
          moved,
          attempt-starts env mt node c (container_key c) (state_of w (container_key c)) w,
        )
        refl
