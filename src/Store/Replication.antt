-- ===== src/Store/Replication.antt =====
-- The replicated writes of internal/store/replicated_store.go against the local ones, and the
-- replicas of internal/store/fsm.go against one another.
use selfcloud.Base.{
  String, ◌≡◌, refl, sym, ◌∙◌, true, false, none, some, arith, not_leader, Result, ok, err, str_eq,
  str_eq_iff, Bool-cases, Result-cases, inl, inr, if◌then◌else◌,
}
use selfcloud.Store.Types.{Kind, Meta, Event, op_put}
use selfcloud.Store.Deps.{Deps, Json, ProjectScoped, LogOp}
use selfcloud.Store.Core.{Store, key_for, put_raw, put}
use selfcloud.Store.Scoped.{Mint, Written, default_project, mint_meta, written, put_scoped}
use selfcloud.Store.Fsm.{decode_kind, has_kind, ok_value, applied, apply, apply_log}
use selfcloud.Store.RoundTrip.{unnamed}
use selfcloud.Store.Replicated.{
  RaftView, should_replicate, is_leader, raft_apply, put_op, ship, leader_put, apply_typed_put,
}

default_project_idem :
    (m : Meta)
    → default_project "default" (default_project "default" m) ≡ default_project "default" m
unfolding default_project
default_project_idem m = ground (arith, str_eq_iff "default" "")

module _ {d : Deps} where
  written-eq-applied :
      {A : Type 0} (s : Store d) (v : A) (ev : Event) (r : Result (Store d))
      → written s v ev r ≡ ((applied s ev r).0, v, (applied s ev r).1)
  unfolding written applied
  written-eq-applied s v ev (ok t) = refl
  written-eq-applied s v ev (err e) = refl

module _ {d : Deps} {A : Type 0} (sc : ProjectScoped A) (json : Json d A) (s : Store d)
    (bucket : String) (kind : Kind) (mt : Mint) where
  -- `putScoped` in terms of the metadata before minting, and the value with and without it
  outcome : Meta → A → A → Written d A
  outcome m unminted done =
      if str_eq m.name ""
      then (s, unminted, some unnamed)
      else written s done
          (record {
            kind = kind;
            op = op_put;
            project = (mint_meta mt m).project;
            name = (mint_meta mt m).name;
            value = some (sc.wrap done);
          })
          (put s json bucket (key_for (mint_meta mt m).project (mint_meta mt m).name) done)

module _ {d : Deps} {A : Type 0} (sc : ProjectScoped A) (json : Json d A) (s : Store d)
    (bucket : String) (kind : Kind) (mt : Mint) where
  put_scoped-eq-outcome :
      (v : A)
      → let m = default_project "default" (sc.get_meta v) in
        put_scoped s sc json bucket kind mt v
        ≡ outcome sc json s bucket kind mt m (sc.with_meta v m) (sc.with_meta v (mint_meta mt m))
  unfolding put_scoped outcome
  put_scoped-eq-outcome v = refl

  -- the project was filled in already
  put_scoped-named :
      (v : A)
      → put_scoped s sc json bucket kind mt
          (sc.with_meta v (default_project "default" (sc.get_meta v)))
        ≡ put_scoped s sc json bucket kind mt v
  put_scoped-named v =
      let m = default_project "default" (sc.get_meta v) in
      let w = sc.with_meta v m in
      cc (
        put_scoped-eq-outcome v,
        put_scoped-eq-outcome w,
        sc.get_meta-with_meta v m,
        default_project_idem (sc.get_meta v),
        sc.with_meta-with_meta v m m,
        sc.with_meta-with_meta v m (mint_meta mt m),
      )

-- the event of `FSM.apply` for a put
put_event_of : (d : Deps) → Kind → String → String → d.Raw → Event
put_event_of d kind project name raw = record {
  kind = kind;
  op = op_put;
  project = project;
  name = name;
  value = if has_kind kind then ok_value (decode_kind d kind raw) else none;
}

module _ {d : Deps} (s : Store d) (r : RaftView) (bucket : String) (kind : Kind)
    (project name : String) (raw entry : d.Raw) where
  raft_apply-put :
      r.leader ≡ true
      → r.commit_error ≡ none
      → d.log_json.marshal (put_op bucket kind project name raw) ≡ ok entry
      → d.compact raw ≡ ok raw
      → raft_apply (some r) (put_op bucket kind project name raw) s
        ≡ applied s
            (put_event_of d kind project name raw)
            (put_raw s bucket (key_for project name) raw)
  unfolding raft_apply apply_log apply put_event_of put_op put_raw
  raft_apply-put leads commits m c = rw (
    leads,
    m,
    commits,
    d.log_json.unmarshal-marshal (put_op bucket kind project name raw) entry m,
    c,
  )

-- What the raft library answers when this node leads, its entries commit, and the log encodes.
pub record Leads (d : Deps) (r : RaftView) : Type 0 where
  pub leads : r.leader ≡ true
  pub commits : r.commit_error ≡ none
  pub encodes : (op : LogOp d.Raw) → (entry : d.Raw) × (d.log_json.marshal op ≡ ok entry)

module _ (d : Deps) {A : Type 0} (sc : ProjectScoped A) (json : Json d A) where
  -- A kind whose bytes decode to the value that `Event.Value` has after a local write.
  pub record Decodes (kind : Kind) : Type 0 where
    pub kinded : has_kind kind ≡ true
    pub decodes :
        (v : A) (raw : d.Raw) → json.marshal v ≡ ok raw → decode_kind d kind raw ≡ ok (sc.wrap v)

module _ {d : Deps} {A : Type 0} (sc : ProjectScoped A) (json : Json d A) (s : Store d)
    (r : RaftView) (bucket : String) (kind : Kind) (on : Leads d r)
    (known : Decodes d sc json kind) where
  event_known :
      (project name : String) (v : A) (raw : d.Raw)
      → json.marshal v ≡ ok raw
      → put_event_of d kind project name raw ≡ record {
        kind = kind;
        op = op_put;
        project = project;
        name = name;
        value = some (sc.wrap v);
      }
  unfolding put_event_of ok_value
  event_known project name v raw m = rw (known.kinded, known.decodes v raw m)

  shipped :
      (project name : String) (v : A) (raw : d.Raw)
      → json.marshal v ≡ ok raw
      → ship (some r) bucket kind project name v (ok raw) s
        ≡ written s v
            (record {
              kind = kind;
              op = op_put;
              project = project;
              name = name;
              value = some (sc.wrap v);
            })
            (put_raw s bucket (key_for project name) raw)
  unfolding ship
  shipped project name v raw m =
      let (entry, e) = on.encodes (put_op bucket kind project name raw) in
      let applied_here =
        raft_apply-put s r bucket kind project name raw entry on.leads on.commits e
          (json.compact-marshal v raw m) in
      rw (applied_here, event_known project name v raw m)
        (sym (written-eq-applied s v _ (put_raw s bucket (key_for project name) raw)))

  ship-eq-written :
      (project name : String) (v : A)
      → ship (some r) bucket kind project name v (json.marshal v) s
        ≡ written s v
            (record {
              kind = kind;
              op = op_put;
              project = project;
              name = name;
              value = some (sc.wrap v);
            })
            (put s json bucket (key_for project name) v)
  ship-eq-written project name v = elim (Result-cases (json.marshal v)) [
    | inl (raw, m) ↦ unfold put in rw m (shipped project name v raw m)
    | inr (e, m) ↦ unfold put ship written in rw m
  ]

  leader_put-eq-outcome :
      (mt : Mint) (v : A)
      → let m = default_project "default" (sc.get_meta v) in
        (str_eq m.name "" ≡ false)
        → leader_put s (some r) sc json bucket kind mt m (sc.with_meta v m)
          ≡ outcome sc json s bucket kind mt m (sc.with_meta v m) (sc.with_meta v (mint_meta mt m))
  unfolding leader_put outcome
  leader_put-eq-outcome mt v named = rw (named, sc.with_meta-with_meta) (ship-eq-written _ _ _)

  apply_typed_put_lem :
      (mt : Mint) (v : A)
      → let m = default_project "default" (sc.get_meta v) in
        apply_typed_put s (some r) sc json bucket kind mt v ≡ (
          if str_eq m.name ""
          then (s, sc.with_meta v m, some unnamed)
          else if should_replicate (some r)
          then if r.leader
            then leader_put s (some r) sc json bucket kind mt m (sc.with_meta v m)
            else (s, sc.with_meta v m, some not_leader)
          else put_scoped s sc json bucket kind mt (sc.with_meta v m))
  unfolding apply_typed_put is_leader
  apply_typed_put_lem mt v = refl

  -- When this node leads, entries encode and commit, and values of the kind decode to themselves,
  -- a replicated put does to the store what the local `putScoped` does, error results included,
  -- and emits the same event.
  pub apply_typed_put-eq-put_scoped :
      (mt : Mint) (v : A)
      → apply_typed_put s (some r) sc json bucket kind mt v ≡ put_scoped s sc json bucket kind mt v
  apply_typed_put-eq-put_scoped mt v =
      let m = default_project "default" (sc.get_meta v) in
      rw apply_typed_put_lem (elim (Bool-cases (str_eq m.name "")) [
        | inl e ↦ rw (e, put_scoped-eq-outcome) (unfold outcome in rw e)
        | inr named ↦ elim (Bool-cases (should_replicate (some r))) [
          | inl several ↦
              rw (named, several)
                (simp on.leads (
                  leader_put-eq-outcome mt v named
                  ∙ sym (put_scoped-eq-outcome sc json s bucket kind mt v)))
          | inr alone ↦ rw (named, alone) (put_scoped-named sc json s bucket kind mt v)
        ]
      ])
