-- ===== src/Auth/Bootstrap.antt =====
-- internal/auth/auth.go: the bootstrap token. `hash` is `HashToken`, and what `GenerateToken`
-- returns is an argument.
use selfcloud.Base.{
  String, Bool, true, false, Option, none, some, str_eq, Error, invalid_credentials, Result, ok,
  err, if◌then◌else◌,
}
use selfcloud.Store.Types.{Time, ClusterConfig}
use selfcloud.Store.Deps.{Deps}
use selfcloud.Store.Core.{Store}
use selfcloud.Store.Typed.{get_cluster, put_cluster}

-- the store and the error after a write, without the value
abbrev pub forget_value {ℓ} : {S : Type ℓ} {A : Type 0} → S × A × Option Error → S × Option Error
forget_value w = (w.0, w.2)

-- the test that `VerifyBootstrapToken` and `ConsumeBootstrapToken` share
unfoldable pub accepts : (String → String) → ClusterConfig → String → Bool
accepts hash cfg plain =
    if str_eq cfg.bootstrap_token ""
    then false
    else if str_eq (hash plain) cfg.bootstrap_token
    then true
    else false

module _ {d : Deps} (hash : String → String) where
  unfoldable pub create_with :
      Store d → Time → String → Result ClusterConfig → Store d × Result String
  create_with s now plain (err e) = (s, err e)
  create_with s now plain (ok cfg) =
      let (s', c, e) = put_cluster s now (record cfg { bootstrap_token = hash plain }) in
      (s', elim e [ none ↦ ok plain | some x ↦ err x ])

  -- `CreateBootstrapToken`; `generated` is the result of `GenerateToken`
  unfoldable pub create_bootstrap_token : Store d → Time → Result String → Store d × Result String
  unfolding create_with
  create_bootstrap_token s now (err e) = (s, err e)
  create_bootstrap_token s now (ok plain) = create_with s now plain (get_cluster s)

  unfoldable pub verify_bootstrap_token : Store d → String → Option Error
  unfolding accepts
  verify_bootstrap_token s plain = elim (get_cluster s) [
    | err e ↦ some e
    | ok cfg ↦ if accepts hash cfg plain then none else some invalid_credentials
  ]

  unfoldable pub consume_with :
      Store d → Time → String → Result ClusterConfig → Store d × Option Error
  unfolding accepts
  consume_with s now plain (err e) = (s, some e)
  consume_with s now plain (ok cfg) =
      if accepts hash cfg plain
      then forget_value
          (put_cluster s now (record cfg { bootstrap_token = ""; initialized = true }))
      else (s, some invalid_credentials)

  unfoldable pub consume_bootstrap_token : Store d → Time → String → Store d × Option Error
  unfolding consume_with
  consume_bootstrap_token s now plain = consume_with s now plain (get_cluster s)
