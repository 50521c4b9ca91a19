-- ===== src/Upgrade/Migrated.antt =====
-- migrateBrokerSecret of cmd/subctl/upgrade.go: the broker's secret is copied before it is deleted.
use subctl.Base.{
  String, String_eq, ◌==◌, not, ◌||◌, ◌≡◌, ◌≢◌, refl, sym, subst, Bool, true, false, List, [], ◌∷◌,
  All, if◌then◌else◌, codes, has_prefix,
}
use subctl.Base.Effect.{
  Error, Result, ok, err, Event, Log, Run, pure, ask, bind_from, case_from, errored, fail, wrap,
  or_wrap, ◌>>=◌, ◌>>◌, on_error, is_not_found, call, remote, Verb, Resource, delete, get, replace,
  secret, or_report, report_error,
}
use subctl.Base.Keep.{Keeps, keeping, Adds-All, Keeps-ask}
use subctl.Kube.{Secret, request_secret, event}
use subctl.Broker.{ensure_secret}
use subctl.Join.{local_client_broker_secret_name}
use subctl.Operator.{operator_namespace}
use subctl.Upgrade.{Site, copy_secret, migrate_broker_secret}

-- The call may delete something that is not the secret with the broker's new name: CreateAnew deletes what
-- it finds under the name before it creates the object.
abbrev pub may_delete : Resource → String → String → Bool
may_delete secret ns n =
    not (ns == operator_namespace) || not (n == local_client_broker_secret_name)
may_delete _ ns n = true

abbrev pub is_deletion : Event → Bool
is_deletion (call delete r ns n) = true
is_deletion (remote delete r ns n) = true
is_deletion (call replace r ns n) = may_delete r ns n
is_deletion (remote replace r ns n) = may_delete r ns n
is_deletion _ = false

abbrev pub IsKept : Event → Type 0
IsKept e = is_deletion e ≡ false

-- The API server does not store a new secret.
abbrev pub RefusesSecrets : Site → Type 0
RefusesSecrets w =
    (s : Secret) (log : Log)
    → (x : Error) × (w.client.replace_secret s operator_namespace log ≡ err x)

module _ (w : Site) (refuses : RefusesSecrets w) where
  event-IsKept :
      (b : Bool) (n : String)
      → is_deletion (
          if b
          then remote get secret operator_namespace n
          else call get secret operator_namespace n)
        ≡ false
  event-IsKept true n = refl
  event-IsKept false n = refl

  replace-IsKept :
      (b : Bool)
      → is_deletion (
          if b
          then remote replace secret operator_namespace local_client_broker_secret_name
          else call replace secret operator_namespace local_client_broker_secret_name)
        ≡ false
  replace-IsKept true = refl
  replace-IsKept false = refl

  new_of : Secret → Secret
  new_of old = record old { secret_name = local_client_broker_secret_name; annotations = [] }

  copy_refused :
      (old : Secret) (log : Log) (x : Error)
      → w.client.replace_secret (new_of old) operator_namespace log ≡ err x
      → (copy_secret w old log).1
        ≡ errored "Error creating Broker secret %q" (local_client_broker_secret_name ∷ [])
          ∷ (event w.client replace secret operator_namespace local_client_broker_secret_name ∷ log)
  unfolding copy_secret ensure_secret or_report or_wrap on_error report_error ◌>>=◌ ask pure fail
      subctl.Base.Effect.emit new_of
  copy_refused old log x h = rw h refl

  copy_secret-Keeps : (old : Secret) → Keeps (All IsKept) (copy_secret w old)
  copy_secret-Keeps old = record {
    run = λ log q.
        let x = refuses (new_of old) log in
        rw (copy_refused old log x.0 x.1) (refl, (replace-IsKept w.client.remote_cluster, q));
  }

  request_secret-Keeps :
      (n : String) → Keeps (All IsKept) (request_secret w.client get secret operator_namespace n)
  unfolding request_secret
  request_secret-Keeps n =
      Keeps-ask (All IsKept) _ _ (Adds-All IsKept _ (event-IsKept w.client.remote_cluster n))

  -- Where the API server refuses to store any new secret, migrateBrokerSecret asks for no
  -- deletion, and for the replacement (a deletion and a creation) of no object but the secret with the new
  -- name: every other secret, the old broker secret among them, is kept.
  pub migrate_broker_secret-Keeps :
      (from : String) → Keeps (All IsKept) (migrate_broker_secret w from)
  unfolding migrate_broker_secret
  migrate_broker_secret-Keeps from =
      search (keeping, request_secret-Keeps, copy_secret-Keeps) depth 20
