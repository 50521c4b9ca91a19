-- ===== src/Join/Refused.antt =====
-- When pkg/join/join.go refuses to join a cluster, it has changed neither cluster.
use subctl.Base.{
  String, Text, ◌≡◌, ◌≢◌, refl, sym, ◌∙◌, Bool, true, false, List, [], ◌∷◌, All, Text_eq,
}
use subctl.Base.Effect.{
  Error, Result, ok, err, Event, call, remote, Verb, Resource, get, cluster, Log, is_not_found,
  lift, Run,
}
use subctl.Base.Keep.{Keeps, keeping, Adds, Adds-All, Keeps-bind, Keeps-deferring_end}
use subctl.Base.Ensure.{
  Ensures, Any, Ensures-pure, Ensures-fail, Ensures-bind, Ensures-then, Ensures-if, Ensures-or_wrap,
  Ensures-or_report, Ensures-deferring_end,
}
use subctl.Base.Results.{
  Ensures-map, Ensures-on_error_known, Ensures-on_error_failing, Ensures-ask_known,
  Ensures-bind_known, Ensures-lift, Keeps-bind_yields,
}
use subctl.Cluster.Overrides.{Overrides}
use subctl.Kube.{Client, event, data_of, request}
use subctl.Broker.Info.{
  Info, RestConfig, Connection, get_and_check, get_broker_administrator_config,
}
use subctl.Operator.{operator_namespace}
use subctl.Join.Version.{ℤ, check_version, parse_minor, failed_requirements}
use subctl.Join.{
  World, Options, check_requirements, decide_requirements, ensure_unique_cluster, connect,
  cluster_to_broker,
}

abbrev IsRead : Verb → Type 0
IsRead Verb.get = Unit {0}
IsRead Verb.list = Unit {0}
IsRead _ = ⊥

-- A reporter call, or one that reads from the API of either cluster.
abbrev pub IsReadOnly : Event → Type 0
IsReadOnly (call v r ns n) = IsRead v
IsReadOnly (remote v r ns n) = IsRead v
IsReadOnly _ = Unit {0}

-- An event of a client that reads may join the log.
get-Adds : (c : Client) (r : Resource) (ns n : String) → Adds (All IsReadOnly) (event c get r ns n)
get-Adds c r ns n = Adds-All IsReadOnly _ (of_side c.remote_cluster)
  where
    of_side : (b : Bool) → IsReadOnly (event (record c { remote_cluster = b }) get r ns n)
    of_side true = tt
    of_side false = tt

-- Another cluster's Cluster resource has the ID, and this cluster has none of its own.
pub record IsTaken (w : World) (info : Info) (options : Options) : Type 0 where
  pub missing : Error
  pub is_missing : is_not_found missing ≡ true
  pub local_missing :
      (log : Log)
      → w.local_client.done get cluster operator_namespace options.cluster_id log ≡ err missing
  pub broker_found :
      (config : RestConfig) (log : Log)
      → (w.broker_client config).done get cluster
          (data_of info.client_token "namespace")
          options.cluster_id
          log
        ≡ ok tt

-- The version of the cluster is known, and does not meet the requirements, which count.
pub record IsUnmet (w : World) (info : Info) (options : Options) : Type 0 where
  pub version : Text × Text
  pub major : ℤ
  pub minor : ℤ
  pub served : (log : Log) → w.server log ≡ ok version
  pub major_read : w.atoi version.0 ≡ ok major
  pub minor_read : parse_minor w.atoi w.server version.1 ≡ ok minor
  pub unmet : failed_requirements info.service_discovery_enabled major minor ≢ []
  pub not_ignored : options.ignore_requirements ≡ false

-- Nothing but reads, and no success.
abbrev pub IsRefusal : {A : Type 0} → Run A → Type 0
IsRefusal m = Keeps (All IsReadOnly) m × Ensures Any m (λ _ _. ⊥)

module _ (w : World) (info : Info) (options : Options) where
  decide_requirements-Keeps :
      (b : Bool) (rs : List String) → Keeps (All IsReadOnly) (decide_requirements b rs)
  unfolding decide_requirements
  decide_requirements-Keeps b [] = search keeping depth 20
  decide_requirements-Keeps b (r ∷ rs) = search (keeping, tt) depth 20

  check_requirements-Keeps : (b : Bool) → Keeps (All IsReadOnly) (check_requirements w b info)
  unfolding check_requirements check_version
  check_requirements-Keeps b = search (keeping, decide_requirements-Keeps, tt) depth 20

  get_broker_administrator_config-Keeps :
      (c : Connection) (b : Bool)
      → Keeps (All IsReadOnly) (get_broker_administrator_config c info b)
  unfolding get_broker_administrator_config get_and_check
  get_broker_administrator_config-Keeps c b = search (keeping, tt) depth 20

  ensure_unique_cluster-Keeps :
      (local broker : Client) (ns id : String)
      → Keeps (All IsReadOnly) (ensure_unique_cluster local broker ns id)
  unfolding ensure_unique_cluster request
  ensure_unique_cluster-Keeps local broker ns id = search (keeping, get-Adds, tt) depth 20

  ensure_unique_cluster-never :
      (t : IsTaken w info options) (config : RestConfig)
      → Ensures Any
          (ensure_unique_cluster w.local_client
            (w.broker_client config)
            (data_of info.client_token "namespace")
            options.cluster_id)
          (λ _ _. ⊥)
  unfolding ensure_unique_cluster request
  ensure_unique_cluster-never t config =
      Ensures-on_error_failing _ _ _ t.missing _ _ t.local_missing (
        Ensures-if Any _ (is_not_found t.missing) _ _
          (λ _.
            Ensures-on_error_known _ _ tt (t.broker_found config) _ _ _
              (Ensures-then Any _ _ _ λ _. Ensures-fail Any _ _))
          (λ e. absurd (sym e ∙ t.is_missing)))
    where
      absurd : {A : Type 0} → false ≡ true → A
      absurd h = cc

  connect-Taken :
      (t : IsTaken w info options) (os : Overrides) → IsRefusal (connect w info options os)
  unfolding connect
  connect-Taken t os = (
    Keeps-bind (All IsReadOnly) _ _
        (search (keeping, get_broker_administrator_config-Keeps, tt) depth 20)
        λ config. Keeps-bind (All IsReadOnly) _ _ (search (keeping, tt) depth 20) λ _.
          Keeps-bind_yields (All IsReadOnly) (λ _. ⊥) _ _ (ensure_unique_cluster-Keeps _ _ _ _)
            (ensure_unique_cluster-never t config) (λ _ no. elim no [ ]),
    Ensures-then Any _ _ _ λ config. Ensures-then Any _ _ _ λ _.
        Ensures-bind Any _ (λ _ _. ⊥) _ _ (ensure_unique_cluster-never t config) (λ _. never_run _),
  )
    where
      never_run : {A : Type 0} (m : Run A) → Ensures (λ _. ⊥) m (λ _ _. ⊥)
      never_run m = record { run = λ log no. elim no [ ] }

  -- A join whose cluster ID is taken, as the broker has a Cluster resource of that ID and the joining
  -- cluster has none, returns an error, and all its calls of either API server are reads.
  pub cluster_to_broker-Taken :
      IsTaken w info options → IsRefusal (cluster_to_broker w info options)
  unfolding cluster_to_broker
  cluster_to_broker-Taken t = (
    Keeps-bind (All IsReadOnly) _ _ (check_requirements-Keeps _) λ _.
        Keeps-bind (All IsReadOnly) _ _ (search (keeping, tt) depth 20) λ _.
          Keeps-bind (All IsReadOnly) _ _ (search (keeping, tt) depth 20) λ os.
            Keeps-bind (All IsReadOnly) _ _ (search (keeping, tt) depth 20) λ _.
              Keeps-deferring_end (All IsReadOnly) _ (Adds-All IsReadOnly _ tt)
                ((connect-Taken t os).0),
    Ensures-then Any _ _ _ λ _. Ensures-then Any _ _ _ λ _. Ensures-then Any _ _ _ λ os.
        Ensures-then Any _ _ _
          λ _. Ensures-deferring_end Any _ _ (λ a log no. no) ((connect-Taken t os).1),
  )

  lift_known : {A : Type 0} (r : Result A) (a : A) → r ≡ ok a → Ensures Any (lift r) (λ b _. b ≡ a)
  lift_known {A = A} r a h = Ensures-map Any _ _ _ (λ b log e. same (sym e ∙ h)) (Ensures-lift r)
    where
      same : {b : A} → ok b ≡ ok a → b ≡ a
      same e = cc

  check_version-known :
      (u : IsUnmet w info options)
      → Ensures Any
          (check_version w.atoi w.server info.service_discovery_enabled)
          (λ rs _. rs ≡ failed_requirements info.service_discovery_enabled u.major u.minor)
  unfolding check_version
  check_version-known u =
      Ensures-bind_known Any _ u.version _ _
        (Ensures-or_wrap Any _ _ _ (Ensures-ask_known _ _ u.version u.served))
        (Ensures-bind_known Any _ u.major _ _
          (Ensures-or_wrap Any _ _ _ (lift_known _ u.major u.major_read))
          (Ensures-bind_known Any _ u.minor _ _
            (Ensures-or_wrap Any _ _ _ (lift_known _ u.minor u.minor_read))
            (Ensures-pure Any _ _ (λ log p. refl))))

  decide_requirements-never :
      (b : Bool) (rs : List String)
      → b ≡ false
      → rs ≢ []
      → Ensures Any (decide_requirements b rs) (λ _ _. ⊥)
  unfolding decide_requirements
  decide_requirements-never b [] e h = elim (h refl) [ ]
  decide_requirements-never b (r ∷ rs) e h =
      Ensures-if Any _ b _ _ (λ t. absurd (sym e ∙ t))
        (λ _. Ensures-then Any _ _ _ λ _. Ensures-fail Any _ _)
    where
      absurd : {A : Type 0} → false ≡ true → A
      absurd h = cc

  check_requirements-never :
      (u : IsUnmet w info options)
      → Ensures Any (check_requirements w options.ignore_requirements info) (λ _ _. ⊥)
  unfolding check_requirements
  check_requirements-never u =
      Ensures-bind_known Any _ _ _ _ (Ensures-or_report Any _ _ _ _ (check_version-known u))
        (decide_requirements-never _ _ u.not_ignored u.unmet)

  -- A join of a cluster whose Kubernetes version does not meet the requirements, where they are not to
  -- be ignored, returns an error, and all its calls of either API server are reads.
  pub cluster_to_broker-Unmet :
      IsUnmet w info options → IsRefusal (cluster_to_broker w info options)
  unfolding cluster_to_broker
  cluster_to_broker-Unmet u = (
    Keeps-bind_yields (All IsReadOnly) (λ _. ⊥) _ _ (check_requirements-Keeps _)
        (check_requirements-never u) (λ _ no. elim no [ ]),
    Ensures-bind Any _ (λ _ _. ⊥) _ _ (check_requirements-never u)
        (λ _. record { run = λ log no. elim no [ ] }),
  )
