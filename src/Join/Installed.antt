-- ===== src/Join/Installed.antt =====
-- What the part of pkg/join/join.go after its checks sets up on the joining cluster.
use subctl.Base.{
  String, ◌≡◌, Bool, true, false, List, [], ◌∷◌, ◌++◌, subst, sym, refl, append-nil, if◌then◌else◌,
}
use subctl.Base.Effect.{
  Event, Run, emit, pure, apply, replace, submariner, service_discovery, secret, ◌>>=◌,
}
use subctl.Base.Keep.{Keeps, keeping}
use subctl.Base.Ensure.{Ensures, Any, Ensures-pure, Ensures-if, Ensures-then}
use subctl.Deploy.{
  SubmarinerSpec, CommonSpec, populate_submariner_spec, populate_service_discovery_spec,
}
use subctl.Base.Steps.{Step, for_some, IsDone, answered, Adds-IsDone}
use subctl.Base.Perform.{
  Performs, Performs-ask, Performs-emit, Performs-or_wrap, Performs-or_report, Performs-bind,
  Performs-bind_yields, Performs-none, Performs-pure, Performs-for_some,
}
use subctl.Kube.{Client, Secret, event}
use subctl.Broker.{ensure_secret}
use subctl.Broker.Kept.{create_sa_for_cluster-Keeps}
use subctl.Broker.Info.{Info, is_connectivity_enabled, is_service_discovery_enabled}
use subctl.Cluster.Overrides.{Overrides, RepositoryInfo, new_repository_info}
use subctl.Operator.{operator_namespace}
use subctl.Operator.Complete.{operator_steps, ensure_operator-Performs}
use subctl.Join.{
  World, Options, install, allocate_global, allocate_clusterset, deploy_resource, deploy_submariner,
  deploy_service_discovery, submariner_options_from, service_discovery_options_from,
  local_client_broker_secret_name, populate_broker_secret,
}

-- What the join finds out for the specification of the custom resource: the answers of the API servers,
-- the CIDRs that were allocated, whether the clusterset IP was enabled, and the images.
pub record Found : Type 0 where
  pub token : Secret
  pub broker_secret : Secret
  pub psk : Secret
  pub global : String
  pub clusterset : String
  pub clusterset_ip : Bool
  pub repo : RepositoryInfo

abbrev pub submariner_spec : World → Info → Options → Found → SubmarinerSpec
submariner_spec w info options x =
    populate_submariner_spec w.encode_base64
      (submariner_options_from (record options { enable_clusterset_ip = x.clusterset_ip }))
      (record info { client_token = x.token }) x.broker_secret x.psk x.global x.clusterset x.repo

abbrev pub service_discovery_spec : World → Info → Options → Found → CommonSpec
service_discovery_spec w info options x =
    populate_service_discovery_spec w.encode_base64
      (service_discovery_options_from (record options { enable_clusterset_ip = x.clusterset_ip }))
      (record info { client_token = x.token }) x.broker_secret x.clusterset x.repo

-- The custom resource that the broker's components ask for, with the options given.
abbrev pub resource_steps : World → Info → Options → List Step
resource_steps w info options =
    if is_connectivity_enabled info
    then answered
        (event w.local_client replace secret operator_namespace info.ipsec_psk.secret_name)
        (w.local_client.replace_secret info.ipsec_psk operator_namespace)
      ∷ for_some (λ x.
        answered (event w.local_client replace submariner operator_namespace "submariner")
          (w.replace_submariner (submariner_spec w info options x)))
      ∷ []
    else if is_service_discovery_enabled info
    then for_some (λ x.
      answered (event w.local_client apply service_discovery operator_namespace "service-discovery")
        (w.apply_service_discovery (service_discovery_spec w info options x)))
      ∷ []
    else []

-- The secret for the broker, with some token.
abbrev pub broker_secret_step : World → Info → Step
broker_secret_step w info = for_some (λ token.
    answered
      (event w.local_client replace secret operator_namespace local_client_broker_secret_name)
      (w.local_client.replace_secret (populate_broker_secret (record info { client_token = token }))
        operator_namespace))

-- All that a join applies to the joining cluster.
abbrev pub join_steps : World → Info → Options → List Step
join_steps w info options =
    operator_steps w.local_client operator_namespace
    ++ (broker_secret_step w info ∷ resource_steps w info options)

module _ (w : World) where
  ensure_secret-Performs :
      (c : Client) (ns : String) (s : Secret)
      → Performs
          (answered (event c replace secret ns s.secret_name) (c.replace_secret s ns) ∷ [])
          (ensure_secret c ns s)
  unfolding ensure_secret
  ensure_secret-Performs c ns s = Performs-or_wrap _ _ _ (Performs-ask _ _)

  -- Either of the two resources between two reports.
  reported :
      (es : List Step) (e f : Event) (m : Run (Unit {0}))
      → Performs es m
      → Performs es (emit e >>= λ _. m >>= λ _. emit f)
  reported es e f m h = Performs-bind [] es _ _ (Performs-emit e) λ _.
      subst (λ l. Performs l (m >>= λ _. emit f)) (append-nil es)
        (Performs-bind es [] _ _ h (λ _. Performs-emit f))

  branches :
      (b d : Bool) (es fs : List Step) (m k : Run (Unit {0}))
      → Performs es m
      → Performs fs k
      → Performs
          (if b then es else if d then fs else [])
          (if b then m else if d then k else pure tt)
  branches true d es fs m k h h' = h
  branches false true es fs m k h h' = h'
  branches false false es fs m k h h' = Performs-pure tt

  deploy_resource-Performs :
      (info : Info) (options : Options) (x : Found)
      → Performs (resource_steps w info options) (
          deploy_resource w
            (record info { client_token = x.token })
            (record options { enable_clusterset_ip = x.clusterset_ip })
            x.broker_secret
            x.global
            x.clusterset
            x.repo)
  unfolding deploy_resource deploy_submariner deploy_service_discovery is_connectivity_enabled
      is_service_discovery_enabled
  deploy_resource-Performs info options x =
      branches (is_connectivity_enabled info) (is_service_discovery_enabled info) _ _ _ _
        (reported _ _ _ _ (
          Performs-or_report _ _ _ _ (
            Performs-bind (_ ∷ []) (_ ∷ []) _ _
              (Performs-or_report _ _ _ _ (ensure_secret-Performs _ _ _))
              λ psk.
                Performs-for_some _ (record x { psk = psk }) _
                  (Performs-or_report _ _ _ _ (Performs-or_wrap _ _ _ (Performs-ask _ _))))))
        (reported _ _ _ _ (
          Performs-for_some _ x _ (
            Performs-or_report _ _ _ _
              (Performs-or_report _ _ _ _ (Performs-or_wrap _ _ _ (Performs-ask _ _))))))

  -- The allocation changes no other option.
  abbrev Differs : Options → Options × String → Type 0
  Differs options r = (b : Bool) × (r.0 ≡ record options { enable_clusterset_ip = b })

  allocate_clusterset-Ensures :
      (c : Client) (ns : String) (info : Info) (options : Options)
      → Ensures Any (allocate_clusterset w c ns info options) (λ r _. Differs options r)
  unfolding allocate_clusterset
  allocate_clusterset-Ensures c ns info options =
      Ensures-if Any _ (is_service_discovery_enabled info) _ _
        (λ _. Ensures-then Any _ _ _ λ answer. Ensures-pure Any _ _ (λ log p. by_test answer.0))
        (λ _. Ensures-pure Any _ _ (λ log p. (options.enable_clusterset_ip, refl)))
    where
      by_test :
          (b : Bool)
          → (c : Bool) × ((if b then record options { enable_clusterset_ip = true } else options)
              ≡ record options { enable_clusterset_ip = c })
      by_test true = (true, refl)
      by_test false = (options.enable_clusterset_ip, refl)

  allocate_global-Keeps :
      (c : Client) (ns : String) (o : Options) (e : Step)
      → Keeps (IsDone e) (allocate_global w c ns o)
  unfolding allocate_global
  allocate_global-Keeps c ns o e = search (keeping, Adds-IsDone) depth 20

  allocate_clusterset-Keeps :
      (c : Client) (ns : String) (info : Info) (o : Options) (e : Step)
      → Keeps (IsDone e) (allocate_clusterset w c ns info o)
  unfolding allocate_clusterset
  allocate_clusterset-Keeps c ns info o e = search (keeping, Adds-IsDone) depth 20

  pub install-Performs :
      (c : Client) (ns : String) (info : Info) (o : Options) (os : Overrides)
      → Performs (join_steps w info o) (install w c ns info o os)
  unfolding install populate_broker_secret
  install-Performs c ns info o os =
      Performs-bind [] _ _ _ (Performs-none _ (allocate_global-Keeps c ns o)) λ global.
        Performs-bind_yields [] _ (Differs o) _ _
          (Performs-none _ (allocate_clusterset-Keeps c ns info o))
          (allocate_clusterset-Ensures c ns info o)
          λ allocated same. Performs-bind [] _ _ _ (Performs-emit _) λ _.
            Performs-bind (operator_steps w.local_client operator_namespace) _ _ _
              (Performs-or_report _ _ _ _
                (ensure_operator-Performs w.local_client operator_namespace))
              λ _. Performs-bind [] _ _ _ (Performs-emit _) λ _.
                Performs-bind [] _ _ _
                  (Performs-or_report [] _ _ _ (
                    Performs-none _
                      (λ s. create_sa_for_cluster-Keeps c (IsDone s) (Adds-IsDone s) _ ns)))
                  λ token. Performs-bind [] _ _ _ (Performs-emit _) λ _.
                    Performs-bind (_ ∷ []) _ _ _
                      (Performs-for_some _ token _
                        (Performs-or_report _ _ _ _ (ensure_secret-Performs _ _ _)))
                      λ s. deployed global allocated same token s
    where
      deployed :
          (global : String) (allocated : Options × String)
          → Differs o allocated
          → (token s : Secret)
          → Performs (resource_steps w info o) (
              deploy_resource w
                (record info { client_token = token })
                allocated.0
                s
                global
                allocated.1
                (new_repository_info w.default_repo w.default_version o.repository o.image_version
                  os))
      deployed global allocated (b, same) token s =
          subst
            (λ given. Performs (resource_steps w info o) (
              deploy_resource w (record info { client_token = token }) given s global allocated.1
                (new_repository_info w.default_repo w.default_version o.repository o.image_version
                  os)))
            (sym same)
            (deploy_resource-Performs info o (record {
              token = token;
              broker_secret = s;
              psk = s;
              global = global;
              clusterset = allocated.1;
              clusterset_ip = b;
              repo =
                  new_repository_info w.default_repo w.default_version o.repository o.image_version
                    os;
            }))
