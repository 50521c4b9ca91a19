-- ===== src/Broker.antt =====
-- pkg/broker/ensure.go, with pkg/serviceaccount/ensure.go (the service account and its token) and
-- pkg/namespace/ensure.go, pkg/secret/ensure.go and pkg/gateway/crds.go, which it calls.
-- An object is known by its kind, namespace and name; the YAML texts that the operator embeds are
-- part of what the API server answers.
pub mod Info
pub mod Connects
pub mod Token
pub mod Kept
pub mod Tests
use Prim.Native.String.{◌++◌}
use subctl.Base.{
  ℕ, zero, suc, String, String_eq, Text, Bool, true, false, List, [], ◌∷◌, Option, none, some, ◌==◌,
  if◌then◌else◌,
}
use subctl.Base.Dict.{Dict, lookup}
use subctl.Base.Effect.{
  Error, Result, Verb, Resource, Run, new_error, ask, not_found, interrupted, pure, fail, ◌>>=◌,
  ◌>>◌, on_error, or_wrap, ignore_already_exists, is_already_exists, is_not_found, is_interrupted,
  for_each, apply, replace, create, get, list, crd, namespace, service_account, role, role_binding,
  lighthouse_crds,
}
use subctl.Kube.{
  Secret, Client, event, get_or_empty, data_of, request, request_created, request_secret,
  request_secrets,
}

-- internal/component/component.go
abbrev pub connectivity : String
connectivity = "connectivity"

abbrev pub service_discovery_component : String
service_discovery_component = "service-discovery"

abbrev pub globalnet : String
globalnet = "globalnet"

-- internal/constants/constants.go
abbrev pub submariner_broker_admin_sa : String
submariner_broker_admin_sa = "submariner-k8s-broker-admin"

-- pkg/broker/rbac.go
abbrev pub submariner_broker_cluster_role : String
submariner_broker_cluster_role = "submariner-k8s-broker-cluster"

-- corev1.ServiceAccountNameKey
abbrev pub service_account_name_key : String
service_account_name_key = "kubernetes.io/service-account.name"

-- The CRDs of pkg/gateway/crds.go.
abbrev pub gateway_crds : List String
gateway_crds =
    "Cluster" ∷ "Endpoint" ∷ "Gateway" ∷ "ClusterGlobalEgressIP" ∷ "GlobalEgressIP"
    ∷ "GlobalIngressIP" ∷ []

-- The first secret whose annotation names the service account.
unfoldable pub find_secret : String → List Secret → Option Secret
find_secret sa [] = none
find_secret sa (s ∷ secrets) =
    if get_or_empty (lookup service_account_name_key s.annotations) == sa
    then some s
    else find_secret sa secrets

unfoldable pub has_token : Secret → Bool
has_token s = if data_of s "token" == "" then false else true

-- The steps of the back-off of ensureSAToken.
abbrev pub backoff_steps : ℕ
backoff_steps = 15

-- Its name is generated from this one.
unfoldable pub new_token_secret : String → Secret
new_token_secret sa = record {
  secret_name = sa ++ "-token-";
  annotations = (service_account_name_key, sa) ∷ ("kubernetes.io/created-by", "subctl") ∷ [];
  content = [];
}

module _ (c : Client) where
  unfoldable pub ensure_gateway_crds : Run (Unit {0})
  ensure_gateway_crds =
      for_each
        (λ name.
          or_wrap "error provisioning the %s CRD"
            (ignore_already_exists (request c apply crd "" name)))
        gateway_crds

  -- One round of the loop over the components.
  unfoldable pub ensure_component : String → Run (Unit {0})
  ensure_component name =
      if name == connectivity
      then or_wrap "error setting up the connectivity requirements" ensure_gateway_crds
      else if name == service_discovery_component
      then or_wrap "error setting up the service discovery requirements"
          (request c apply lighthouse_crds "" "")
      else if name == globalnet
      then or_wrap "error setting up the globalnet requirements"
          (request c apply lighthouse_crds "" "")
      else pure tt

  -- namespace.Ensure
  unfoldable pub ensure_namespace : String → Run Bool
  ensure_namespace name =
      on_error (request c apply namespace "" name) (λ _. pure true)
        (λ e.
          if is_already_exists e then pure false else or_wrap "error creating Namespace" (fail e))

  -- The secrets of the type of service account tokens are listed.
  unfoldable pub get_token_secret_for : String → String → Run Secret
  get_token_secret_for ns sa =
      or_wrap "failed to list secrets of type %q in namespace %q"
        (request_secrets c list secret_kind ns "type")
      >>= λ secrets. elim (find_secret sa secrets) [
        | some s ↦ pure s
        | none ↦ fail (record { cause = not_found; messages = sa ∷ [] })
      ]
    where
      secret_kind : Resource
      secret_kind = subctl.Base.Effect.secret

  -- secret.Ensure: one call of admiral's CreateAnew, which may delete and create, stands in the log as a
  -- replacement with the final answer.
  unfoldable pub ensure_secret : String → Secret → Run Secret
  ensure_secret ns s =
      or_wrap "error creating secret"
        (ask (event c replace subctl.Base.Effect.secret ns s.secret_name) (c.replace_secret s ns))

  -- wait.ExponentialBackoff: the condition is tried `steps` times. The secret is read by the name that
  -- the last answer gave it.
  unfoldable pub await_token : ℕ → String → Secret → Run Secret
  await_token zero ns s = fail (record { cause = interrupted; messages = "timed out" ∷ [] })
  await_token (suc steps) ns s =
      or_wrap "error getting secret %q"
        (request_secret c get subctl.Base.Effect.secret ns s.secret_name)
      >>= λ found. elim (has_token found) [ true ↦ pure found | false ↦ await_token steps ns found ]

  unfoldable pub ensure_token_secret : String → String → Run Secret
  ensure_token_secret ns sa =
      or_wrap "error ensuring token secret for service account %q" (
        on_error (get_token_secret_for ns sa) pure
          (λ e. if is_not_found e then ensure_secret ns (new_token_secret sa) else fail e))
      >>= λ s.
          if has_token s
          then pure s
          else on_error (await_token backoff_steps ns s) pure (λ e.
            if is_interrupted e
            then fail (new_error "the token was not generated for secret %q")
            else fail e)

  -- serviceaccount.Ensure: what was created or replaced is read back.
  unfoldable pub ensure_service_account : String → String → Run (Unit {0})
  ensure_service_account ns name = do
    or_wrap "error creating or updating ServiceAccount %q" (request c apply service_account ns name)
    request c get service_account ns name

  unfoldable pub create_new_broker_admin_sa : String → Run (Unit {0})
  create_new_broker_admin_sa ns = do
    or_wrap "error creating or updating ServiceAccount %q"
        (request c apply service_account ns submariner_broker_admin_sa)
    ensure_token_secret ns submariner_broker_admin_sa
    pure tt

  unfoldable pub create_broker_administrator_role_and_sa : String → Run (Unit {0})
  create_broker_administrator_role_and_sa ns = do
    or_wrap "error creating the broker admin service account"
        (ignore_already_exists (create_new_broker_admin_sa ns))
    or_wrap "error creating subctl role" (request c apply role ns "submariner-k8s-broker-admin")
    or_wrap "error creating the broker rolebinding"
        (ignore_already_exists (request c apply role_binding ns "submariner-k8s-broker-admin"))

  unfoldable pub ensure : List String → Bool → String → Run (Unit {0})
  ensure components create_crds ns = do
    if create_crds then for_each ensure_component components else pure tt
    ensure_namespace ns
    create_broker_administrator_role_and_sa ns
    or_wrap "error creating broker role"
        (ignore_already_exists (request c apply role ns submariner_broker_cluster_role))

  -- `sa` is names.ForClusterSA of the cluster ID.
  unfoldable pub create_sa_for_cluster : String → String → Run Secret
  create_sa_for_cluster sa ns = do
    or_wrap "error creating cluster sa" (ignore_already_exists (ensure_service_account ns sa))
    or_wrap "error binding sa to cluster role" (
        ignore_already_exists
          (request c create role_binding ns (sa ++ "-" ++ submariner_broker_cluster_role)))
    or_wrap "error getting cluster sa token" (ensure_token_secret ns sa)
