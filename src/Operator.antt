-- ===== src/Operator.antt =====
-- pkg/operator/ensure.go and what it calls in turn: pkg/operator/crds, pkg/operator/serviceaccount,
-- pkg/operator/ocp, pkg/submariner, pkg/lighthouse and the last calls of pkg/operator/deployment.
-- An embedded YAML text is known by the kind of its object and the part of its name that says whose it
-- is.
pub mod Applied
pub mod Rbac
pub mod Complete
pub mod Tests
use subctl.Base.{
  ℕ, String, String_eq, Bool, true, false, ◌||◌, not, List, [], ◌∷◌, ◌==◌, if◌then◌else◌,
}
use subctl.Base.Effect.{
  Error, Run, pure, fail, ◌>>=◌, ◌>>◌, on_error, or_wrap, get, apply, Resource, crd, role,
  role_binding, cluster_role, cluster_role_binding, service_account, deployment, Cause,
  missing_namespace, security_constraints,
}
use subctl.Kube.{Client, request, request_created, report_created}
use subctl.Broker.{ensure_namespace}

-- internal/constants/constants.go
abbrev pub operator_namespace : String
operator_namespace = "submariner-operator"

-- names.OperatorComponent
abbrev pub operator_component : String
operator_component = "submariner-operator"

pub record RbacInfo : Type 0 where
  pub component_name : String
  pub cluster_role_file : String
  pub cluster_role_binding_file : String

abbrev pub rbac : String → String → RbacInfo
rbac component file = record {
  component_name = component;
  cluster_role_file = file;
  cluster_role_binding_file = file;
}

-- resource.IsMissingNamespaceErr with ExtractMissingNamespaceFromErr(err) != namespace
abbrev pub is_missing_other_cause : String → Cause → Bool
is_missing_other_cause ns (missing_namespace missing) = not (missing == ns)
is_missing_other_cause ns _ = false

abbrev pub is_missing_other_namespace : String → Error → Bool
is_missing_other_namespace ns e = is_missing_other_cause ns e.cause

-- `created = created || iterCreated`, over the rounds of a loop that an error ends.
unfoldable pub any_created : {A : Type 0} → (A → Run Bool) → List A → Run Bool
any_created ensure_one [] = pure false
any_created ensure_one (x ∷ xs) =
    ensure_one x >>= λ created. any_created ensure_one xs >>= λ rest. pure (created || rest)

abbrev pub operator_crds : List String
operator_crds = "Submariner" ∷ "ServiceDiscovery" ∷ "Broker" ∷ []

abbrev pub submariner_names : List String
submariner_names = "gateway" ∷ "route agent" ∷ "globalnet" ∷ "diagnose" ∷ []

abbrev pub submariner_roles : List String
submariner_roles = "gateway" ∷ "route agent" ∷ "globalnet" ∷ "diagnose" ∷ "metrics reader" ∷ []

abbrev pub submariner_rbac : List RbacInfo
submariner_rbac =
    rbac "submariner-gateway" "gateway ocp"
    ∷ rbac "submariner-routeagent" "route agent ocp"
    ∷ rbac "submariner-gateway" "globalnet ocp"
    ∷ rbac "submariner-diagnose" "diagnose ocp"
    ∷ []

abbrev pub lighthouse_rbac : List RbacInfo
lighthouse_rbac =
    rbac "submariner-lighthouse-agent" "agent ocp"
    ∷ rbac "submariner-lighthouse-coredns" "coredns ocp"
    ∷ []

abbrev pub operator_rbac : List RbacInfo
operator_rbac = rbac "submariner-operator" "operator ocp" ∷ []

module _ (c : Client) where
  -- EnsureFromYAML of pkg/serviceaccount, role, rolebinding, clusterrole and clusterrolebinding.
  unfoldable pub ensure_from_yaml : Resource → String → String → Run Bool
  ensure_from_yaml r ns yaml = request_created c apply r ns yaml

  unfoldable pub ensure_crds : Run Bool
  ensure_crds =
      any_created (λ name. or_wrap "error provisioning the %s CRD" (ensure_from_yaml crd "" name))
        operator_crds

  unfoldable pub ensure_operator_accounts : String → Run Bool
  ensure_operator_accounts ns =
      or_wrap "error provisioning operator ServiceAccount resource"
        (ensure_from_yaml service_account ns "operator")
      >>= λ sa.
          or_wrap "error provisioning operator Role resource" (ensure_from_yaml role ns "operator")
          >>= λ r.
              or_wrap "error provisioning operator RoleBinding resource"
                (ensure_from_yaml role_binding ns "operator")
              >>= λ rb.
                  or_wrap "error provisioning operator ClusterRole resource"
                    (ensure_from_yaml cluster_role "" "operator")
                  >>= λ cr.
                      or_wrap "error provisioning operator ClusterRoleBinding resource"
                        (ensure_from_yaml cluster_role_binding ns "operator")
                      >>= λ crb. pure (sa || (r || (rb || (cr || crb))))

  unfoldable pub is_ocp_platform : Run Bool
  is_ocp_platform =
      on_error (request c get security_constraints "" "privileged") (λ _. pure true)
        (λ _. pure false)

  unfoldable pub ensure_component_rbac : String → RbacInfo → Run Bool
  ensure_component_rbac ns info =
      or_wrap "error provisioning the %s OCP ClusterRole resource"
        (ensure_from_yaml cluster_role "" info.cluster_role_file)
      >>= λ cr.
          or_wrap "error provisioning the %s OCP ClusterRoleBinding resource"
            (ensure_from_yaml cluster_role_binding ns info.cluster_role_binding_file)
          >>= λ crb. pure (cr || crb)

  unfoldable pub ensure_rbac : String → List RbacInfo → Run Bool
  ensure_rbac ns infos = is_ocp_platform >>= λ ocp.
      if ocp then any_created (ensure_component_rbac ns) infos else pure false

  -- A role binding with a namespace of its own is left out where that namespace is missing.
  unfoldable pub ensure_role_binding : String → String → Run Bool
  ensure_role_binding ns yaml =
      on_error (ensure_from_yaml role_binding ns yaml) pure
        (λ e. if is_missing_other_namespace ns e then pure false else fail e)

  unfoldable pub ensure_submariner_accounts : String → Run Bool
  ensure_submariner_accounts ns =
      any_created (ensure_from_yaml service_account ns) submariner_names >>= λ sa.
      any_created (ensure_from_yaml cluster_role "") submariner_names >>= λ cr.
      any_created (ensure_from_yaml cluster_role_binding ns) submariner_names >>= λ crb.
      any_created (ensure_from_yaml role ns) submariner_roles >>= λ r.
      any_created (ensure_role_binding ns) submariner_roles >>= λ rb.
      pure (sa || (cr || (crb || (r || rb))))

  unfoldable pub ensure_submariner : String → Run (Unit {0})
  ensure_submariner ns = do
    report_created "Created submariner service account and role" (ensure_submariner_accounts ns)
    report_created "Updated the OCP roles" (ensure_rbac ns submariner_rbac)

  unfoldable pub ensure_lighthouse_pair : Resource → String → String → String → Run Bool
  ensure_lighthouse_pair r ns agent_message coredns_message =
      or_wrap agent_message (ensure_from_yaml r ns "agent") >>= λ agent.
      or_wrap coredns_message (ensure_from_yaml r ns "coredns") >>= λ coredns.
      pure (agent || coredns)

  unfoldable pub ensure_lighthouse_accounts : String → Run Bool
  ensure_lighthouse_accounts ns =
      ensure_lighthouse_pair service_account ns
        "error provisioning the agent ServiceAccount resource"
        "error provisioning the coredns ServiceAccount resource"
      >>= λ sa.
          ensure_lighthouse_pair cluster_role "" "error provisioning the agent ClusterRole resource"
            "error provisioning the coredns ClusterRole resource"
          >>= λ cr.
              ensure_lighthouse_pair cluster_role_binding ns
                "error provisioning the agent ClusterRoleBinding resource"
                "error provisioning the coredns ClusterRoleBinding resource"
              >>= λ crb. pure (sa || (cr || crb))

  unfoldable pub ensure_lighthouse : String → Run (Unit {0})
  ensure_lighthouse ns = do
    report_created "Created lighthouse service account and role" (ensure_lighthouse_accounts ns)
    report_created "Updated the OCP roles" (ensure_rbac ns lighthouse_rbac)

  -- deployment.Ensure of pkg/operator: the deployment is applied, and awaited.
  unfoldable pub ensure_deployment : String → Run Bool
  ensure_deployment ns =
      or_wrap "error creating/updating Deployment"
        (request_created c apply deployment ns operator_component)
      >>= λ created.
          or_wrap "error awaiting Deployment ready" (request c get deployment ns operator_component)
          >> pure created

  unfoldable pub ensure_operator : String → Run (Unit {0})
  ensure_operator ns = do
    report_created "Created operator CRDs" ensure_crds
    report_created "Created operator namespace: %s" (ensure_namespace c ns)
    report_created "Created operator service account and role" (ensure_operator_accounts ns)
    report_created "Updated the OCP roles" (ensure_rbac ns operator_rbac)
    ensure_submariner ns
    ensure_lighthouse ns
    report_created "Deployed the operator successfully" (ensure_deployment ns)
