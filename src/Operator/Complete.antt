-- ===== src/Operator/Complete.antt =====
-- What a successful pkg/operator/ensure.go has applied.
use subctl.Base.{String, ◌≡◌, List, [], ◌∷◌, ◌++◌, map, subst}
use subctl.Base.Effect.{
  ok, Log, crd, role, role_binding, cluster_role, cluster_role_binding, service_account,
}
use subctl.Base.Ensure.{Succeeds}
use subctl.Base.Steps.{Step, Happened}
use subctl.Base.Perform.{Performs, Performs-pure, Performs-bind}
use subctl.Kube.{Client}
use subctl.Operator.{
  operator_crds, submariner_names, submariner_roles, operator_rbac, submariner_rbac,
  lighthouse_rbac, ensure_submariner_accounts, ensure_submariner, ensure_lighthouse_accounts,
  ensure_lighthouse, ensure_operator,
}
use subctl.Operator.Applied.{
  Performs-bind_last, report_created-Performs, any_created-Performs, applied,
  ensure_from_yaml-Performs, ensure_crds-Performs, namespace_step, ensure_namespace-Performs,
  ensure_operator_accounts-Performs, role_binding_step, ensure_role_binding-Performs,
  ensure_lighthouse_pair-Performs, deployment_steps, ensure_deployment-Performs,
}
use subctl.Operator.Rbac.{steps_of, ocp_steps, ensure_rbac-Performs}

module _ (c : Client) where
  abbrev submariner_account_steps : String → List Step
  submariner_account_steps ns =
      map (applied c service_account ns) submariner_names
      ++ (map (applied c cluster_role "") submariner_names
          ++ (map (applied c cluster_role_binding ns) submariner_names
              ++ (map (applied c role ns) submariner_roles
                  ++ map (role_binding_step c ns) submariner_roles)))

  abbrev submariner_steps : String → List Step
  submariner_steps ns = submariner_account_steps ns ++ steps_of (ocp_steps c ns) submariner_rbac

  ensure_submariner-Performs :
      (ns : String) → Performs (submariner_steps ns) (ensure_submariner c ns)
  unfolding ensure_submariner ensure_submariner_accounts
  ensure_submariner-Performs ns =
      Performs-bind (submariner_account_steps ns) _ _ _
        (report_created-Performs (submariner_account_steps ns) _ _ (
          Performs-bind _ _ _ _
            (any_created-Performs _ _ submariner_names
              (ensure_from_yaml-Performs c service_account ns))
            λ sa.
              Performs-bind _ _ _ _
                (any_created-Performs _ _ submariner_names
                  (ensure_from_yaml-Performs c cluster_role ""))
                λ cr.
                  Performs-bind _ _ _ _
                    (any_created-Performs _ _ submariner_names
                      (ensure_from_yaml-Performs c cluster_role_binding ns))
                    λ crb.
                      Performs-bind _ _ _ _
                        (any_created-Performs _ _ submariner_roles
                          (ensure_from_yaml-Performs c role ns))
                        λ r.
                          Performs-bind_last _ _ _
                            (any_created-Performs _ _ submariner_roles
                              (ensure_role_binding-Performs c ns))
                            λ rb. Performs-pure _))
        (λ _. report_created-Performs _ _ _ (ensure_rbac-Performs c ns submariner_rbac))

  abbrev lighthouse_account_steps : String → List Step
  lighthouse_account_steps ns =
      applied c service_account ns "agent"
      ∷ applied c service_account ns "coredns"
      ∷ applied c cluster_role "" "agent"
      ∷ applied c cluster_role "" "coredns"
      ∷ applied c cluster_role_binding ns "agent"
      ∷ applied c cluster_role_binding ns "coredns"
      ∷ []

  abbrev lighthouse_steps : String → List Step
  lighthouse_steps ns = lighthouse_account_steps ns ++ steps_of (ocp_steps c ns) lighthouse_rbac

  ensure_lighthouse-Performs :
      (ns : String) → Performs (lighthouse_steps ns) (ensure_lighthouse c ns)
  unfolding ensure_lighthouse ensure_lighthouse_accounts
  ensure_lighthouse-Performs ns =
      Performs-bind (lighthouse_account_steps ns) _ _ _
        (report_created-Performs (lighthouse_account_steps ns) _ _ (
          Performs-bind (_ ∷ _ ∷ []) _ _ _
            (ensure_lighthouse_pair-Performs c service_account ns _ _)
            λ sa.
              Performs-bind (_ ∷ _ ∷ []) _ _ _
                (ensure_lighthouse_pair-Performs c cluster_role "" _ _)
                λ cr.
                  Performs-bind_last (_ ∷ _ ∷ []) _ _
                    (ensure_lighthouse_pair-Performs c cluster_role_binding ns _ _)
                    λ crb. Performs-pure _))
        (λ _. report_created-Performs _ _ _ (ensure_rbac-Performs c ns lighthouse_rbac))

  -- All that an installation of the operator applies, and the wait for its deployment.
  abbrev pub operator_steps : String → List Step
  operator_steps ns =
      map (applied c crd "") operator_crds
      ++ (namespace_step c ns
          ∷ applied c service_account ns "operator"
          ∷ applied c role ns "operator"
          ∷ applied c role_binding ns "operator"
          ∷ applied c cluster_role "" "operator"
          ∷ applied c cluster_role_binding ns "operator"
          ∷ (steps_of (ocp_steps c ns) operator_rbac
              ++ (submariner_steps ns ++ (lighthouse_steps ns ++ deployment_steps c ns))))

  pub ensure_operator-Performs : (ns : String) → Performs (operator_steps ns) (ensure_operator c ns)
  unfolding ensure_operator
  ensure_operator-Performs ns =
      Performs-bind _ _ _ _ (report_created-Performs _ _ _ (ensure_crds-Performs c)) λ _.
        Performs-bind (_ ∷ []) _ _ _
          (report_created-Performs _ _ _ (ensure_namespace-Performs c ns))
          λ _.
            Performs-bind (_ ∷ _ ∷ _ ∷ _ ∷ _ ∷ []) _ _ _
              (report_created-Performs _ _ _ (ensure_operator_accounts-Performs c ns))
              λ _.
                Performs-bind _ _ _ _
                  (report_created-Performs _ _ _ (ensure_rbac-Performs c ns operator_rbac))
                  λ _. Performs-bind _ _ _ _ (ensure_submariner-Performs ns) λ _.
                    Performs-bind _ _ _ _ (ensure_lighthouse-Performs ns)
                      λ _. report_created-Performs _ _ _ (ensure_deployment-Performs c ns)

  -- When operator.Ensure returns no error, these calls were made and answered without an error: the
  -- application of the three CRDs, of every service account, role, cluster role and binding of the
  -- operator, of Submariner and of Lighthouse, and of the operator's deployment, and the wait for the
  -- deployment. The namespace was applied or existed already, a role binding of Submariner was applied
  -- or belongs to another namespace, which is missing, and each cluster role and binding for OpenShift was
  -- applied, unless a read of OpenShift's security constraint was answered with an error.
  pub ensure_operator-Complete :
      (ns : String) (log : Log) {after : Log}
      → ensure_operator c ns log ≡ (ok tt, after)
      → Happened (operator_steps ns) after
  ensure_operator-Complete ns log h =
      subst (Succeeds (λ _. Happened (operator_steps ns))) h
        ((ensure_operator-Performs ns).done.run log tt)
