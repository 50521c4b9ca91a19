-- ===== src/Operator/Applied.antt =====
-- What the parts of pkg/operator/ensure.go apply: one kind of object after the other.
use subctl.Base.{String, String_eq, Bool, true, false, List, [], ◌∷◌, map, subst, append-nil}
use subctl.Base.Effect.{
  Run, succeeded, ◌>>=◌, is_already_exists, get, apply, Resource, crd, namespace, role,
  role_binding, cluster_role, cluster_role_binding, service_account, deployment, or_wrap,
}
use subctl.Base.Steps.{Step, answered, tolerated}
use subctl.Base.Perform.{
  Performs, Performs-pure, Performs-fail, Performs-ask, Performs-emit, Performs-or_wrap,
  Performs-if, Performs-bind, Performs-on_error-ask,
}
use subctl.Kube.{Client, event, request, request_created, report_created}
use subctl.Broker.{ensure_namespace}
use subctl.Operator.{
  any_created, operator_crds, operator_component, ensure_from_yaml, ensure_crds,
  ensure_operator_accounts, ensure_role_binding, is_missing_other_namespace, ensure_lighthouse_pair,
  ensure_deployment,
}

-- The last part of a run that adds nothing that is asked for.
pub Performs-bind_last :
    {A B : Type 0} (es : List Step) (m : Run A) (f : A → Run B)
    → Performs es m
    → ((a : A) → Performs [] (f a))
    → Performs es (m >>= f)
Performs-bind_last es m f h k =
    subst (λ l. Performs l (m >>= f)) (append-nil es) (Performs-bind es [] m f h k)

pub report_created-Performs :
    (es : List Step) (s : String) (m : Run Bool) → Performs es m → Performs es (report_created s m)
unfolding report_created
report_created-Performs es s m h =
    Performs-bind_last es m _ h
      (λ b. Performs-if [] b _ _ (Performs-emit (succeeded s [])) (Performs-pure tt))

pub any_created-Performs :
    {A : Type 0} (ev : A → Step) (body : A → Run Bool) (xs : List A)
    → ((x : A) → Performs (ev x ∷ []) (body x))
    → Performs (map ev xs) (any_created body xs)
unfolding any_created
any_created-Performs ev body [] h = Performs-pure false
any_created-Performs ev body (x ∷ xs) h = Performs-bind (ev x ∷ []) (map ev xs) _ _ (h x) (λ b.
    Performs-bind_last (map ev xs) _ _ (any_created-Performs ev body xs h) (λ r. Performs-pure _))

module _ (c : Client) where
  -- The object was applied.
  abbrev pub applied : Resource → String → String → Step
  applied r ns n = answered (event c apply r ns n) (c.created apply r ns n)

  pub ensure_from_yaml-Performs :
      (r : Resource) (ns n : String) → Performs (applied r ns n ∷ []) (ensure_from_yaml c r ns n)
  unfolding ensure_from_yaml request_created
  ensure_from_yaml-Performs r ns n = Performs-ask _ _

  pub wrapped :
      (s : String) (r : Resource) (ns n : String)
      → Performs (applied r ns n ∷ []) (or_wrap s (ensure_from_yaml c r ns n))
  wrapped s r ns n = Performs-or_wrap _ s _ (ensure_from_yaml-Performs r ns n)

  pub ensure_crds-Performs : Performs (map (applied crd "") operator_crds) (ensure_crds c)
  unfolding ensure_crds
  ensure_crds-Performs = any_created-Performs _ _ operator_crds (λ n. wrapped _ crd "" n)

  -- The namespace was created, or existed.
  abbrev pub namespace_step : String → Step
  namespace_step ns =
      tolerated is_already_exists (event c apply namespace "" ns) (c.done apply namespace "" ns)

  pub ensure_namespace-Performs :
      (ns : String) → Performs (namespace_step ns ∷ []) (ensure_namespace c ns)
  unfolding ensure_namespace request
  ensure_namespace-Performs ns =
      Performs-on_error-ask is_already_exists _ _ _ _ (λ _. Performs-pure true)
        (λ e h. rw h (Performs-pure false))
        (λ e h. rw h (Performs-or_wrap _ _ _ (Performs-fail _ e)))

  pub ensure_operator_accounts-Performs :
      (ns : String)
      → Performs
          (applied service_account ns "operator"
            ∷ applied role ns "operator"
            ∷ applied role_binding ns "operator"
            ∷ applied cluster_role "" "operator"
            ∷ applied cluster_role_binding ns "operator"
            ∷ [])
          (ensure_operator_accounts c ns)
  unfolding ensure_operator_accounts
  ensure_operator_accounts-Performs ns = Performs-bind (_ ∷ []) _ _ _ (wrapped _ _ ns _) λ sa.
      Performs-bind (_ ∷ []) _ _ _ (wrapped _ _ ns _) λ r.
        Performs-bind (_ ∷ []) _ _ _ (wrapped _ _ ns _) λ rb.
          Performs-bind (_ ∷ []) _ _ _ (wrapped _ _ "" _)
            λ cr. Performs-bind (_ ∷ []) [] _ _ (wrapped _ _ ns _) λ crb. Performs-pure _

  -- The role binding was applied, or another namespace, where it belongs, is missing.
  abbrev pub role_binding_step : String → String → Step
  role_binding_step ns n =
      tolerated (is_missing_other_namespace ns) (event c apply role_binding ns n)
        (c.created apply role_binding ns n)

  pub ensure_role_binding-Performs :
      (ns n : String) → Performs (role_binding_step ns n ∷ []) (ensure_role_binding c ns n)
  unfolding ensure_role_binding ensure_from_yaml request_created
  ensure_role_binding-Performs ns n =
      Performs-on_error-ask (is_missing_other_namespace ns) _ _ _ _ Performs-pure
        (λ e h. rw h (Performs-pure false)) (λ e h. rw h (Performs-fail _ e))

  pub ensure_lighthouse_pair-Performs :
      (r : Resource) (ns s t : String)
      → Performs
          (applied r ns "agent" ∷ applied r ns "coredns" ∷ [])
          (ensure_lighthouse_pair c r ns s t)
  unfolding ensure_lighthouse_pair
  ensure_lighthouse_pair-Performs r ns s t =
      Performs-bind (_ ∷ []) (_ ∷ []) _ _ (wrapped _ r ns _)
        λ a. Performs-bind (_ ∷ []) [] _ _ (wrapped _ r ns _) λ b. Performs-pure _

  abbrev pub deployment_steps : String → List Step
  deployment_steps ns =
      applied deployment ns operator_component
      ∷ answered (event c get deployment ns operator_component)
          (c.done get deployment ns operator_component)
      ∷ []

  pub ensure_deployment-Performs :
      (ns : String) → Performs (deployment_steps ns) (ensure_deployment c ns)
  unfolding ensure_deployment request request_created
  ensure_deployment-Performs ns =
      Performs-bind (_ ∷ []) (_ ∷ []) _ _ (Performs-or_wrap _ _ _ (Performs-ask _ _)) λ b.
        Performs-bind_last (_ ∷ []) _ _ (Performs-or_wrap _ _ _ (Performs-ask _ _))
          λ _. Performs-pure b
