-- ===== src/Operator/Rbac.antt =====
-- What pkg/operator/ocp applies, where the platform is OpenShift.
use subctl.Base.{
  String, String_eq, ◌≡◌, refl, ap, Bool, true, false, not, List, [], ◌∷◌, ◌++◌, inl, inr,
  if◌then◌else◌,
}
use subctl.Base.Effect.{
  Result, ok, err, Event, Log, Run, pure, ask, on_error, case_from, get, cluster_role,
  cluster_role_binding, security_constraints,
}
use subctl.Base.Keep.{Keeps, keeping, Keeps-pure, Keeps-bind, Keeps-if}
use subctl.Base.Ensure.{Ensures, Any, Succeeds, Ensures-bind, Ensures-pure}
use subctl.Base.Steps.{Step, either, IsDone, Happened, accepts, no_error, refused, Adds-IsDone}
use subctl.Base.Perform.{Performs, Performs-pure, Performs-bind}
use subctl.Kube.{Client, event, request}
use subctl.Operator.{RbacInfo, any_created, is_ocp_platform, ensure_component_rbac, ensure_rbac}
use subctl.Operator.Applied.{Performs-bind_last, applied, wrapped}

any_created-Keeps :
    {A : Type 0} (Q : Log → Type 0) (body : A → Run Bool) (xs : List A)
    → ((x : A) → Keeps Q (body x))
    → Keeps Q (any_created body xs)
unfolding any_created
any_created-Keeps Q body [] h = Keeps-pure Q false
any_created-Keeps Q body (x ∷ xs) h =
    Keeps-bind Q _ _ (h x)
      (λ b. Keeps-bind Q _ _ (any_created-Keeps Q body xs h) (λ r. Keeps-pure Q _))

-- The steps of a list of objects.
abbrev pub steps_of : {A : Type 0} → (A → List Step) → List A → List Step
steps_of steps [] = []
steps_of steps (x ∷ xs) = steps x ++ steps_of steps xs

any_created-Performs_all :
    {A : Type 0} (steps : A → List Step) (body : A → Run Bool) (xs : List A)
    → ((x : A) → Performs (steps x) (body x))
    → Performs (steps_of steps xs) (any_created body xs)
unfolding any_created
any_created-Performs_all steps body [] h = Performs-pure false
any_created-Performs_all steps body (x ∷ xs) h =
    Performs-bind (steps x) (steps_of steps xs) _ _ (h x) (λ b.
      Performs-bind_last (steps_of steps xs) _ _ (any_created-Performs_all steps body xs h)
        (λ r. Performs-pure _))

module _ (c : Client) where
  is_ocp_platform-Keeps : (s : Step) → Keeps (IsDone s) (is_ocp_platform c)
  unfolding is_ocp_platform request
  is_ocp_platform-Keeps s = search (keeping, Adds-IsDone) depth 20

  -- A read of OpenShift's security constraint was answered with an error.
  abbrev pub not_openshift : Step
  not_openshift =
      refused (event c get security_constraints "" "privileged")
        (c.done get security_constraints "" "privileged")

  abbrev rbac_steps : String → RbacInfo → List Step
  rbac_steps ns i =
      applied c cluster_role "" i.cluster_role_file
      ∷ applied c cluster_role_binding ns i.cluster_role_binding_file
      ∷ []

  abbrev pub ocp_steps : String → RbacInfo → List Step
  ocp_steps ns i =
      either not_openshift (applied c cluster_role "" i.cluster_role_file)
      ∷ either not_openshift (applied c cluster_role_binding ns i.cluster_role_binding_file)
      ∷ []

  ensure_component_rbac-Performs :
      (ns : String) (i : RbacInfo) → Performs (rbac_steps ns i) (ensure_component_rbac c ns i)
  unfolding ensure_component_rbac
  ensure_component_rbac-Performs ns i =
      Performs-bind (_ ∷ []) (_ ∷ []) _ _ (wrapped c _ _ "" _)
        λ cr. Performs-bind_last (_ ∷ []) _ _ (wrapped c _ _ ns _) λ crb. Performs-pure _

  all_refused :
      (ns : String) (is : List RbacInfo) (log : Log)
      → IsDone not_openshift log
      → Happened (steps_of (ocp_steps ns) is) log
  all_refused ns [] log h = tt
  all_refused ns (i ∷ is) log h = (inl h, (inl h, all_refused ns is log h))

  all_applied :
      (ns : String) (is : List RbacInfo) (log : Log)
      → Happened (steps_of (rbac_steps ns) is) log
      → Happened (steps_of (ocp_steps ns) is) log
  all_applied ns [] log h = tt
  all_applied ns (i ∷ is) log h = (inr h.0, (inr h.1.0, all_applied ns is log h.1.1))

  -- Where the platform is found not to be OpenShift, the constraint was not found.
  is_ocp_platform-Ensures :
      Ensures Any (is_ocp_platform c) (λ ocp log. ocp ≡ false → IsDone not_openshift log)
  unfolding is_ocp_platform request on_error ask pure
  is_ocp_platform-Ensures = record {
    run = λ log p. by_answer log (c.done get security_constraints "" "privileged" log) refl;
  }
    where
      e : Event
      e = event c get security_constraints "" "privileged"

      by_answer :
          (log : Log) (r : Result (Unit {0}))
          → c.done get security_constraints "" "privileged" log ≡ r
          → Succeeds
              (λ ocp after. ocp ≡ false → IsDone not_openshift after)
              (case_from (r, e ∷ log) (λ _ after. (ok true, after)) (λ _ after. (ok false, after)))
      by_answer log (ok _) h = λ n. cc
      by_answer log (err x) h = λ n. inl (refl, ap (λ a. not (accepts no_error a)) h)

  pub ensure_rbac-Performs :
      (ns : String) (is : List RbacInfo)
      → Performs (steps_of (ocp_steps ns) is) (ensure_rbac c ns is)
  unfolding ensure_rbac
  ensure_rbac-Performs ns is = record {
    done = Ensures-bind Any _ _ _ _ is_ocp_platform-Ensures by_platform;
    grows = λ s.
        Keeps-bind (IsDone s) _ _ (is_ocp_platform-Keeps s)
          (λ ocp. Keeps-if (IsDone s) ocp _ _ (components.grows s) (Keeps-pure (IsDone s) false));
  }
    where
      components :
          Performs (steps_of (rbac_steps ns) is) (any_created (ensure_component_rbac c ns) is)
      components = any_created-Performs_all (rbac_steps ns) _ is (ensure_component_rbac-Performs ns)

      weaken :
          (r : Result Bool × Log)
          → Succeeds (λ _. Happened (steps_of (rbac_steps ns) is)) r
          → Succeeds (λ _. Happened (steps_of (ocp_steps ns) is)) r
      weaken (ok b, log) h = all_applied ns is log h
      weaken (err x, log) h = tt

      by_platform :
          (ocp : Bool)
          → Ensures
              (λ log. ocp ≡ false → IsDone not_openshift log)
              (if ocp then any_created (ensure_component_rbac c ns) is else pure false)
              (λ _. Happened (steps_of (ocp_steps ns) is))
      by_platform true = record { run = λ log p. weaken _ (components.done.run log tt) }
      by_platform false = Ensures-pure _ _ false (λ log p. all_refused ns is log (p refl))
