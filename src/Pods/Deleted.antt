-- ===== src/Pods/Deleted.antt =====
-- The pods of internal/pods/schedule.go are deleted again. Its Delete passes over an error, so that a pod
-- whose deletion is refused stays.
use subctl.Base.{
  String, String_eq, ◌≡◌, ◌≢◌, refl, sym, subst, Bool, true, false, List, [], ◌∷◌, ◌⊎◌, inl, inr,
  if◌then◌else◌,
}
use subctl.Base.Effect.{
  Result, ok, err, Event, Log, Run, pure, fail, ask, ◌>>=◌, ◌>>◌, case_from, bind_from, on_error,
  or_wrap, wrap, deferring, after_from, is_interrupted, call, Resource, warned, get, create, delete,
  pod, new_error,
}
use subctl.Base.Keep.{Keeps, keeping, Adds, Keeps-bind}
use subctl.Base.Ensure.{
  Ensures, Any, Succeeds, Ensures-ask, Ensures-on_error, Ensures-pure, Ensures-fail, Ensures-if,
}
use subctl.Base.Report.{FailsWith}
use subctl.Pods.{
  Config, Pod, PodApi, check_scheduled, with_defaults, lacks_node, pod_spec, check_ns_labels,
  delete_scheduled, await_until_scheduled, schedule_pod, await_completion,
  schedule_and_await_completion,
}

-- Creating the pod of the configuration answers `p`, reading a pod by its name answers one of that name,
-- and deleting it succeeds.
pub record Creates (api : PodApi) (c : Config) (p : Pod) : Type 0 where
  pub created : (log : Log) → api.create_pod (pod_spec api c) c.config_namespace log ≡ ok p
  pub named :
      (log : Log) (q : Pod)
      → api.await_pod check_scheduled c.config_namespace p.pod_name log ≡ ok q
      → q.pod_name ≡ p.pod_name
  pub deleted : (log : Log) → api.delete_pod c.config_namespace p.pod_name log ≡ ok tt

-- The call deletes the pod, with success.
abbrev Deletes : PodApi → Config → Pod → Event → Log → Type 0
Deletes api c p e log =
    (e ≡ call delete pod c.config_namespace p.pod_name)
    × (api.delete_pod c.config_namespace p.pod_name log ≡ ok tt)

-- The pod is on the cluster: it was created, and not deleted since.
abbrev pub IsPresent : PodApi → Config → Pod → Log → Type 0
IsPresent api c p [] = ⊥
IsPresent api c p (e ∷ log) =
    (call create pod c.config_namespace c.name ≡ e)
    ⊎ (IsPresent api c p log × ¬ Deletes api c p e log)

abbrev pub IsTidy : PodApi → Config → Pod → Log → Type 0
IsTidy api c p log = ¬ IsPresent api c p log

module _ (api : PodApi) (c : Config) where
  -- Whatever the deletion answers, it was asked for, and the run goes on.
  delete_scheduled-logs :
      (p : Pod) (log : Log)
      → delete_scheduled api c p log ≡ (ok tt, call delete pod c.config_namespace p.pod_name ∷ log)
  unfolding delete_scheduled on_error ask pure
  delete_scheduled-logs p log = by_answer (api.delete_pod c.config_namespace p.pod_name log)
    where
      by_answer :
          (r : Result (Unit {0}))
          → case_from
              (r, call delete pod c.config_namespace p.pod_name ∷ log)
              (λ _. pure tt)
              (λ _. pure tt)
            ≡ (ok tt, call delete pod c.config_namespace p.pod_name ∷ log)
      by_answer (ok _) = refl
      by_answer (err _) = refl

  module _ (p : Pod) (h : Creates api c p) where
    other-Adds :
        (e : Event) → call create pod c.config_namespace c.name ≢ e → Adds (IsTidy api c p) e
    other-Adds e ne = record { add = λ log q m. elim m [ inl same ↦ ne same | inr l ↦ q l.0 ] }

    -- Just after the deletion the pod is not there.
    deleted-IsTidy :
        (log : Log) → IsTidy api c p (call delete pod c.config_namespace p.pod_name ∷ log)
    deleted-IsTidy log (inl same) = differ same
      where
        differ :
            call create pod c.config_namespace c.name
              ≡ call delete pod c.config_namespace p.pod_name
            → ⊥
        differ e = cc
    deleted-IsTidy log (inr l) = l.1 (refl, h.deleted log)

    get-Adds : (r : Resource) (ns n : String) → Adds (IsTidy api c p) (call get r ns n)
    get-Adds r ns n = other-Adds (call get r ns n) (λ h. cc)

    warned-Adds : (s : String) (args : List String) → Adds (IsTidy api c p) (warned s args)
    warned-Adds s args = other-Adds (warned s args) (λ h. cc)

    await_until_scheduled-Ensures :
        Ensures Any (await_until_scheduled api c p) (λ q _. q.pod_name ≡ p.pod_name)
    unfolding await_until_scheduled
    await_until_scheduled-Ensures =
        Ensures-on_error Any _ (λ q _. q.pod_name ≡ p.pod_name) _ _ _
          (Ensures-ask Any _ _ _ (λ log q a e. h.named log q e))
          (λ q. Ensures-pure _ _ q (λ log e. e))
          (λ e.
            Ensures-if Any _ (is_interrupted e) _ _ (λ _. Ensures-fail Any _ _)
              (λ _. Ensures-fail Any _ e))

    -- A pod that is not scheduled has been deleted; one that is has the name.
    abbrev IsKept : Result Pod × Log → Type 0
    IsKept r = FailsWith (IsTidy api c p) r × Succeeds (λ q _. q.pod_name ≡ p.pod_name) r

    scheduled_or_deleted :
        (r : Result Pod × Log)
        → Succeeds (λ q _. q.pod_name ≡ p.pod_name) r
        → IsKept (case_from r pure (λ e. delete_scheduled api c p >> fail e))
    unfolding pure fail ◌>>=◌
    scheduled_or_deleted (ok q, log) s = (tt, s)
    scheduled_or_deleted (err e, log) s = rw (delete_scheduled-logs p log) (deleted-IsTidy log, tt)

    schedule_pod-IsKept : (log : Log) → IsTidy api c p log → IsKept (schedule_pod api c log)
    unfolding schedule_pod or_wrap on_error ask ◌>>=◌ pure fail
    schedule_pod-IsKept log t = by_test (lacks_node c.scheduling)
      where
        create_event : Event
        create_event = call create pod c.config_namespace c.name

        by_test :
            (b : Bool)
            → IsKept (
                (if b
                    then fail (
                        new_error "CustomNode is specified for scheduling, but nodeName is missing")
                    else (or_wrap "error creating Pod"
                          (ask create_event (api.create_pod (pod_spec api c) c.config_namespace))
                        >>= λ q.
                            on_error
                              (await_until_scheduled api c q)
                              pure
                              (λ e. delete_scheduled api c q >> fail e)))
                  log)
        by_test true = (t, tt)
        by_test false =
            subst
              (λ r. IsKept (
                bind_from
                  (case_from (r, create_event ∷ log) pure (λ e. fail (wrap "error creating Pod" e)))
                  (λ q.
                    on_error (await_until_scheduled api c q) pure
                      (λ e. delete_scheduled api c q >> fail e))))
              (sym (h.created log))
              (scheduled_or_deleted (await_until_scheduled api c p (create_event ∷ log))
                (await_until_scheduled-Ensures.run (create_event ∷ log) tt))

    check_ns_labels-Keeps : Keeps (IsTidy api c p) (check_ns_labels api c)
    unfolding check_ns_labels
    check_ns_labels-Keeps = search (keeping, get-Adds, warned-Adds) depth 20

    completed_and_deleted :
        (m : Run String) (q : Pod) (log : Log)
        → q.pod_name ≡ p.pod_name
        → IsTidy api c p (deferring (delete_scheduled api c q) m log).1
    unfolding deferring
    completed_and_deleted m q log e = by_result (m log)
      where
        by_result :
            (r : Result String × Log) → IsTidy api c p (after_from (delete_scheduled api c q) r).1
        by_result (r, log') = rw (delete_scheduled-logs q log') (
            subst (λ n. IsTidy api c p (call delete pod c.config_namespace n ∷ log')) (sym e)
              (deleted-IsTidy log'))

    after_schedule :
        (r : Result Pod × Log)
        → IsKept r
        → IsTidy api c p
            (bind_from r (λ q. deferring (delete_scheduled api c q) (await_completion api c q))).1
    after_schedule (ok q, log) k = completed_and_deleted (await_completion api c q) q log k.1
    after_schedule (err e, log) k = k.0

    schedule_and_complete-Keeps : Keeps (IsTidy api c p) (
        schedule_pod api c >>= λ q. deferring (delete_scheduled api c q) (await_completion api c q))
    unfolding ◌>>=◌
    schedule_and_complete-Keeps = record {
      run = λ log t. after_schedule (schedule_pod api c log) (schedule_pod-IsKept log t);
    }

-- Where the creation and the deletion of the pod succeed and reading a pod by its name answers one of that
-- name, ScheduleAndAwaitCompletion leaves no pod behind, however it ends: if the pod was not on the
-- cluster before, then it is not after the run, also when it was not scheduled, failed or timed out.
pub schedule_and_await_completion-IsTidy :
    (api : PodApi) (given : Config) (p : Pod)
    → Creates api (with_defaults given) p
    → Keeps (IsTidy api (with_defaults given) p) (schedule_and_await_completion api given)
unfolding schedule_and_await_completion
schedule_and_await_completion-IsTidy api given p h =
    Keeps-bind (IsTidy api (with_defaults given) p) _ _
      (check_ns_labels-Keeps api (with_defaults given) p h)
      (λ _. schedule_and_complete-Keeps api (with_defaults given) p h)
